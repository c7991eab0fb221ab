-- ===== src/Protocol/Schedule.antt =====
-- The processes that share a port, in an order that a schedule gives: who looks at the status
-- (`dsu_monitor_fd` of src/core.c) and who answers a request, one after another.
use open_dsu.Prelude.{
  ℕ, zero, suc, ◌<◌, ◌≡◌, refl, Bool, true, false, ◌&&◌, ◌||◌, List, [], ◌∷◌, arith, ◌==◌, All,
}
use open_dsu.Prelude.Words.{Word, truth}
use open_dsu.Core.Monitor.{Status, observe}
use open_dsu.Messages.Answer.{count_answer}
use open_dsu.Protocol.{Process}
use open_dsu.Protocol.Handover.{IsOlder}

-- The process at position `who` looks at the status, or answers a request.
pub record Turn : Type 0 where
  pub is_look : Bool
  pub who : ℕ

unfoldable pub act : Bool → Process → Status → Process × Status
act true p st = let (s, st') = observe p.group p.socket st in (record p { socket = s }, st')
act false p st = let (s, st') = count_answer p.socket st in (record p { socket = s }, st')

unfoldable pub act_at : Bool → ℕ → List Process → Status → List Process × Status
act_at is_look i [] st = ([], st)
act_at is_look zero (p ∷ l) st = let (p', st') = act is_look p st in (p' ∷ l, st')
act_at is_look (suc i) (p ∷ l) st = let (l', st') = act_at is_look i l st in (p ∷ l', st')

unfoldable pub run : List Turn → List Process → Status → List Process × Status
run [] l st = (l, st)
run (t ∷ turns) l st = let (l', st') = act_at t.is_look t.who l st in run turns l' st'

-- Whether a process looks in a schedule.
abbrev pub looks_in : ℕ → List Turn → Bool
looks_in i [] = false
looks_in i (t ∷ turns) = (t.is_look && t.who == i) || looks_in i turns

-- What a process keeps while others take turns, where the status has version `v`.
abbrev pub Follows : Word → Process → Process → Type 0
Follows v p q =
    (q.group ≡ p.group)
    × (q.socket.version ≡ p.socket.version)
    × (truth p.socket.monitoring ≡ false → truth q.socket.monitoring ≡ false)
    × (p.socket.version ≡ v → truth q.socket.monitoring ≡ truth p.socket.monitoring)

act-status :
    (is_look : Bool) (p : Process) (st : Status)
    → st.version < 0x8000_0000
    → IsOlder st.version p
    → let (p', st') = act is_look p st in
      (st'.version ≡ st.version) × (st'.pgid ≡ st.pgid) × IsOlder st.version p'
unfolding act observe count_answer
act-status true p st b h = ground arith
act-status false p st b h = ground arith

pub act-Follows :
    (is_look : Bool) (p : Process) (st : Status)
    → st.version < 0x8000_0000
    → IsOlder st.version p
    → Follows st.version p (act is_look p st).0
unfolding act observe count_answer
act-Follows true p st b h = (refl, ground arith, ground arith, ground arith)
act-Follows false p st b h = (refl, ground arith, ground arith, ground arith)

-- A look of an older process makes it quit.
pub act-quits :
    (is_look : Bool) (p : Process) (st : Status)
    → st.version < 0x8000_0000
    → IsOlder st.version p
    → is_look ≡ true
    → p.socket.version < st.version
    → truth (act is_look p st).0.socket.monitoring ≡ false
unfolding act observe
act-quits true p st b h looks older = ground arith
act-quits false p st b h looks older = cc

pub act_at-status :
    (is_look : Bool) (i : ℕ) (l : List Process) (st : Status)
    → st.version < 0x8000_0000
    → All (IsOlder st.version) l
    → let (l', st') = act_at is_look i l st in
      (st'.version ≡ st.version) × (st'.pgid ≡ st.pgid) × All (IsOlder st.version) l'
unfolding act_at
act_at-status is_look i [] st b h = (refl, refl, tt)
act_at-status is_look zero (p ∷ l) st b h =
    let (version, group, older) = act-status is_look p st b h.0 in (version, group, (older, h.1))
act_at-status is_look (suc i) (p ∷ l) st b h =
    let (version, group, older) = act_at-status is_look i l st b h.1 in
    (version, group, (h.0, older))
