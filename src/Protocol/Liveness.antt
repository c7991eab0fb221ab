-- ===== src/Protocol/Liveness.antt =====
-- A new version takes over whatever the order in which the processes look and answer (src/core.c,
-- src/event_handlers).
use open_dsu.Prelude.{
  ℕ, zero, suc, ◌+◌, ◌≤◌, ◌<◌, ◌≡◌, refl, Bool, true, false, ◌&&◌, some, List, [], ◌∷◌, arith, ◌==◌,
  All, ◌∙◌, inl, inr, Bool-cases, sym, subst,
}
use open_dsu.Prelude.Words.{truth}
use open_dsu.Prelude.Arrays.{get_elem?}
use open_dsu.Core.Monitor.{Status}
use open_dsu.Protocol.{Process}
use open_dsu.Protocol.Handover.{IsOlder, observe_new}
use open_dsu.Protocol.Schedule.{
  Turn, act, act_at, run, looks_in, Follows, act-Follows, act-quits, act_at-status,
}

-- The process at position `j` after a turn.
act_at-Follows :
    (is_look : Bool) (i j : ℕ) (l : List Process) (st : Status) {p : Process}
    → st.version < 0x8000_0000
    → All (IsOlder st.version) l
    → get_elem? l j ≡ some p
    → (q : Process) × (get_elem? (act_at is_look i l st).0 j ≡ some q)
      × Follows st.version p q
      × ((is_look && i == j) ≡ true
          → p.socket.version < st.version
          → truth q.socket.monitoring ≡ false)
unfolding act_at
act_at-Follows is_look i j [] st b h at_j = absurd (ground arith)
act_at-Follows is_look zero zero (x ∷ l) st {p} b h at_j =
    let same : x ≡ p = cc in
    subst
      (λ (r : Process).
        (q : Process) × (get_elem? ((act is_look x st).0 ∷ l) 0 ≡ some q)
        × Follows st.version r q
        × ((is_look && 0 == 0) ≡ true
            → r.socket.version < st.version
            → truth q.socket.monitoring ≡ false))
      same
      (
        (act is_look x st).0,
        refl,
        act-Follows is_look x st b h.0,
        λ looks older. act-quits is_look x st b h.0 (ground arith) older,
      )
act_at-Follows is_look zero (suc j) (x ∷ l) st {p} b h at_j =
    (p, at_j, (refl, refl, λ m. m, λ e. refl), λ looks older. ground arith)
act_at-Follows is_look (suc i) zero (x ∷ l) st {p} b h at_j =
    (p, at_j, (refl, refl, λ m. m, λ e. refl), λ looks older. ground arith)
act_at-Follows is_look (suc i) (suc j) (x ∷ l) st {p} b h at_j =
    let (q, at_q, f, quits) = act_at-Follows is_look i j l st b h.1 at_j in
    (q, at_q, f, λ looks older. quits (ground arith) older)

run-Follows :
    (turns : List Turn) (l : List Process) (st : Status) (j : ℕ) {p : Process}
    → st.version < 0x8000_0000
    → All (IsOlder st.version) l
    → get_elem? l j ≡ some p
    → (q : Process) × (get_elem? (run turns l st).0 j ≡ some q)
      × Follows st.version p q
      × (looks_in j turns ≡ true
          → p.socket.version < st.version
          → truth q.socket.monitoring ≡ false)
unfolding run
run-Follows [] l st j {p} b h at_j = (p, at_j, (refl, refl, λ m. m, λ e. refl), λ looks older. cc)
run-Follows (t ∷ turns) l st j {p} b h at_j =
    let (l', st') = act_at t.is_look t.who l st in
    let (version, group, older) = act_at-status t.is_look t.who l st b h in
    let (p1, at_p1, f1, quits1) = act_at-Follows t.is_look t.who j l st b h at_j in
    let (q, at_q, f2, quits2) =
      run-Follows turns l' st' j {p = p1} (omega (arith, version))
        (subst (λ v. All (IsOlder v) l') (sym version) older) at_p1 in
    (
      q,
      at_q,
      (f2.0 ∙ f1.0, f2.1 ∙ f1.1, λ m. f2.2 (f1.2 m), λ e. f2.3 (f1.1 ∙ e ∙ sym version) ∙ f1.3 e),
      λ looks old. elim (Bool-cases (t.is_look && t.who == j)) [
        | inl now ↦ f2.2 (quits1 now old)
        | inr not_now ↦ quits2 (ground arith) (omega (arith, f1.1, version, old))
      ],
    )

run-status :
    (turns : List Turn) (l : List Process) (st : Status)
    → st.version < 0x8000_0000
    → All (IsOlder st.version) l
    → let (l', st') = run turns l st in (st'.version ≡ st.version) × (st'.pgid ≡ st.pgid)
unfolding run
run-status [] l st b h = (refl, refl)
run-status (t ∷ turns) l st b h =
    let (l', st') = act_at t.is_look t.who l st in
    let (version, group, older) = act_at-status t.is_look t.who l st b h in
    let (version', group') =
      run-status turns l' st' (omega (arith, version))
        (subst (λ v. All (IsOlder v) l') (sym version) older) in
    (version' ∙ version, group' ∙ group)

-- The look of a process that is one version ahead raises the status and changes no process.
act_at-raises :
    (k : ℕ) (l : List Process) (st : Status) {new : Process}
    → get_elem? l k ≡ some new
    → new.socket.version ≡ st.version + 1
    → st.version + 1 < 0x8000_0000
    → truth new.socket.monitoring ≡ true
    → act_at true k l st ≡ (l, record st { pgid = new.group; version = st.version + 1 })
unfolding act_at act
act_at-raises k [] st at_k e b m = absurd (ground arith)
act_at-raises zero (x ∷ l) st {new} at_k e b m =
    let same : x ≡ new = cc in ground (arith, same, observe_new new st e b m)
act_at-raises (suc k) (x ∷ l) st at_k e b m = ground (arith, act_at-raises k l st at_k e b m)

-- Process `k` monitors for the version after the status's, no process has a later version, and none
-- holds a lock on the descriptor. When `k` has looked at the status, and then the processes look and
-- answer in any order, the status names its version and group, `k` monitors, and an older process
-- that has looked after it does not.
pub handover_any_order :
    (turns : List Turn) (l : List Process) (st : Status) (k i : ℕ) (new p : Process)
    → get_elem? l k ≡ some new
    → new.socket.version ≡ st.version + 1
    → st.version + 1 < 0x8000_0000
    → truth new.socket.monitoring ≡ true
    → All (IsOlder (st.version + 1)) l
    → get_elem? l i ≡ some p
    → p.socket.version ≤ st.version
    → looks_in i turns ≡ true
    → let (l', st') = run (record { is_look = true; who = k } ∷ turns) l st in
      (st'.version ≡ new.socket.version)
      × (st'.pgid ≡ new.group)
      × ((q : Process) × (get_elem? l' k ≡ some q)
          × (q.socket.version ≡ new.socket.version)
          × (truth q.socket.monitoring ≡ true))
      × ((q : Process) × (get_elem? l' i ≡ some q) × (truth q.socket.monitoring ≡ false))
unfolding run
handover_any_order turns l st k i new p at_k e b m older at_i old looks =
    let st1 : Status = record st { pgid = new.group; version = st.version + 1 } in
    let (version, group) = run-status turns l st1 b older in
    let (q, at_q, f, _) = run-Follows turns l st1 k {p = new} b older at_k in
    let (r, at_r, _, quits) = run-Follows turns l st1 i {p = p} b older at_i in
    rw (act_at-raises k l st at_k e b m, run)
      (
        version ∙ sym e,
        group,
        (q, at_q, f.1, f.3 e ∙ m),
        (r, at_r, quits looks (omega (arith, old))),
      )
