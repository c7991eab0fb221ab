-- ===== src/Protocol/Handover.antt =====
-- A new version takes over (`dsu_monitor_fd` of src/core.c, in every process).
use open_dsu.Prelude.{◌+◌, ◌≤◌, ◌<◌, ◌≡◌, refl, true, false, List, [], ◌∷◌, arith, All}
use open_dsu.Prelude.Words.{Word, truth}
use open_dsu.Core.Monitor.{Status, observe}
use open_dsu.Protocol.{Process, observe_all}

-- A process of a version up to `v` that holds no lock on the descriptor.
abbrev pub IsOlder : Word → Process → Type 0
IsOlder v p = (p.socket.version ≤ v) × (truth p.socket.locked ≡ false)

abbrev pub HasQuit : Process → Type 0
HasQuit p = truth p.socket.monitoring ≡ false

observe_old :
    (v : Word) (p : Process) (st : Status)
    → st.version ≡ v + 1
    → v + 1 < 0x8000_0000
    → IsOlder v p
    → let (s, st') = observe p.group p.socket st in
      (truth s.monitoring ≡ false) × (st'.version ≡ st.version) × (st'.pgid ≡ st.pgid)
unfolding observe
observe_old v p st e h a = ground arith

pub observe_new :
    (new : Process) (st : Status)
    → new.socket.version ≡ st.version + 1
    → st.version + 1 < 0x8000_0000
    → truth new.socket.monitoring ≡ true
    → observe new.group new.socket st
      ≡ (new.socket, record st { pgid = new.group; version = st.version + 1 })
unfolding observe
observe_new new st e h m = ground arith

olds_quit :
    (v : Word) (olds : List Process) (st : Status)
    → st.version ≡ v + 1
    → v + 1 < 0x8000_0000
    → All (IsOlder v) olds
    → let (olds', st') = observe_all olds st in
      All HasQuit olds' × (st'.version ≡ st.version) × (st'.pgid ≡ st.pgid)
unfolding observe_all
olds_quit v [] st e h a = (tt, refl, refl)
olds_quit v (p ∷ olds) st e h a =
    let (s, st') = observe p.group p.socket st in
    ground (
      arith,
      observe_old v p st e h a.0,
      olds_quit v olds st' (ground (arith, observe_old v p st e h a.0)) h a.1,
    )

-- A monitoring process is one version ahead of the status, and the other processes are not ahead
-- of it and hold no lock on the descriptor. When it and then each of them has looked at the status,
-- the status names the new version and its group, the new process is unchanged, and none of the
-- others monitors.
pub handover :
    (new : Process) (olds : List Process) (st : Status)
    → new.socket.version ≡ st.version + 1
    → st.version + 1 < 0x8000_0000
    → truth new.socket.monitoring ≡ true
    → All (IsOlder st.version) olds
    → let (new', st') = observe new.group new.socket st in
      let (olds', st'') = observe_all olds st' in
      (new' ≡ new.socket)
      × (st''.version ≡ new.socket.version)
      × (st''.pgid ≡ new.group)
      × All HasQuit olds'
handover new olds st e h m a =
    let st' : Status = record st { pgid = new.group; version = st.version + 1 } in
    ground (arith, observe_new new st e h m, olds_quit st.version olds st' refl h a)
