-- ===== src/Protocol/Interleave.antt =====
-- The processes of all versions that share a port, in any interleaving of their steps: looks at the
-- status (`dsu_monitor_fd`, src/core.c), answers to requests and locks (src/event_handlers), new
-- versions that inherit the port, forks, and ends of processes that have stopped.
use open_dsu.Prelude.{
  ◌≡◌, ◌⊎◌, inl, inr, refl, Bool, true, false, ◌&&◌, ◌||◌, not, List, [], ◌∷◌, ◌++◌, arith, ◌==◌,
  if◌then◌else◌, subst,
}
use open_dsu.Prelude.Words.{Word, incr, lt_int, truth}
use open_dsu.Core.Monitor.{Status, observe}
use open_dsu.Messages.Answer.{count_answer}
use open_dsu.Protocol.{Process}

pub record System : Type 0 where
  pub processes : List Process
  pub status : Status

-- The version that `bind` takes for a socket that it inherits.
abbrev pub inherited_version : Word → Status → Word
inherited_version group st = if st.pgid == group then st.version else incr st.version

-- One process takes a step, between others.
pub data Move (y z : System) : Type 0 where
  looks :
      (before after : List Process) (p : Process)
      → y.processes ≡ before ++ p ∷ after
      → z.processes ≡ before ++ record p { socket = (observe p.group p.socket y.status).0 } ∷ after
      → z.status ≡ (observe p.group p.socket y.status).1
      → Move y z
  answers :
      (before after : List Process) (p : Process)
      → y.processes ≡ before ++ p ∷ after
      → z.processes ≡ before ++ record p { socket = (count_answer p.socket y.status).0 } ∷ after
      → z.status ≡ (count_answer p.socket y.status).1
      → Move y z
  locks :
      (before after : List Process) (p : Process) (locked : Word)
      → y.processes ≡ before ++ p ∷ after
      → z.processes ≡ before ++ record p { socket = record p.socket { locked = locked } } ∷ after
      → z.status ≡ y.status
      → Move y z
  inherits :
      (p : Process)
      → truth p.socket.monitoring ≡ true
      → p.socket.version ≡ inherited_version p.group y.status
      → z.processes ≡ y.processes ++ p ∷ []
      → z.status ≡ y.status
      → Move y z
  forks :
      (before after : List Process) (p : Process)
      → y.processes ≡ before ++ p ∷ after
      → z.processes ≡ y.processes ++ p ∷ []
      → z.status ≡ y.status
      → Move y z
  ends :
      (before after : List Process) (p : Process)
      → y.processes ≡ before ++ p ∷ after
      → truth p.socket.monitoring ≡ false
      → z.processes ≡ before ++ after
      → z.status ≡ y.status
      → Move y z

pub data Reaches (y : System) : System → Type 0 where
  here : Reaches y y
  later : {z u : System} → Reaches y z → Move z u → Reaches y u

-- A process watches the port for a version that is not older than the status.
abbrev pub serves : Status → Process → Bool
serves st p = truth p.socket.monitoring && not (lt_int p.socket.version st.version)

abbrev pub is_served : Status → List Process → Bool
is_served st [] = false
is_served st (p ∷ rest) = serves st p || is_served st rest

is_served-append :
    (st : Status) (l m : List Process) → is_served st (l ++ m) ≡ (is_served st l || is_served st m)
is_served-append st [] m = refl
is_served-append st (p ∷ l) m = ground (arith, is_served-append st l m)

-- A step that raises the version is taken by a process that serves the new one. Otherwise the
-- version stays, and a process that quits did not serve it.
observe-serves :
    (p : Process) (st : Status)
    → let (s, st') = observe p.group p.socket st in
      (serves st' (record p { socket = s }) ≡ true)
      ⊎ ((serves st' (record p { socket = s }) ≡ serves st p) × (st'.version ≡ st.version))
unfolding observe
observe-serves p st = ground arith

count_answer-serves :
    (p : Process) (st : Status)
    → let (s, st') = count_answer p.socket st in
      (serves st' (record p { socket = s }) ≡ serves st p) × (st'.version ≡ st.version)
unfolding count_answer
count_answer-serves p st = ground arith

-- Only the version of the status matters.
is_served_same :
    (st st' : Status) (l : List Process)
    → st'.version ≡ st.version
    → is_served st' l ≡ is_served st l
is_served_same st st' [] e = refl
is_served_same st st' (p ∷ l) e = rw (e, is_served_same st st' l e) refl

-- One process changes, and with it perhaps the status: the port is still served if the process
-- serves the new status, or if it serves as before and the version is unchanged.
replace-is_served :
    (before after : List Process) (p q : Process) (st st' : Status)
    → (serves st' q ≡ true) ⊎ ((serves st' q ≡ serves st p) × (st'.version ≡ st.version))
    → is_served st (before ++ p ∷ after) ≡ true
    → is_served st' (before ++ q ∷ after) ≡ true
replace-is_served before after p q st st' (inl new) h =
    rw (is_served-append st' before (q ∷ after)) (ground (arith, new))
replace-is_served before after p q st st' (inr (same, kept)) h =
    rw (is_served-append st' before (q ∷ after)) (
      ground (
        arith,
        same,
        is_served_same st st' before kept,
        is_served_same st st' after kept,
        is_served-append st before (p ∷ after),
        h,
      ))

Move-is_served :
    {y z : System}
    → Move y z
    → is_served y.status y.processes ≡ true
    → is_served z.status z.processes ≡ true
Move-is_served {y} {z} (looks before after p e e' f) h =
    rw (e', f)
      (replace-is_served before after p _ y.status (observe p.group p.socket y.status).1
        (observe-serves p y.status) (subst (λ l. is_served y.status l ≡ true) e h))
Move-is_served {y} {z} (answers before after p e e' f) h =
    rw (e', f)
      (replace-is_served before after p _ y.status (count_answer p.socket y.status).1
        (inr (count_answer-serves p y.status)) (subst (λ l. is_served y.status l ≡ true) e h))
Move-is_served {y} {z} (locks before after p locked e e' f) h =
    rw (e', f)
      (replace-is_served before after p _ y.status y.status (inr (refl, refl))
        (subst (λ l. is_served y.status l ≡ true) e h))
Move-is_served {y} {z} (inherits p m v e f) h =
    rw (e, f) (ground (arith, is_served-append y.status y.processes (p ∷ []), h))
Move-is_served {y} {z} (forks before after p e e' f) h =
    rw (e', f) (ground (arith, is_served-append y.status y.processes (p ∷ []), h))
Move-is_served {y} {z} (ends before after p e m e' f) h =
    rw (e', f)
      (ground (
        arith,
        is_served-append y.status before after,
        is_served-append y.status before (p ∷ after),
        subst (λ l. is_served y.status l ≡ true) e h,
      ))

-- From a state in which the port is served, whatever order the processes take their steps in, the
-- port is served: some process monitors it for a version that is not older than the status. A
-- process ends only when it has stopped monitoring.
pub reachable-is_served :
    {y z : System}
    → Reaches y z
    → is_served y.status y.processes ≡ true
    → is_served z.status z.processes ≡ true
reachable-is_served here h = h
reachable-is_served (later r m) h = Move-is_served m (reachable-is_served r h)
