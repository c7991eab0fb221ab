-- ===== src/Protocol/Runs.antt =====
-- The code of the processes that share a port (`dsu_monitor_fd` and `bind` of src/core.c, and the
-- handlers' count of src/event_handlers), run in one world in any order. What a process does between
-- taking the lock on the status and giving it back is one action.
use open_dsu.Prelude.{ℕ, ◌≡◌, ◌++◌, ◌∷◌, List, [], true, false, All}
use open_dsu.Prelude.Words.{Word, Ptr, truth}
use open_dsu.Os.{Os}
use open_dsu.State.{Socket}
use open_dsu.Core.{monitor_locked, dsu_pgid, dsu_version, dsu_transfer}
use open_dsu.Core.Monitor.{Status}
use open_dsu.Messages.{count_transfer}
use open_dsu.Bind.{inherit_version}
use open_dsu.Protocol.{Process}
use open_dsu.Protocol.Interleave.{System}

-- The processes, and the world that they share.
pub record Host (os : Os) : Type 0 where
  pub processes : List Process
  pub world : os.World

-- The processes have the status of the port at `shared`.
abbrev pub AreOn : Ptr → List Process → Type 0
AreOn shared l = All (λ p. p.socket.status ≡ shared) l

module _ (os : Os) where
  abbrev pub status_at : Ptr → os.World → Status
  status_at p w = record {
    pgid = os.load p dsu_pgid w;
    version = os.load p dsu_version w;
    transfer = os.load p dsu_transfer w;
  }

module _ (os : Os) (shared : Ptr) where
  pub data Act (y z : Host os) : Type 0 where
    monitors :
        (before after : List Process) (p : Process)
        → y.processes ≡ before ++ p ∷ after
        → os.process_group y.world ≡ p.group
        → z.processes
          ≡ before ++ record p { socket = (monitor_locked os p.socket y.world).0 } ∷ after
        → z.world ≡ (monitor_locked os p.socket y.world).1
        → Act y z
    counts :
        (before after : List Process) (p : Process)
        → y.processes ≡ before ++ p ∷ after
        → z.processes
          ≡ before ++ record p { socket = (count_transfer os p.socket y.world).0 } ∷ after
        → z.world ≡ (count_transfer os p.socket y.world).1
        → Act y z
    tries :
        (before after : List Process) (p : Process) (locked : Word)
        → y.processes ≡ before ++ p ∷ after
        → z.processes ≡ before ++ record p { socket = record p.socket { locked = locked } } ∷ after
        → z.world ≡ y.world
        → Act y z
    joins :
        (p : Process) (s : Socket)
        → truth s.monitoring ≡ true
        → s.status ≡ shared
        → p.socket ≡ (inherit_version os s y.world).0
        → p.group ≡ os.process_group (os.sem_wait s.status_sem y.world).1
        → z.processes ≡ y.processes ++ p ∷ []
        → z.world ≡ (inherit_version os s y.world).1
        → Act y z
    copies :
        (before after : List Process) (p : Process)
        → y.processes ≡ before ++ p ∷ after
        → z.processes ≡ y.processes ++ p ∷ []
        → z.world ≡ y.world
        → Act y z
    stops :
        (before after : List Process) (p : Process)
        → y.processes ≡ before ++ p ∷ after
        → truth p.socket.monitoring ≡ false
        → z.processes ≡ before ++ after
        → z.world ≡ y.world
        → Act y z
    -- whatever else happens, and does not write the status
    passes :
        z.processes ≡ y.processes
        → ((i : ℕ) → os.load shared i z.world ≡ os.load shared i y.world)
        → Act y z

  pub data Acts (y : Host os) : Host os → Type 0 where
    none_yet : Acts y y
    then_acts : {z u : Host os} → Acts y z → Act z u → Acts y u

  -- What the specification sees.
  abbrev pub seen : Host os → System
  seen h = record { processes = h.processes; status = status_at os shared h.world }
