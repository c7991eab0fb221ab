-- ===== src/Workers.antt =====
-- The processes of one version, which count themselves in shared memory (`dsu_activate_process` and
-- `dsu_terminate` of src/core.c) from `dsu_init` on, in any order.
pub mod Load
pub mod Count
use open_dsu.Prelude.{ℕ, ◌+◌, ◌≡◌, true, false, List, [], ◌∷◌, ◌++◌, ◌==◌, if◌then◌else◌}
use open_dsu.Prelude.Words.{Word, Ptr, truth}
use open_dsu.Os.{Os, Bytes}
use open_dsu.State.{Program}
use open_dsu.Core.{start_worker, leave_workers, terminate, returns}
use open_dsu.Start.{init}

-- The processes of the group, and the world that they share.
pub record Crew (os : Os) : Type 0 where
  pub members : List Program
  pub world : os.World

abbrev pub live_count : List Program → ℕ
live_count [] = 0
live_count (p ∷ rest) = (if truth p.live then 1 else 0) + live_count rest

-- What one process does between others. `shared` is where the workers are counted.
pub data Duty (os : Os) (shared : Ptr) (y z : Crew os) : Type 0 where
  begins :
      (before after : List Program) (p : Program)
      → y.members ≡ before ++ p ∷ after
      → p.workers ≡ shared
      → z.members ≡ before ++ (start_worker os p y.world).0 ∷ after
      → z.world ≡ (start_worker os p y.world).1
      → Duty os shared y z
  -- the group is killed where the count is 0 then
  leaves :
      (before after : List Program) (p : Program)
      → y.members ≡ before ++ p ∷ after
      → p.workers ≡ shared
      → truth p.live ≡ true
      → z.members ≡ (if (leave_workers os p y.world).0 == 0 then [] else before ++ after)
      → z.world ≡ (terminate os p y.world).1
      → Duty os shared y z
  forks :
      (before after : List Program) (p : Program)
      → y.members ≡ before ++ p ∷ after
      → truth p.live ≡ false
      → z.members ≡ y.members ++ p ∷ []
      → z.world ≡ y.world
      → Duty os shared y z
  -- whatever else a process does, or the world
  works :
      (before after : List Program) (p q : Program)
      → y.members ≡ before ++ p ∷ after
      → q.live ≡ p.live
      → z.members ≡ before ++ q ∷ after
      → os.load shared 0 z.world ≡ os.load shared 0 y.world
      → Duty os shared y z

pub data Crews (os : Os) (shared : Ptr) : Crew os → Type 0 where
  started :
      {p : Program} {w : os.World} (w0 : os.World)
      → init os w0 ≡ returns p w
      → p.workers ≡ shared
      → Crews os shared (record { members = p ∷ []; world = w })
  then_duty : {y z : Crew os} → Crews os shared y → Duty os shared y z → Crews os shared z

-- The calls that a process makes around the count do not write shared memory.
pub record IsApart (os : Os) : Type 0 where
  pub load-fcntl :
      (p : Ptr) (i : ℕ) (fd c : Word) (a : Ptr) (w : os.World)
      → os.load p i (os.fcntl fd c a w).1 ≡ os.load p i w
  pub load-killpg :
      (p : Ptr) (i : ℕ) (g s : Word) (w : os.World)
      → os.load p i (os.killpg g s w).1 ≡ os.load p i w
  pub load-sem_unlink :
      (p : Ptr) (i : ℕ) (n : Bytes) (w : os.World)
      → os.load p i (os.sem_unlink n w).1 ≡ os.load p i w
  pub load-sem_open :
      (p : Ptr) (i : ℕ) (n : Bytes) (f : Word) (w : os.World)
      → os.load p i (os.sem_open n f w).1 ≡ os.load p i w
  pub load-sem_init :
      (p : Ptr) (i : ℕ) (q : Ptr) (v : Word) (w : os.World)
      → os.load p i (os.sem_init q v w).1 ≡ os.load p i w
