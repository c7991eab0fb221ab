-- ===== src/Bind/Semaphores.antt =====
-- The two semaphores of an inherited socket, as `bind` (src/core.c) opens them, and what follows
-- for the handlers that lock one inside the other (src/event_handlers/select.c).
use open_dsu.Prelude.{◌≡◌, ◌≢◌, Bool, true, false, arith}
use open_dsu.Prelude.Words.{Ptr, lt_int, truth}
use open_dsu.Os.{Os, FdSet, Bytes}
use open_dsu.State.{Socket}
use open_dsu.Core.{dsu_transfer}
use open_dsu.Select.{Globals, pre_select}
use open_dsu.Bind.{bind_inherited, status_sem_name, o_creat}

-- Opening a name again in the same process gives the same semaphore, and the semaphores are
-- binary: one that is held cannot be taken.
pub record HasNamedSemaphores (os : Os) : Type 0 where
  pub reopen :
      (name : Bytes) (w : os.World)
      → (os.sem_open name o_creat (os.sem_open name o_creat w).1).0 ≡ (os.sem_open name o_creat w).0
  pub held :
      (p : Ptr) (w : os.World)
      → (os.sem_wait p w).0 ≡ 0
      → (os.sem_trywait p (os.sem_wait p w).1).0 ≢ 0

module _ (os : Os) where
  abbrev pub inherited : Socket → os.World → Socket
  inherited s w = (bind_inherited os s w).0

  -- What the handler reads under the lock.
  abbrev pub transfers : Socket → os.World → Bool
  transfers s w = lt_int 0 (os.load s.status dsu_transfer (os.sem_wait s.status_sem w).1)

module _ (os : Os) (h : HasNamedSemaphores os) where
  -- Both names of an inherited socket's semaphores are formatted alike, so the lock on its status
  -- is the lock on its descriptor.
  bind_inherited-same_semaphore :
      (s : Socket) (w : os.World)
      → (bind_inherited os s w).0.status_sem ≡ (bind_inherited os s w).0.fd_sem
  unfolding bind_inherited
  bind_inherited-same_semaphore s w = ground (arith, h.reopen (status_sem_name s.port) w)

  -- A blocking socket whose two locks are one is not watched during a transfer: `select` holds the
  -- lock on the status while it tries the lock on the descriptor.
  pre_select_starves :
      (s : Socket) (set : FdSet) (g : Globals) (w : os.World)
      → s.status_sem ≡ s.fd_sem
      → truth s.blocking ≡ true
      → set s.shadowfd ≡ false
      → lt_int 0 (os.load s.status dsu_transfer (os.sem_wait s.status_sem w).1) ≡ true
      → (pre_select os s set g w).0.1 s.shadowfd ≡ false
  unfolding pre_select
  pre_select_starves s set g w same b outside t = ground (arith, h.held s.status_sem w)

  -- The bug, where a name gives the same semaphore again and one that is held cannot be taken: a
  -- version that inherits a blocking socket does not watch it in `select` during a transfer, that
  -- is, while `status[DSU_TRANSFER]` is above 0, even if no other process does.
  pub inherited_starves :
      (s : Socket) (w w' : os.World) (set : FdSet) (g : Globals)
      → truth (inherited os s w).blocking ≡ true
      → set (inherited os s w).shadowfd ≡ false
      → transfers os (inherited os s w) w' ≡ true
      → (pre_select os (inherited os s w) set g w').0.1 (inherited os s w).shadowfd ≡ false
  inherited_starves s w w' set g b outside t =
      pre_select_starves (bind_inherited os s w).0 set g w' (bind_inherited-same_semaphore s w) b
        outside t
