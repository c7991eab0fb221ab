-- ===== src/Core.antt =====
-- The update protocol of src/core.c: a process's part in it for each bound socket, when a version
-- may end, and what every event handler does first. `os` stands for all that the library calls.
pub mod Pass
pub mod Locks
pub mod Monitor
pub mod Terminate
pub mod Event
use Prim.Native.Nat.{bit_and}
use open_dsu.Prelude.{ℕ, Bool, true, false, ◌&&◌, ◌||◌, not, List, [], ◌∷◌, ◌==◌, if◌then◌else◌}
use open_dsu.Prelude.Words.{Word, null, lt_int, incr, decr, truth}
use open_dsu.Prelude.Monad.{Cmd, pure, ◌>>=◌, ◌>>◌, get, put}
use open_dsu.Os.{Os}
use open_dsu.State.{Socket, Program}

-- The indices into `status`.
abbrev pub dsu_pgid : ℕ
dsu_pgid = 0

abbrev pub dsu_version : ℕ
dsu_version = 1

abbrev pub dsu_transfer : ℕ
dsu_transfer = 2

abbrev pub f_getfl : Word
f_getfl = 3

abbrev pub o_nonblock : Word
o_nonblock = 0o4000

abbrev pub sigkill : Word
sigkill = 9

-- `dsu_forall_sockets`: each node in turn, which the call may change in place.
unfoldable pub forall_sockets :
    {W : Type 0} → (Socket → Cmd W Socket) → List Socket → Cmd W (List Socket)
forall_sockets y [] = pure []
forall_sockets y (s ∷ rest) = do s' ← y s; rest' ← forall_sockets y rest; pure (s' ∷ rest')

-- How a handler ends: it returns, or the process exits.
pub data Run (W A : Type 0) : Type 0 where
  returns : A → W → Run W A
  exits : Word → W → Run W A

abbrev pub is_empty : List Word → Bool
is_empty [] = true
is_empty (_ ∷ _) = false

-- The condition under which a socket keeps its process alive.
abbrev pub keeps_alive : Socket → Word → Bool
keeps_alive current version =
    not (lt_int current.version version)
    || truth current.monitoring
    || not (is_empty current.comfds)
    || not (is_empty current.fds)

module _ (os : Os) where
  open os use {World}

  -- The version was raised by another process: give up the communication socket.
  unfoldable pub quit_monitoring : Socket → Cmd World Socket
  quit_monitoring s = do
    v ← get (os.load s.status dsu_version)
    if lt_int s.version v && truth s.monitoring && not (truth s.locked)
        then (do
          os.close s.comfd
          t ← get (os.load s.status dsu_transfer)
          put (os.store s.status dsu_transfer (decr t))
          pure (record s { monitoring = 0; transfer = 0 }))
        else pure s

  -- This process is ahead: publish its group and raise the version.
  unfoldable pub increase_version : Socket → Cmd World (Unit {0})
  increase_version s = do
    v ← get (os.load s.status dsu_version)
    if lt_int v s.version && truth s.monitoring
        then (do
          g ← get os.process_group
          put (os.store s.status dsu_pgid g)
          v' ← get (os.load s.status dsu_version)
          put (os.store s.status dsu_version (incr v')))
        else pure tt

  -- What is done under the lock.
  unfoldable pub monitor_locked : Socket → Cmd World Socket
  unfolding quit_monitoring increase_version
  monitor_locked s = do s' ← quit_monitoring s; increase_version s'; pure s'

  unfoldable pub monitor_fd : Socket → Cmd World Socket
  monitor_fd s = do
    r ← os.sem_wait s.status_sem
    if r == 0 then (do s' ← monitor_locked s; os.sem_post s.status_sem; pure s') else pure s

  unfoldable pub is_blocking : Word → Cmd World Word
  is_blocking fd = do
    flags ← os.fcntl fd f_getfl null
    pure (if bit_and flags o_nonblock == 0 then 1 else 0)

  unfoldable pub configure_socket : Socket → Cmd World Socket
  unfolding is_blocking
  configure_socket s = do b ← is_blocking s.shadowfd; pure (record s { blocking = b })

  -- The version to compare with: the socket's own if the lock cannot be taken.
  unfoldable pub observed_version : Socket → Cmd World Word
  observed_version current = do
    r ← os.sem_wait current.status_sem
    if r == 0
        then (do
          v ← get (os.load current.status dsu_version)
          os.sem_post current.status_sem
          pure v)
        else pure current.version

  unfoldable pub termination_detection : List Socket → Cmd World Word
  termination_detection [] = pure 1
  termination_detection (current ∷ rest) = do
    v ← observed_version current
    if keeps_alive current v then pure 0 else termination_detection rest

  -- The number of workers left, 1 if the lock cannot be taken.
  unfoldable pub leave_workers : Program → Cmd World Word
  leave_workers p = do
    r ← os.sem_wait p.lock
    if r == 0
        then (do
          n ← get (os.load p.workers 0)
          put (os.store p.workers 0 (decr n))
          os.sem_post p.lock
          pure (decr n))
        else pure 1

  -- The process exits afterwards.
  unfoldable pub terminate : Program → Cmd World (Unit {0})
  unfolding leave_workers
  terminate p = do
    workers ← leave_workers p
    if workers == 0 then (do g ← get os.process_group; os.killpg g sigkill; pure tt) else pure tt

  unfoldable pub activate_process : Program → Cmd World (Unit {0})
  activate_process p = do
    r ← os.sem_wait p.lock
    if r == 0
        then (do
          n ← get (os.load p.workers 0)
          put (os.store p.workers 0 (incr n))
          os.sem_post p.lock
          pure tt)
        else pure tt

  unfoldable pub configure_process : Program → Cmd World Program
  configure_process p = do
    binds ← forall_sockets configure_socket p.binds
    pure (record p { binds = binds })

  -- On the first event the worker is counted and the bound sockets are configured.
  unfoldable pub start_worker : Program → Cmd World Program
  unfolding activate_process configure_process
  start_worker p =
      if truth p.live
      then pure p
      else do activate_process p; p' ← configure_process p; pure (record p' { live = 1 })

  unfoldable pub initialize_event : Program → World → Run World Program
  initialize_event p w =
      let (p1, w1) = start_worker p w in
      let (binds, w2) = forall_sockets monitor_fd p1.binds w1 in
      let (t, w3) = termination_detection binds w2 in
      let p2 : Program = record p1 { binds = binds } in
      if truth t then exits 0 (terminate p2 w3).1 else returns p2 w3
