-- ===== src/Workers/Load.antt =====
-- What the calls of src/core.c around the count of workers do to it.
use open_dsu.Prelude.{
  Bool, ◌+◌, ◌≡◌, refl, true, false, List, [], ◌∷◌, arith, ◌∙◌, ◌==◌, if◌then◌else◌,
}
use open_dsu.Prelude.Words.{Word, Ptr, truth, decr, incr, minus_one}
use open_dsu.Os.{Os, IsMemory, IsQuiet}
use open_dsu.State.{Socket, Program}
use open_dsu.Core.{
  forall_sockets, configure_socket, configure_process, activate_process, start_worker,
  leave_workers, terminate, sigkill, Run, returns, exits,
}
use open_dsu.Start.{init, state_path, lock_name, o_trunc}
use open_dsu.Bind.{o_creat, o_excl, o_rdwr}
use open_dsu.Workers.{IsApart}

module _ (os : Os) (m : IsMemory os) (q : IsQuiet os) (a : IsApart os) where
  configure-load :
      (shared : Ptr) (l : List Socket) (w : os.World)
      → os.load shared 0 (forall_sockets (configure_socket os) l w).1 ≡ os.load shared 0 w
  unfolding forall_sockets configure_socket
  configure-load shared [] w = refl
  configure-load shared (s ∷ l) w = configure-load shared l _ ∙ a.load-fcntl shared 0 _ _ _ w

  activate_process-load :
      (p : Program) (w : os.World)
      → os.load p.workers 0 (activate_process os p w).1 ≡ incr (os.load p.workers 0 w)
  unfolding activate_process
  activate_process-load p w =
      let w1 = (os.sem_wait p.lock w).1 in
      let n : Word = os.load p.workers 0 w1 in
      ground (
        arith,
        q.wait_succeeds p.lock w,
        q.load-wait p.lock p.workers 0 w,
        m.load-store p.workers 0 (incr n) w1,
        q.load-post p.lock p.workers 0 (os.store p.workers 0 (incr n) w1),
      )

  -- A process that was not live is counted, and is live then; a live one is left as it is.
  pub start_worker-load :
      (p : Program) (w : os.World)
      → let (p', w') = start_worker os p w in
        (truth p'.live ≡ true)
        × (os.load p.workers 0 w'
            ≡ (if truth p.live then os.load p.workers 0 w else incr (os.load p.workers 0 w)))
  unfolding start_worker configure_process
  start_worker-load p w = ground (
    arith,
    activate_process-load p w,
    configure-load p.workers p.binds (activate_process os p w).1,
  )

  pub leave_workers-load :
      (p : Program) (w : os.World)
      → let (n, w') = leave_workers os p w in
        (n ≡ decr (os.load p.workers 0 w)) × (os.load p.workers 0 w' ≡ n)
  unfolding leave_workers
  leave_workers-load p w =
      let w1 = (os.sem_wait p.lock w).1 in
      let n : Word = os.load p.workers 0 w1 in
      ground (
        arith,
        q.wait_succeeds p.lock w,
        q.load-wait p.lock p.workers 0 w,
        m.load-store p.workers 0 (decr n) w1,
        q.load-post p.lock p.workers 0 (os.store p.workers 0 (decr n) w1),
      )

  pub terminate-load :
      (p : Program) (w : os.World)
      → os.load p.workers 0 (terminate os p w).1 ≡ decr (os.load p.workers 0 w)
  unfolding terminate
  terminate-load p w =
      let w1 = (leave_workers os p w).1 in
      ground
        (arith, leave_workers-load p w, a.load-killpg p.workers 0 (os.process_group w1) sigkill w1)

  -- A run of `dsu_init` that returns leaves a process that is not live, and a count of 0.
  abbrev pub IsFresh : Run os.World Program → Type 0
  IsFresh (returns p w) = (os.load p.workers 0 w ≡ 0) × (truth p.live ≡ false)
  IsFresh (exits code w) = Unit {0}

  IsFresh-unless :
      (a b c : Bool) (w1 w2 w3 w : os.World) (p : Program)
      → IsFresh (returns p w)
      → IsFresh (
          if a then exits 1 w1 else if b then exits 1 w2 else if c then exits 1 w3 else returns p w)
  IsFresh-unless true b c w1 w2 w3 w p h = tt
  IsFresh-unless false true c w1 w2 w3 w p h = tt
  IsFresh-unless false false true w1 w2 w3 w p h = tt
  IsFresh-unless false false false w1 w2 w3 w p h = h

  pub init-IsFresh : (w : os.World) → IsFresh (init os w)
  unfolding init
  init-IsFresh w =
      let group : Word = os.process_group w in
      let (_, w1) = os.shm_unlink (state_path group) w in
      let (shfd, w2) = os.shm_open (state_path group) (o_creat + o_rdwr + o_trunc) w1 in
      let (sized, w3) = os.ftruncate shfd 4 w2 in
      let (workers, w4) = os.mmap 4 shfd w3 in
      let w5 = os.store workers 0 0 w4 in
      let name = lock_name (os.process_group w5) in
      let (_, w6) = os.sem_unlink name w5 in
      let (lock, w7) = os.sem_open name (o_creat + o_excl) w6 in
      let (_, w8) = os.sem_init lock 1 w7 in
      IsFresh-unless (shfd == minus_one) (sized == minus_one) (workers == 0xffff_ffff_ffff_ffff) w2
        w3 w4 w8 (record { sockets = []; binds = []; live = 0; workers = workers; lock = lock })
        (
          a.load-sem_init workers 0 lock 1 w7
              ∙ a.load-sem_open workers 0 name (o_creat + o_excl) w6
              ∙ a.load-sem_unlink workers 0 name w5
              ∙ m.load-store workers 0 0 w4,
          refl,
        )
