-- ===== src/Core/Event.antt =====
-- `dsu_initialize_event` (src/core.c), which every call of an event handler makes first.
use open_dsu.Prelude.{◌⊎◌, inl, inr, ◌≡◌, refl, true, [], arith}
use open_dsu.Prelude.Words.{Word, truth}
use open_dsu.Os.{Os}
use open_dsu.State.{Socket, Program}
use open_dsu.State.Remove.{values, fds_of, shadowfds_of}
use open_dsu.Core.{
  forall_sockets, monitor_fd, configure_socket, is_blocking, start_worker, termination_detection,
  terminate, activate_process, initialize_event, Run, returns, exits, monitor_locked,
}
use open_dsu.Core.Pass.{values-forall_sockets}

module _ (os : Os) where
  monitor_fd-fd : (s : Socket) (w : os.World) → (monitor_fd os s w).0.fd ≡ s.fd
  unfolding monitor_fd monitor_locked
  monitor_fd-fd s w = ground arith

  monitor_fd-shadowfd : (s : Socket) (w : os.World) → (monitor_fd os s w).0.shadowfd ≡ s.shadowfd
  unfolding monitor_fd monitor_locked
  monitor_fd-shadowfd s w = ground arith

  -- A worker is counted and configured once: starting it again does nothing.
  start_worker_once :
      (p : Program) (w w' : os.World)
      → start_worker os (start_worker os p w).0 w' ≡ ((start_worker os p w).0, w')
  unfolding start_worker
  start_worker_once p w w' = ground arith

  start_worker-values :
      (key : Socket → Word)
      → ((s : Socket) (b : Word) → key (record s { blocking = b }) ≡ key s)
      → (p : Program) (w : os.World) → values key (start_worker os p w).0.binds ≡ values key p.binds
  unfolding start_worker configure_socket
  start_worker-values key keep p w =
      let pass =
        values-forall_sockets key (configure_socket os)
          λ s w'. keep s (is_blocking os s.shadowfd w').0 in
      ground (arith, pass p.binds (activate_process os p w).1)

  start_worker_unbound :
      (p : Program) (w : os.World) → p.binds ≡ [] → (start_worker os p w).0.binds ≡ []
  unfolding start_worker forall_sockets
  start_worker_unbound p w h = ground arith

  -- A process that has bound no socket ends at its first event, whatever the world answers.
  initialize_event_unbound :
      (p : Program) (w : os.World)
      → p.binds ≡ []
      → (w' : os.World) × (initialize_event os p w ≡ exits 0 w')
  unfolding initialize_event forall_sockets termination_detection
  initialize_event_unbound p w h =
      let (p1, w1) = start_worker os p w in
      ((terminate os (record p1 { binds = [] }) w1).1, rw (start_worker_unbound p w h))

-- How a call ends.
pub Run-cases :
    {W A : Type 0} (out : Run W A)
    → ((code : Word) × (w : W) × (out ≡ exits code w)) ⊎ ((a : A) × (w : W) × (out ≡ returns a w))
Run-cases (exits code w) = inl (code, w, refl)
Run-cases (returns a w) = inr (a, w, refl)

-- A call that returns has counted the worker, and kept the sockets and the descriptors of the bound
-- ones; a call that does not ends the process with success.
abbrev pub Follows : {W : Type 0} → Program → Run W Program → Type 0
Follows p (returns p' w) =
    (truth p'.live ≡ true)
    × (p'.sockets ≡ p.sockets)
    × (fds_of p'.binds ≡ fds_of p.binds)
    × (shadowfds_of p'.binds ≡ shadowfds_of p.binds)
Follows p (exits code w) = code ≡ 0

module _ (os : Os) where
  start_worker-live :
      (p : Program) (w : os.World)
      → (truth (start_worker os p w).0.live ≡ true) × ((start_worker os p w).0.sockets ≡ p.sockets)
  unfolding start_worker
  start_worker-live p w = ground arith

  -- Every run of the common part of the event handlers, under any answers of the world, returns
  -- with the worker marked as live and the descriptors kept, or ends the process.
  pub initialize_event-Follows : (p : Program) (w : os.World) → Follows p (initialize_event os p w)
  unfolding initialize_event
  initialize_event-Follows p w =
      let (p1, w1) = start_worker os p w in
      ground (
        arith,
        start_worker-live p w,
        start_worker-values os (λ s. s.fd) (λ s b. refl) p w,
        start_worker-values os (λ s. s.shadowfd) (λ s b. refl) p w,
        values-forall_sockets (λ s. s.fd) (monitor_fd os) (monitor_fd-fd os) p1.binds w1,
        values-forall_sockets (λ s. s.shadowfd) (monitor_fd os) (monitor_fd-shadowfd os) p1.binds
            w1,
      )
