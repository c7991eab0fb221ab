-- ===== src/Descriptors/Events.antt =====
-- The calls of the event handlers, as a whole, keep to the open descriptors.
use open_dsu.Prelude.{◌≤◌, ◌≡◌, refl, List, [], ◌∷◌, arith, Bool-cases, inl, inr}
use open_dsu.Prelude.Words.{Word, truth}
use open_dsu.Os.{Os}
use open_dsu.State.{Socket, Program}
use open_dsu.Core.{
  Run, returns, exits, forall_sockets, monitor_fd, configure_socket, activate_process,
  configure_process, start_worker, observed_version, termination_detection, initialize_event,
}
use open_dsu.Descriptors.{HasDescriptors, IsExclusive}
use open_dsu.Descriptors.Protocol.{
  monitor_fd-Conserves, configure_socket-Conserves, observed_version-Keeps,
}
use open_dsu.Descriptors.Pass.{ConservesAll, ConservesAll-trans, forall_sockets-Conserves}

module _ (os : Os) (d : HasDescriptors os) where
  open d use {opened}

  -- The unbound sockets stay, and the bound ones keep to what is open.
  abbrev pub ConservesProgram : Program → os.World → Program → os.World → Type 0
  ConservesProgram p w p' w' = (p'.sockets ≡ p.sockets) × ConservesAll os d p.binds w p'.binds w'

  pub IsExclusive-Conserves :
      (p p' : Program) (w w' : os.World)
      → ConservesProgram p w p' w'
      → IsExclusive d p w
      → IsExclusive d p' w'
  IsExclusive-Conserves p p' w w' (same, (fds, sums)) e = record {
    known = λ b low nb. ground (arith, same, fds, sums b nb, e.known b low nb);
    plain = rw same e.plain;
  }

  -- A call that returns keeps to what is open.
  abbrev pub ConservesRun :
      {A : Type 0} → (A → Program) → Program → os.World → Run os.World A → Type 0
  ConservesRun program_of p w (returns a w') = ConservesProgram p w (program_of a) w'
  ConservesRun program_of p w (exits code w') = Unit {0}

  activate_process-Keeps :
      (p : Program) (b : Word) (w : os.World) → opened b w ≤ opened b (activate_process os p w).1
  unfolding activate_process
  activate_process-Keeps p b w = grind (arith, d.store_keeps, d.sem_wait_keeps, d.sem_post_keeps)

  ConservesAll-after :
      (l l' : List Socket) (w w' w'' : os.World)
      → ((b : Word) → opened b w ≤ opened b w')
      → ConservesAll os d l w' l' w''
      → ConservesAll os d l w l' w''
  ConservesAll-after l l' w w' w'' f (g, k) = (g, λ b nb. omega (arith, f b, k b nb))

  pub ConservesAll-before :
      (l l' : List Socket) (w w' w'' : os.World)
      → ((b : Word) → opened b w' ≤ opened b w'')
      → ConservesAll os d l w l' w'
      → ConservesAll os d l w l' w''
  ConservesAll-before l l' w w' w'' f (g, k) = (g, λ b nb. omega (arith, f b, k b nb))

  start_worker-Conserves :
      (p : Program) (w : os.World)
      → let (p', w') = start_worker os p w in ConservesProgram p w p' w'
  unfolding start_worker configure_process
  start_worker-Conserves p w = elim (Bool-cases (truth p.live)) [
    | inl live ↦ rw (live, start_worker) (refl, (refl, λ b nb. omega arith))
    | inr new ↦
        let (_, w1) = activate_process os p w in
        let (l, w2) = forall_sockets (configure_socket os) p.binds w1 in
        rw (new, start_worker)
          (
            refl,
            ConservesAll-after p.binds l w w1 w2 (λ b. activate_process-Keeps p b w)
                (forall_sockets-Conserves os d (configure_socket os)
                  (configure_socket-Conserves os d) p.binds w1),
          )
  ]

  termination_detection-Keeps :
      (l : List Socket) (b : Word) (w : os.World)
      → opened b w ≤ opened b (termination_detection os l w).1
  unfolding termination_detection
  termination_detection-Keeps [] b w = omega arith
  termination_detection-Keeps (s ∷ l) b w = ground (
    arith,
    observed_version-Keeps os d s b w,
    termination_detection-Keeps l b (observed_version os s w).1,
  )

  pub initialize_event-Conserves :
      (p : Program) (w : os.World) → ConservesRun (λ q. q) p w (initialize_event os p w)
  unfolding initialize_event
  initialize_event-Conserves p w =
      let (p1, w1) = start_worker os p w in
      let (l, w2) = forall_sockets (monitor_fd os) p1.binds w1 in
      let (t, w3) = termination_detection os l w2 in
      let (same, first) = start_worker-Conserves p w in
      elim (Bool-cases (truth t)) [
        | inl over ↦ rw (over, initialize_event) tt
        | inr on ↦
            rw (on, initialize_event)
              (
                same,
                ConservesAll-trans os d p.binds p1.binds l w w1 w3 first (
                    ConservesAll-before p1.binds l w1 w2 w3
                      (λ b. termination_detection-Keeps l b w2)
                      (forall_sockets-Conserves os d (monitor_fd os) (monitor_fd-Conserves os d)
                        p1.binds w1)),
              )
      ]
