-- ===== src/Protocol/Refines.antt =====
-- The code of the processes that share a port refines the specification of their steps.
use open_dsu.Prelude.{ℕ, ◌≡◌, ◌∙◌, ◌++◌, ◌∷◌, List, [], refl, arith, subst, sym, ap, ap₂}
use open_dsu.Prelude.Words.{Word, Ptr, truth}
use open_dsu.Os.{Os, IsMemory, IsQuiet}
use open_dsu.State.{Socket}
use open_dsu.Core.{monitor_locked, dsu_pgid, dsu_version, dsu_transfer}
use open_dsu.Core.Monitor.{Status, observe, monitor_locked-observe}
use open_dsu.Messages.{count_transfer}
use open_dsu.Messages.Answer.{count_answer, count_transfer-count_answer}
use open_dsu.Bind.{inherit_version}
use open_dsu.Protocol.{Process}
use open_dsu.Protocol.Interleave.{
  System, inherited_version, Reaches, here, later, looks, answers, locks, inherits, forks, ends,
}
use open_dsu.Protocol.Runs.{
  Host, AreOn, Act, monitors, counts, tries, joins, copies, stops, passes, Acts, none_yet,
  then_acts, status_at, seen,
}

module _ (shared : Ptr) where
  AreOn-replace :
      (l m : List Process) (p q : Process)
      → AreOn shared (l ++ p ∷ m)
      → q.socket.status ≡ p.socket.status
      → AreOn shared (l ++ q ∷ m)
  AreOn-replace [] m p q a b = (b ∙ a.0, a.1)
  AreOn-replace (x ∷ l) m p q a b = (a.0, AreOn-replace l m p q a.1 b)

  AreOn-remove :
      (l m : List Process) (p : Process) → AreOn shared (l ++ p ∷ m) → AreOn shared (l ++ m)
  AreOn-remove [] m p a = a.1
  AreOn-remove (x ∷ l) m p a = (a.0, AreOn-remove l m p a.1)

  AreOn-add :
      (l : List Process) (p : Process)
      → AreOn shared l
      → p.socket.status ≡ shared
      → AreOn shared (l ++ p ∷ [])
  AreOn-add [] p a b = (b, tt)
  AreOn-add (x ∷ l) p a b = (a.0, AreOn-add l p a.1 b)

  AreOn-at :
      (l m : List Process) (p : Process) → AreOn shared (l ++ p ∷ m) → p.socket.status ≡ shared
  AreOn-at [] m p a = a.0
  AreOn-at (x ∷ l) m p a = AreOn-at l m p a.1

module _ (os : Os) (shared : Ptr) (m : IsMemory os) (q : IsQuiet os) where
  monitor_locked-at :
      (p : Process) (w : os.World)
      → p.socket.status ≡ shared
      → os.process_group w ≡ p.group
      → let (s, w') = monitor_locked os p.socket w in
        ◌≡◌ {A = Socket × Status}
          (s, status_at os shared w')
          (observe p.group p.socket (status_at os shared w))
  monitor_locked-at p w on group =
      let (s, w') = monitor_locked os p.socket w in
      subst
        (λ (g : Word).
          ◌≡◌ {A = Socket × Status} (s, status_at os shared w')
            (observe g p.socket (status_at os shared w)))
        group
        (subst
          (λ (x : Ptr).
            ◌≡◌ {A = Socket × Status} (s, status_at os x w')
              (observe (os.process_group w) p.socket (status_at os x w)))
          on (monitor_locked-observe os m p.socket w))

  count_transfer-at :
      (p : Process) (w : os.World)
      → p.socket.status ≡ shared
      → let (s, w') = count_transfer os p.socket w in
        ◌≡◌ {A = Socket × Status}
          (s, status_at os shared w')
          (count_answer p.socket (status_at os shared w))
  count_transfer-at p w on =
      let (s, w') = count_transfer os p.socket w in
      subst
        (λ (x : Ptr).
          ◌≡◌ {A = Socket × Status} (s, status_at os x w')
            (count_answer p.socket (status_at os x w)))
        on (count_transfer-count_answer os m p.socket w)

  observe-status : (g : Word) (s : Socket) (st : Status) → (observe g s st).0.status ≡ s.status
  unfolding observe
  observe-status g s st = ground arith

  count_answer-status : (s : Socket) (st : Status) → (count_answer s st).0.status ≡ s.status
  unfolding count_answer
  count_answer-status s st = ground arith

  inherit_version-at :
      (s : Socket) (w : os.World)
      → s.status ≡ shared
      → let (s', w') = inherit_version os s w in
        (s'.version
          ≡ inherited_version
              (os.process_group (os.sem_wait s.status_sem w).1)
              (status_at os shared w))
        × (s'.monitoring ≡ s.monitoring)
        × (s'.status ≡ shared)
        × (status_at os shared w' ≡ status_at os shared w)
  unfolding inherit_version
  inherit_version-at s w on =
      let wait = (os.sem_wait s.status_sem w).1 in
      ground (
        arith,
        on,
        q.wait_succeeds s.status_sem w,
        q.load-wait s.status_sem s.status dsu_pgid w,
        q.load-wait s.status_sem s.status dsu_version w,
        q.load-wait s.status_sem s.status dsu_transfer w,
        q.load-post s.status_sem s.status dsu_pgid wait,
        q.load-post s.status_sem s.status dsu_version wait,
        q.load-post s.status_sem s.status dsu_transfer wait,
      )

  status-unwritten :
      (w w' : os.World)
      → ((i : ℕ) → os.load shared i w' ≡ os.load shared i w)
      → status_at os shared w ≡ status_at os shared w'
  status-unwritten w w' f = ground (arith, f dsu_pgid, f dsu_version, f dsu_transfer)

  -- One action of the code is one step of the specification, or none.
  Act-Reaches :
      {y z : Host os}
      → Act os shared y z
      → AreOn shared y.processes
      → Reaches (seen os shared y) (seen os shared z) × AreOn shared z.processes
  Act-Reaches {y} {z} (monitors before after p e g e' f) on =
      let on' = subst (AreOn shared) e on in
      let step = monitor_locked-at p y.world (AreOn-at shared before after p on') g in
      let s' = ap (λ x. x.0) step in
      (
        later here (
            looks before after p e (e' ∙ ap (λ s. before ++ record p { socket = s } ∷ after) s')
              (ap (status_at os shared) f ∙ ap (λ x. x.1) step)),
        subst (AreOn shared) (sym e') (
            AreOn-replace shared before after p _ on'
              (ap (λ s. s.status) s' ∙ observe-status p.group p.socket _)),
      )
  Act-Reaches {y} {z} (counts before after p e e' f) on =
      let on' = subst (AreOn shared) e on in
      let step = count_transfer-at p y.world (AreOn-at shared before after p on') in
      let s' = ap (λ x. x.0) step in
      (
        later here (
            answers before after p e (e' ∙ ap (λ s. before ++ record p { socket = s } ∷ after) s')
              (ap (status_at os shared) f ∙ ap (λ x. x.1) step)),
        subst (AreOn shared) (sym e') (
            AreOn-replace shared before after p _ on'
              (ap (λ s. s.status) s' ∙ count_answer-status p.socket _)),
      )
  Act-Reaches {y} {z} (tries before after p locked e e' f) on = (
    later here (locks before after p locked e e' (ap (status_at os shared) f)),
    subst (AreOn shared) (sym e')
        (AreOn-replace shared before after p _ (subst (AreOn shared) e on) refl),
  )
  Act-Reaches {y} {z} (joins p s t o e g e' f) on =
      let (version, monitoring, own, same) = inherit_version-at s y.world o in
      (
        later here (
            inherits p (ap (λ s. truth s.monitoring) e ∙ ap truth monitoring ∙ t)
              (ap (λ s. s.version) e
                ∙ version
                ∙ ap (λ g. inherited_version g (status_at os shared y.world)) (sym g))
              e' (ap (status_at os shared) f ∙ same)),
        subst (AreOn shared) (sym e')
            (AreOn-add shared y.processes p on (ap (λ s. s.status) e ∙ own)),
      )
  Act-Reaches {y} {z} (copies before after p e e' f) on = (
    later here (forks before after p e e' (ap (status_at os shared) f)),
    subst (AreOn shared) (sym e') (
        AreOn-add shared y.processes p on
          (AreOn-at shared before after p (subst (AreOn shared) e on))),
  )
  Act-Reaches {y} {z} (stops before after p e n e' f) on = (
    later here (ends before after p e n e' (ap (status_at os shared) f)),
    subst (AreOn shared) (sym e') (AreOn-remove shared before after p (subst (AreOn shared) e on)),
  )
  Act-Reaches {y} {z} (passes e f) on = (
    subst (Reaches (seen os shared y))
        (ap₂ (λ l st. record { processes = l; status = st }) (sym e)
          (status-unwritten y.world z.world f))
        here,
    subst (AreOn shared) (sym e) on,
  )

  Reaches-trans : {x y z : System} → Reaches x y → Reaches y z → Reaches x z
  Reaches-trans a here = a
  Reaches-trans a (later b m) = later (Reaches-trans a b) m

  -- Where shared memory and the locks behave as they should: however the processes that share a
  -- status interleave their code, what they do is a run of the specified steps, and they go on to
  -- share it.
  pub Acts-Reaches :
      {y z : Host os}
      → AreOn shared y.processes
      → Acts os shared y z
      → Reaches (seen os shared y) (seen os shared z) × AreOn shared z.processes
  Acts-Reaches on none_yet = (here, on)
  Acts-Reaches on (then_acts r a) =
      let (before, on') = Acts-Reaches on r in
      let (step, on'') = Act-Reaches a on' in (Reaches-trans before step, on'')
