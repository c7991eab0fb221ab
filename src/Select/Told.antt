-- ===== src/Select/Told.antt =====
-- What `select` (src/event_handlers/select.c) tells the program behind the system call: the handlers
-- of all bound sockets, and then `dsu_post_select` for each.
use open_dsu.Prelude.{
  ◌+◌, ◌-◌, ◌%◌, ◌<◌, ◌≡◌, refl, ◌∙◌, ◌⊎◌, true, false, some, List, [], ◌∷◌, arith, ◌==◌,
  if◌then◌else◌, has, Distinct, Bool-cases, inl, inr, ap, ap₂, subst, sym, All,
}
use open_dsu.Prelude.Words.{Word, incr}
use open_dsu.Os.{Os, FdSet}
use open_dsu.State.{Socket, socket_add_fds, socket_remove_fds}
use open_dsu.Messages.{accept_conn, settle, answer, Outcome, peer_closed, already_read, answered}
use open_dsu.Messages.Answer.{answer-counted}
use open_dsu.Select.{fd_set, fd_clr, handle_conns, handle_conn, handle_step, post_select, pass}
use open_dsu.Select.Handle.{size_in, Covers, handle_conn-hides, handle_pass-Accounts, size-clear}

-- The user's descriptor and its shadow, of each socket.
abbrev pub ends : List Socket → List (Word × Word)
ends [] = []
ends (s ∷ rest) = (s.fd, s.shadowfd) ∷ ends rest

abbrev pub firsts : List (Word × Word) → List Word
firsts [] = []
firsts ((f, sh) ∷ rest) = f ∷ firsts rest

-- `dsu_post_select` on the set.
abbrev tell : Word × Word → FdSet → FdSet
tell (f, sh) set = if set sh then fd_set f (fd_clr sh set) else set

abbrev tell_all : List (Word × Word) → FdSet → FdSet
tell_all [] set = set
tell_all (e ∷ rest) set = tell_all rest (tell e set)

-- No descriptor stands for two sockets, and none that has another as its shadow is in the set.
abbrev pub IsTellable : FdSet → List (Word × Word) → Type 0
IsTellable set [] = Unit
IsTellable set ((f, sh) ∷ rest) =
    ((set f ≡ false) ⊎ (f ≡ sh)) × (has f (firsts rest) ≡ false) × IsTellable set rest

size-set_absent :
    (all : List Word) (f : Word) (set : FdSet)
    → has f all ≡ false
    → size_in all (fd_set f set) ≡ size_in all set
size-set_absent [] f set h = refl
size-set_absent (x ∷ all) f set h = ground (arith, size-set_absent all f set)

size-set :
    (all : List Word) (f : Word) (set : FdSet)
    → Distinct all
    → has f all ≡ true
    → set f ≡ false
    → size_in all (fd_set f set) ≡ size_in all set + 1
size-set [] f set d h k = cc
size-set (x ∷ all) f set d h k = ground (arith, size-set all f set d.1, size-set_absent all f set)

size-tell :
    (all : List Word) (f sh : Word) (set : FdSet)
    → Distinct all
    → Covers all set
    → has f all ≡ true
    → (set f ≡ false) ⊎ (f ≡ sh)
    → size_in all (tell (f, sh) set) ≡ size_in all set
size-tell all f sh set d cover h u = elim (Bool-cases (set sh)) [
  | inl ready ↦ rw ready (
      omega (
        arith,
        size-clear all sh set d (cover sh ready) ready,
        size-set all f (fd_clr sh set) d h (ground arith),
      ))
  | inr idle ↦ rw idle refl
]

tell-Covers :
    (all : List Word) (f sh : Word) (set : FdSet)
    → Covers all set
    → has f all ≡ true
    → Covers all (tell (f, sh) set)
tell-Covers all f sh set cover h x k = elim (Bool-cases (x == f)) [
  | inl same ↦ let e : x ≡ f = ground arith in ap (λ y. has y all) e ∙ h
  | inr other ↦ cover x (ground arith)
]

tell-IsTellable :
    (f sh : Word) (set : FdSet) (rest : List (Word × Word))
    → has f (firsts rest) ≡ false
    → IsTellable set rest
    → IsTellable (tell (f, sh) set) rest
tell-IsTellable f sh set [] h t = tt
tell-IsTellable f sh set ((f', sh') ∷ rest) h (inl out, new, t) =
    (inl (ground arith), new, tell-IsTellable f sh set rest (ground arith) t)
tell-IsTellable f sh set ((f', sh') ∷ rest) h (inr own, new, t) =
    (inr own, new, tell-IsTellable f sh set rest (ground arith) t)

-- Telling changes no size.
size-tell_all :
    (all : List Word) (es : List (Word × Word)) (set : FdSet)
    → Distinct all
    → Covers all set
    → All (λ f. has f all ≡ true) (firsts es)
    → IsTellable set es
    → size_in all (tell_all es set) ≡ size_in all set
size-tell_all all [] set d cover h t = refl
size-tell_all all ((f, sh) ∷ es) set d cover h t =
    size-tell_all all es (tell (f, sh) set) d (tell-Covers all f sh set cover h.0) h.1
      (tell-IsTellable f sh set es t.1 t.2)
    ∙ size-tell all f sh set d cover h.0 t.0

module _ (os : Os) where
  post_pass-tell_all :
      (l : List Socket) (set : FdSet) (w : os.World)
      → (pass (post_select os) l (some set) w).0.1 ≡ some (tell_all (ends l) set)
  unfolding pass post_select
  post_pass-tell_all [] set w = refl
  post_pass-tell_all (s ∷ l) set w = post_pass-tell_all l (tell (s.fd, s.shadowfd) set) _

  settle-ends :
      (o : Outcome) (c : Word) (s : Socket)
      → ((settle o c s).fd ≡ s.fd) × ((settle o c s).shadowfd ≡ s.shadowfd)
  unfolding socket_remove_fds
  settle-ends peer_closed c s = ground arith
  settle-ends already_read c s = (refl, refl)
  settle-ends answered c s = (refl, refl)

  handle_conns-ends :
      (l : List Word) (s : Socket) (set : FdSet) (n : Word) (w : os.World)
      → let s' = (handle_conns os l s set n w).0.0 in (s'.fd ≡ s.fd) × (s'.shadowfd ≡ s.shadowfd)
  unfolding handle_conns
  handle_conns-ends [] s set n w = (refl, refl)
  handle_conns-ends (c ∷ l) s set n w = elim (Bool-cases (set c)) [
    | inl ready ↦
        let ((o, s'), w') = answer os s c w in
        let kept = (answer-counted os s c w).0 in
        let (f, sh) = settle-ends o c s' in
        let (f', sh') = handle_conns-ends l (settle o c s') (fd_clr c set) (incr n) w' in
        rw (ready, handle_conns)
          (f' ∙ f ∙ ap (λ t. t.fd) kept, sh' ∙ sh ∙ ap (λ t. t.shadowfd) kept)
    | inr idle ↦ rw (idle, handle_conns) (handle_conns-ends l s set n w)
  ]

  accept_conn-ends :
      (s : Socket) (w : os.World)
      → let s' = (accept_conn os s w).0 in (s'.fd ≡ s.fd) × (s'.shadowfd ≡ s.shadowfd)
  unfolding accept_conn socket_add_fds
  accept_conn-ends s w = ground arith

  handle_conn-ends :
      (s : Socket) (set : FdSet) (n : Word) (w : os.World)
      → let s' = (handle_conn os s set n w).0.0 in (s'.fd ≡ s.fd) × (s'.shadowfd ≡ s.shadowfd)
  unfolding handle_conn
  handle_conn-ends s set n w =
      let (t, w') = accept_conn os s w in
      ground (
        arith,
        accept_conn-ends s w,
        handle_conns-ends t.comfds t (fd_clr s.comfd set) (incr n) w',
        handle_conns-ends s.comfds s set n w,
      )

  handle_pass-ends :
      (l : List Socket) (set : FdSet) (n : Word) (w : os.World)
      → ends (pass (handle_step os) l (some set, n) w).0.0 ≡ ends l
  unfolding pass
  handle_pass-ends [] set n w = refl
  handle_pass-ends (s ∷ l) set n w =
      let ((s', set1, n1), w1) = handle_conn os s set n w in
      let (f, sh) = handle_conn-ends s set n w in
      ap₂ (λ a b. (a, b) ∷ ends (pass (handle_step os) l (some set1, n1) w1).0.0) f sh
      ∙ ap (λ r. (s.fd, s.shadowfd) ∷ r) (handle_pass-ends l set1 n1 w1)

  -- The handlers put nothing into the set.
  handle_pass-shrinks :
      (l : List Socket) (set set' : FdSet) (n : Word) (w : os.World) (x : Word)
      → (pass (handle_step os) l (some set, n) w).0.1.0 ≡ some set'
      → set' x ≡ true
      → set x ≡ true
  unfolding pass
  handle_pass-shrinks [] set set' n w x e h = let same : set ≡ set' = cc in ap (λ t. t x) same ∙ h
  handle_pass-shrinks (s ∷ l) set set' n w x e h =
      let ((s', set1, n1), w1) = handle_conn os s set n w in
      let before : set1 x ≡ true = handle_pass-shrinks l set1 set' n1 w1 x e h in
      ground (arith, handle_conn-hides os s set n w x, before)

  IsTellable-shrinks :
      (set set' : FdSet) (es : List (Word × Word))
      → ((x : Word) → set' x ≡ true → set x ≡ true)
      → IsTellable set es
      → IsTellable set' es
  IsTellable-shrinks set set' [] sub t = tt
  IsTellable-shrinks set set' ((f, sh) ∷ es) sub (inl out, new, t) =
      (inl (ground (arith, sub f)), new, IsTellable-shrinks set set' es sub t)
  IsTellable-shrinks set set' ((f, sh) ∷ es) sub (inr own, new, t) =
      (inr own, new, IsTellable-shrinks set set' es sub t)

  -- The system call gives `r`, below 2 ^ 31, which is how many descriptors its three sets hold: those
  -- of the set to read, and `others`. A list names each descriptor of the set and each of the user's,
  -- all once. Each user's descriptor stands for one socket, and is not in the set itself unless it is
  -- its own shadow. Then what `select` returns behind the handlers and `dsu_post_select` is again how
  -- many descriptors the sets hold that it gives to the program.
  pub select_tells :
      (all : List Word) (l : List Socket) (set : FdSet) (r others : Word) (w : os.World)
      → Distinct all
      → Covers all set
      → All (λ f. has f all ≡ true) (firsts (ends l))
      → IsTellable set (ends l)
      → r ≡ size_in all set + others
      → r < 0x8000_0000
      → let ((l', (ready, n)), w1) = pass (handle_step os) l (some set, 0) w in
        let told = (pass (post_select os) l' ready w1).0.1 in
        (set' : FdSet) × (told ≡ some set')
        × ((r + 0x1_0000_0000 - n) % 0x1_0000_0000 ≡ size_in all set' + others)
  select_tells all l set r others w d cover known t e b =
      let ((l', (ready, n)), w1) = pass (handle_step os) l (some set, 0) w in
      let (set1, same, (k, sizes, counts)) =
        handle_pass-Accounts os all l set 0 w d cover (omega arith) in
      let sub = λ (x : Word) (h : set1 x ≡ true). handle_pass-shrinks l set set1 0 w x same h in
      let kept = handle_pass-ends l set 0 w in
      let size =
        size-tell_all all (ends l') set1 d (λ x h. cover x (sub x h))
          (subst (λ es. All (λ f. has f all ≡ true) (firsts es)) (sym kept) known)
          (subst (IsTellable set1) (sym kept) (IsTellable-shrinks set set1 (ends l) sub t)) in
      (
        tell_all (ends l') set1,
        ap (λ a. (pass (post_select os) l' a w1).0.1) same ∙ post_pass-tell_all l' set1 w1,
        omega (arith, sizes, counts, size, e, b),
      )
