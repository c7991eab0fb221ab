-- ===== src/Select/Handle.antt =====
-- `dsu_handle_conn` (src/event_handlers/select.c) hides internal connections from the user, and
-- counts each of them once.
use open_dsu.Prelude.{
  ℕ, suc, ◌+◌, ◌%◌, ◌<◌, ◌≡◌, refl, ◌∙◌, true, false, ◌&&◌, ◌||◌, not, some, List, [], ◌∷◌, arith,
  ◌==◌, if◌then◌else◌, has, Distinct, Bool-cases, inl, inr,
}
use open_dsu.Prelude.Words.{Word, incr}
use open_dsu.Os.{Os, FdSet}
use open_dsu.State.{Socket}
use open_dsu.Messages.{accept_conn, settle, answer}
use open_dsu.Select.{fd_clr, handle_conns, handle_conn, handle_step, pass}

-- How many of the descriptors of a list are in the set.
abbrev pub size_in : List Word → FdSet → ℕ
size_in [] set = 0
size_in (x ∷ rest) set = (if set x then 1 else 0) + size_in rest set

-- The list names every descriptor of the set.
abbrev pub Covers : List Word → FdSet → Type 0
Covers all set = (x : Word) → set x ≡ true → has x all ≡ true

size-clear_absent :
    (all : List Word) (c : Word) (set : FdSet)
    → has c all ≡ false
    → size_in all (fd_clr c set) ≡ size_in all set
size-clear_absent [] c set h = refl
size-clear_absent (x ∷ all) c set h = ground (arith, size-clear_absent all c set)

pub size-clear :
    (all : List Word) (c : Word) (set : FdSet)
    → Distinct all
    → has c all ≡ true
    → set c ≡ true
    → size_in all (fd_clr c set) + 1 ≡ size_in all set
size-clear [] c set d h k = ground arith
size-clear (x ∷ all) c set d h k =
    ground (arith, size-clear all c set d.1, size-clear_absent all c set)

-- `k` descriptors left the set, and the correction went up by as many.
abbrev pub Accounts : List Word → FdSet → Word → FdSet → Word → Type 0
Accounts all set n set' n' =
    (k : ℕ) × (size_in all set' + k ≡ size_in all set) × (n' ≡ (n + k) % 0x1_0000_0000)

module _ (os : Os) where
  -- What is left in the set after the loop, whatever the connections had to say.
  handle_conns-set :
      (l : List Word) (s : Socket) (set : FdSet) (n : Word) (w : os.World) (x : Word)
      → (handle_conns os l s set n w).0.1 x ≡ (set x && not (has x l))
  unfolding handle_conns
  handle_conns-set [] s set n w x = ground arith
  handle_conns-set (c ∷ l) s set n w x = elim (Bool-cases (set c)) [
    | inl ready ↦
        let ((o, s'), w') = answer os s c w in
        let rest = handle_conns-set l (settle o c s') (fd_clr c set) (incr n) w' x in
        rw (ready, handle_conns) (rest ∙ ground arith)
    | inr idle ↦ rw (idle, handle_conns) (ground (arith, handle_conns-set l s set n w x))
  ]

  handle_conns-Accounts :
      (all l : List Word) (s : Socket) (set : FdSet) (n : Word) (w : os.World)
      → Distinct all
      → Covers all set
      → n < 0x1_0000_0000
      → let (s', set', n') = (handle_conns os l s set n w).0 in Accounts all set n set' n'
  unfolding handle_conns
  handle_conns-Accounts all [] s set n w d cover h = (0, omega arith, omega arith)
  handle_conns-Accounts all (c ∷ l) s set n w d cover h = elim (Bool-cases (set c)) [
    | inl ready ↦
        let ((o, s'), w') = answer os s c w in
        let (k, sizes, counts) =
          handle_conns-Accounts all l (settle o c s') (fd_clr c set) (incr n) w' d
            (λ x h'. cover x (ground arith)) (omega arith) in
        rw (ready, handle_conns)
          (
            suc k,
            omega (arith, sizes, size-clear all c set d (cover c ready) ready),
            omega (arith, counts),
          )
    | inr idle ↦ rw (idle, handle_conns) (handle_conns-Accounts all l s set n w d cover h)
  ]

  -- The socket with its internal connections, after a request on its communication socket.
  abbrev pub joined : Socket → FdSet → os.World → Socket
  joined s set w = if set s.comfd then (accept_conn os s w).0 else s

  -- The user sees no internal descriptor: after the call the set holds what it held before, less
  -- the communication socket and every internal connection, those just accepted included.
  pub handle_conn-hides :
      (s : Socket) (set : FdSet) (n : Word) (w : os.World) (x : Word)
      → (handle_conn os s set n w).0.1 x
        ≡ (set x && not (x == s.comfd || has x (joined s set w).comfds))
  unfolding handle_conn
  handle_conn-hides s set n w x = elim (Bool-cases (set s.comfd)) [
    | inl ready ↦
        let (s', w') = accept_conn os s w in
        ground (arith, handle_conns-set s'.comfds s' (fd_clr s.comfd set) (incr n) w' x)
    | inr idle ↦ ground (arith, handle_conns-set s.comfds s set n w x)
  ]

  handle_conn-Accounts :
      (all : List Word) (s : Socket) (set : FdSet) (n : Word) (w : os.World)
      → Distinct all
      → Covers all set
      → n < 0x1_0000_0000
      → let (s', set', n') = (handle_conn os s set n w).0 in Accounts all set n set' n'
  unfolding handle_conn
  handle_conn-Accounts all s set n w d cover h = elim (Bool-cases (set s.comfd)) [
    | inl ready ↦
        let (s', w') = accept_conn os s w in
        let (k, sizes, counts) =
          handle_conns-Accounts all s'.comfds s' (fd_clr s.comfd set) (incr n) w' d
            (λ x h'. cover x (ground arith)) (omega arith) in
        rw (ready, handle_conn)
          (
            suc k,
            omega (arith, sizes, size-clear all s.comfd set d (cover s.comfd ready) ready),
            omega (arith, counts),
          )
    | inr idle ↦ rw (idle, handle_conn) (handle_conns-Accounts all s.comfds s set n w d cover h)
  ]

  handle_conn-Covers :
      (all : List Word) (s : Socket) (set : FdSet) (n : Word) (w : os.World)
      → Covers all set
      → Covers all (handle_conn os s set n w).0.1
  handle_conn-Covers all s set n w cover x h =
      cover x (ground (arith, handle_conn-hides s set n w x))

  -- The handlers of all bound sockets together: `correction` goes up, as an `int`, by as many as
  -- descriptors leave the set. The list names every descriptor of the set, each once.
  pub handle_pass-Accounts :
      (all : List Word) (l : List Socket) (set : FdSet) (n : Word) (w : os.World)
      → Distinct all
      → Covers all set
      → n < 0x1_0000_0000
      → let (_, (readfds, n')) = (pass (handle_step os) l (some set, n) w).0 in
        (set' : FdSet) × (readfds ≡ some set') × Accounts all set n set' n'
  unfolding pass
  handle_pass-Accounts all [] set n w d cover h = (set, refl, (0, omega arith, omega arith))
  handle_pass-Accounts all (s ∷ l) set n w d cover h =
      let ((s', set1, n1), w1) = handle_conn os s set n w in
      let (j, sizes1, counts1) = handle_conn-Accounts all s set n w d cover h in
      let (set2, same, (k, sizes2, counts2)) =
        handle_pass-Accounts all l set1 n1 w1 d (handle_conn-Covers all s set n w cover)
          (omega (arith, counts1)) in
      (set2, same, (j + k, omega (arith, sizes1, sizes2), omega (arith, counts1, counts2)))
