-- ===== src/Select/Answer.antt =====
-- What `select` (src/event_handlers/select.c) answers the program, from what the system call answered.
use open_dsu.Prelude.{
  ◌+◌, ◌-◌, ◌%◌, ◌<◌, ◌≡◌, ◌≢◌, ◌⊎◌, refl, Bool, true, false, ◌&&◌, Option, none, some, List, arith,
  ◌==◌, if◌then◌else◌, has, Distinct, Bool-cases, inl, inr, ap, All,
}
use open_dsu.Prelude.Words.{Word, minus_one}
use open_dsu.Os.{Os, FdSet, Timeout}
use open_dsu.State.{Socket, Program}
use open_dsu.Core.{returns, initialize_event}
use open_dsu.Select.{Globals, pass, handle_step, post_select}
use open_dsu.Select.Loop.{is_null, Round, pre_step, sniff_sets, select_round}
use open_dsu.Select.Handle.{size_in, Covers}
use open_dsu.Select.Told.{ends, firsts, IsTellable, select_tells}

-- What a round does up to the system call and with it: the bound sockets, and the answer.
abbrev pub asked :
    (os : Os)
    → Program
    → Word
    → Option FdSet
    → Option FdSet
    → Option FdSet
    → Option Timeout
    → os.World
    → List Socket × ((Word × Option FdSet × Option FdSet × Option FdSet) × os.World)
asked os p nfds readfds writefds exceptfds timeout w =
    let globals : Globals = record { max_fds = nfds; transfer = 0 } in
    let ((binds1, (rd1, g)), w2) = pass (pre_step os) p.binds (readfds, globals) w in
    let (rd2, max_fds) = sniff_sets os binds1 rd1 g.max_fds in
    let tv : Option Timeout =
      if g.transfer == 1 then some (record { sec = 0; rest = 100 }) else timeout in
    (binds1, os.select max_fds rd2 writefds exceptfds tv w2)

-- A round answers with the number of descriptors in the sets that it gives to the program, or starts
-- over where these are empty and there is no timeout.
abbrev pub AnswersSize :
    List Word → Word → Option FdSet → Option FdSet → Option Timeout → Round → Type 0
AnswersSize all others wr ex timeout round =
    (set' : FdSet) × (((round.result ≡ some (size_in all set' + others))
        × (round.readfds ≡ some set')
        × (round.writefds ≡ wr)
        × (round.exceptfds ≡ ex))
      ⊎ ((round.result ≡ none) × (size_in all set' + others ≡ 0) × (timeout ≡ none)))

chosen :
    {W : Type 0} (P : Round → Type 0) (r : Word) (over : Bool) (x y z : Round) (w w' : W)
    → (r == minus_one) ≡ false
    → (over ≡ true → P y)
    → (over ≡ false → P z)
    → (round : Round) × (v : W) × ((if r == minus_one
          then returns x w
          else if over
          then returns y w'
          else returns z w')
        ≡ returns round v)
      × P round
chosen P r over x y z w w' fine again done = elim (Bool-cases over) [
  | inl starts ↦ rw (fine, starts) (y, w', refl, again starts)
  | inr ends ↦ rw (fine, ends) (z, w', refl, done ends)
]

is_null-none : (b : Bool) (t : Option Timeout) → (b && is_null t) ≡ true → (b ≡ true) × (t ≡ none)
is_null-none b none h = (ground arith, refl)
is_null-none b (some t) h = absurd (ground arith)

module _ (os : Os) where
  -- The process goes on, and the system call gives `r`, below 2 ^ 31 and not -1, which is how many
  -- descriptors its three sets hold: those of the set to read, and `others`. `correction` is 0, as each
  -- answer of a round leaves it. A list names each descriptor of the set and each of the user's, all
  -- once. Each user's descriptor stands for one socket, and is not in the set itself unless it is its
  -- own shadow. Then the round answers with the number of descriptors in the sets that it gives to
  -- the program, or starts over, which it does only where that is 0 and there is no timeout.
  pub select_round-AnswersSize :
      (p p1 : Program) (nfds : Word) (readfds writefds exceptfds : Option FdSet)
      (timeout : Option Timeout) (w w1 : os.World) (all : List Word) (set : FdSet) (others : Word)
      → initialize_event os p w ≡ returns p1 w1
      → let (l, ((r, rd, wr, ex), w3)) = asked os p1 nfds readfds writefds exceptfds timeout w1 in
        (rd ≡ some set)
        → r ≢ minus_one
        → Distinct all
        → Covers all set
        → All (λ f. has f all ≡ true) (firsts (ends l))
        → IsTellable set (ends l)
        → r ≡ size_in all set + others
        → r < 0x8000_0000
        → (round : Round) × (w' : os.World) × (select_round os p nfds readfds writefds exceptfds
              timeout 0 w
            ≡ returns round w')
          × AnswersSize all others wr ex timeout round
  unfolding select_round
  select_round-AnswersSize p p1 nfds readfds writefds exceptfds timeout w w1 all set others started
        read fine d cover known t e b =
      let (l, ((r, rd, wr, ex), w3)) = asked os p1 nfds readfds writefds exceptfds timeout w1 in
      let ((l', (ready, n)), w4) = pass (handle_step os) l (rd, 0) w3 in
      let told : Word = (r + 0x1_0000_0000 - n) % 0x1_0000_0000 in
      let tells : (set' : FdSet) × ((pass (post_select os) l' ready w4).0.1 ≡ some set')
          × (told ≡ size_in all set' + others) =
        rw read (select_tells os all l set r others w3 d cover known t e b) in
      let (set', given, size) = tells in
      let failed : (r == minus_one) ≡ false = ground arith in
      rw (started, select_round)
        (chosen (AnswersSize all others wr ex timeout) r ((told == 0) && is_null timeout) _ _ _ _ _
          failed
          (λ again.
            let (zero_told, forever) = is_null-none (told == 0) timeout again in
            (set', inr (refl, ground (arith, size, zero_told), forever)))
          (λ done. (set', inl (ap some size, given, refl, refl))))
