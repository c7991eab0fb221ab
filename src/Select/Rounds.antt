-- ===== src/Select/Rounds.antt =====
-- How often `select` of src/event_handlers/select.c starts over.
use open_dsu.Prelude.{
  ℕ, zero, suc, ◌+◌, subst, ◌≡◌, refl, inl, inr, Option, none, some, arith, Option-cases, Bool,
  if◌then◌else◌, true, false, ◌&&◌,
}
use open_dsu.Prelude.Words.{Word}
use open_dsu.Os.{Os, FdSet, Timeout}
use open_dsu.State.{Program}
use open_dsu.Core.{Run, returns, exits, initialize_event}
use open_dsu.Core.Event.{Run-cases}
use open_dsu.Select.Loop.{Round, select_round, select}

-- A round gives an answer to the program or ends the process.
abbrev pub Answers : {W : Type 0} → Run W Round → Type 0
Answers (returns r w) = (n : Word) × (r.result ≡ some n)
Answers (exits code w) = Unit {0}

answered :
    {W : Type 0} (failed silent : Bool) (x y z : Round) (w w' : W) (r told : Word)
    → x.result ≡ some r
    → z.result ≡ some told
    → Answers
        (if failed then returns x w else if silent && false then returns y w' else returns z w')
answered true silent x y z w w' r told a b = (r, a)
answered false true x y z w w' r told a b = (told, b)
answered false false x y z w w' r told a b = (told, b)

module _ (os : Os) where
  select_round-Answers :
      (p : Program) (nfds : Word) (rd wr ex : Option FdSet) (t : Timeout) (correction : Word)
      (w : os.World)
      → Answers (select_round os p nfds rd wr ex (some t) correction w)
  unfolding select_round
  select_round-Answers p nfds rd wr ex t correction w = elim (Run-cases (initialize_event os p w)) [
    | inl (code, w', ended) ↦ rw (ended, select_round) tt
    | inr (p1, w1, started) ↦
        rw (started, select_round) (answered {W = os.World} _ _ _ _ _ _ _ _ _ refl refl)
  ]

  -- With a timeout `select` never starts over: for any number of rounds allowed, it is its first
  -- round, which answers the program or ends the process.
  pub select_timed :
      (rounds : ℕ) (p : Program) (nfds : Word) (rd wr ex : Option FdSet) (t : Timeout)
      (correction : Word) (w : os.World)
      → let first = select_round os p nfds rd wr ex (some t) correction w in
        (select os (suc rounds) p nfds rd wr ex (some t) correction w ≡ some first) × Answers first
  unfolding select
  select_timed rounds p nfds rd wr ex t correction w =
      let answers = select_round-Answers p nfds rd wr ex t correction w in
      (
        elim (Run-cases (select_round os p nfds rd wr ex (some t) correction w)) [
          | inl (code, w', ended) ↦ rw (ended, select) refl
          | inr (r, w', round) ↦
              let (m, told) = subst Answers round answers in
              rw (round, select) (ground (arith, told))
        ],
        answers,
      )

  -- Allowing more rounds does not change what `select` gives, with any timeout.
  select-more :
      (more rounds : ℕ) (p : Program) (nfds : Word) (rd wr ex : Option FdSet)
      (timeout : Option Timeout) (correction : Word) (w : os.World) (out : Run os.World Round)
      → select os rounds p nfds rd wr ex timeout correction w ≡ some out
      → select os (rounds + more) p nfds rd wr ex timeout correction w ≡ some out
  unfolding select
  select-more more zero p nfds rd wr ex timeout correction w out h = ground arith
  select-more more (suc n) p nfds rd wr ex timeout correction w out h =
      let step : suc n + more ≡ suc (n + more) = omega arith in
      rw (step, select)
        (elim (Run-cases (select_round os p nfds rd wr ex timeout correction w)) [
          | inl (code, w', ended) ↦ rw (ended, select) (rw (ended, select) at h)
          | inr (r, w', round) ↦ elim (Option-cases r.result) [
            | inl again ↦
                rw (round, select)
                  (rw (again, select)
                    (select-more more n r.program nfds r.readfds r.writefds r.exceptfds none
                      r.correction w' out (rw (again, select) at (rw (round, select) at h))))
            | inr (m, told) ↦
                rw (round, select)
                  (rw (told, select) (rw (told, select) at (rw (round, select) at h)))
          ]
        ])
