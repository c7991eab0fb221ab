-- ===== src/Poll/Marks.antt =====
-- `dsu_set_revents` (src/event_handlers/poll.c), where the user's entries are the first of those
-- that were polled.
use open_dsu.Prelude.{
  ℕ, zero, suc, ◌≤◌, ◌≡◌, refl, ap, true, false, ◌||◌, some, List, [], ◌∷◌, ◌++◌, arith, ◌==◌,
  if◌then◌else◌, has, Distinct, length, Bool-cases, inl, inr, ◌∙◌, sym,
}
use open_dsu.Prelude.Words.{Word}
use open_dsu.Prelude.Arrays.{append-cons, length-snoc}
use open_dsu.Os.{PollFd}
use open_dsu.State.{Program, originalfd}
use open_dsu.Poll.{find_from, mark, set_revents}
use open_dsu.Poll.Bounds.{fds_of_array}

-- The user's descriptors that are ready.
abbrev pub ready_fds : Program → List PollFd → List Word
ready_fds p [] = []
ready_fds p (e ∷ rest) =
    let later = ready_fds p rest in if e.revents == 0 then later else originalfd p e.fd ∷ later

-- The entries of those descriptors tell an event, and the others are as they were.
abbrev pub marked : List Word → List PollFd → List PollFd
marked ready [] = []
marked ready (e ∷ fds) = (if has e.fd ready then record e { revents = 1 } else e) ∷ marked ready fds

-- The polled entries stand for some of the user's, in their order; what is behind them is not ready.
pub data IsAligned (p : Program) : List PollFd → List PollFd → Type 0 where
  rest_idle : {es : List PollFd} → ready_fds p es ≡ [] → IsAligned p [] es
  left_out : {e : PollFd} {fds es : List PollFd} → IsAligned p fds es → IsAligned p (e ∷ fds) es
  polled_as :
      {e q : PollFd} {fds es : List PollFd}
      → originalfd p q.fd ≡ e.fd
      → IsAligned p fds es
      → IsAligned p (e ∷ fds) (q ∷ es)

ready_fds-IsAligned :
    {p : Program} {fds es : List PollFd} (a : Word)
    → IsAligned p fds es
    → has a (fds_of_array fds) ≡ false
    → has a (ready_fds p es) ≡ false
ready_fds-IsAligned a (rest_idle i) h = ground (arith, i)
ready_fds-IsAligned a (left_out al) h = ready_fds-IsAligned a al (ground arith)
ready_fds-IsAligned a (polled_as o al) h = ground (arith, o, ready_fds-IsAligned a al)

marked_other :
    (a : Word) (ready : List Word) (fds : List PollFd)
    → has a (fds_of_array fds) ≡ false
    → marked (a ∷ ready) fds ≡ marked ready fds
marked_other a ready [] h = refl
marked_other a ready (e ∷ fds) h = ground (arith, marked_other a ready fds)

set_revents_idle :
    (p : Program) (fds : List PollFd) (start : ℕ) (es : List PollFd)
    → ready_fds p es ≡ []
    → set_revents p fds start es ≡ some fds
unfolding set_revents
set_revents_idle p fds start [] h = refl
set_revents_idle p fds start (e ∷ es) h = ground (arith, set_revents_idle p fds (suc start) es)

-- The scan passes over what stands in front.
find_from_behind :
    (fd : Word) (start : ℕ) (pre : List PollFd) (e : PollFd) (fds : List PollFd)
    → start ≤ length pre
    → has fd (fds_of_array pre) ≡ false
    → e.fd ≡ fd
    → find_from fd start (pre ++ e ∷ fds) ≡ some (length pre)
unfolding find_from
find_from_behind fd zero [] e fds b h same = ground arith
find_from_behind fd (suc start) [] e fds b h same = absurd (omega arith)
find_from_behind fd zero (x ∷ pre) e fds b h same =
    ground (arith, find_from_behind fd 0 pre e fds (omega arith))
find_from_behind fd (suc start) (x ∷ pre) e fds b h same =
    ground (arith, find_from_behind fd start pre e fds (omega arith))

mark_behind :
    (pre : List PollFd) (e : PollFd) (fds : List PollFd)
    → mark (pre ++ e ∷ fds) (length pre) ≡ pre ++ record e { revents = 1 } ∷ fds
mark_behind [] e fds = refl
mark_behind (x ∷ pre) e fds = ap (λ l. x ∷ l) (mark_behind pre e fds)

has-snoc :
    (a : Word) (pre : List PollFd) (e : PollFd)
    → has a (fds_of_array (pre ++ e ∷ [])) ≡ (has a (fds_of_array pre) || e.fd == a)
has-snoc a [] e = ground arith
has-snoc a (x ∷ pre) e = ground (arith, has-snoc a pre e)

-- What is in front has none of the descriptors behind.
abbrev AreApart : List PollFd → List PollFd → Type 0
AreApart pre fds = (a : Word) → has a (fds_of_array fds) ≡ true → has a (fds_of_array pre) ≡ false

AreApart-next :
    (pre : List PollFd) (e e' : PollFd) (fds : List PollFd)
    → e'.fd ≡ e.fd
    → has e.fd (fds_of_array fds) ≡ false
    → AreApart pre (e ∷ fds)
    → AreApart (pre ++ e' ∷ []) fds
AreApart-next pre e e' fds same new apart = λ a h. ground (arith, has-snoc a pre e', apart a)

-- The loop at the entry behind `pre`, from the loop behind that entry.
advance :
    (p : Program) (pre : List PollFd) (e : PollFd) (fds es out out' : List PollFd) (start : ℕ)
    → out' ≡ e ∷ out
    → set_revents p ((pre ++ e ∷ []) ++ fds) start es ≡ some ((pre ++ e ∷ []) ++ out)
    → set_revents p (pre ++ e ∷ fds) start es ≡ some (pre ++ out')
advance p pre e fds es out out' start same h =
    ap (λ l. set_revents p l start es) (sym (append-cons pre e fds))
    ∙ h
    ∙ ap some (append-cons pre e out)
    ∙ ap (λ l. some (pre ++ l)) (sym same)

marked_first :
    (a : Word) (ready : List Word) (e : PollFd) (fds : List PollFd)
    → a ≡ e.fd
    → has e.fd (fds_of_array fds) ≡ false
    → marked (a ∷ ready) (e ∷ fds) ≡ record e { revents = 1 } ∷ marked ready fds
marked_first a ready e fds o h =
    ground (arith, o, marked_other a ready fds (ap (λ b. has b (fds_of_array fds)) o ∙ h))

skip_idle :
    (p : Program) (l : List PollFd) (start : ℕ) (q : PollFd) (es : List PollFd)
    → (q.revents == 0) ≡ true
    → set_revents p l start (q ∷ es) ≡ set_revents p l (suc start) es
unfolding set_revents
skip_idle p l start q es h = rw (h, set_revents) refl

ready_fds_idle :
    (p : Program) (q : PollFd) (es : List PollFd)
    → (q.revents == 0) ≡ true
    → ready_fds p (q ∷ es) ≡ ready_fds p es
ready_fds_idle p q es h = rw h refl

stop_ready :
    (p : Program) (l : List PollFd) (start : ℕ) (q : PollFd) (es : List PollFd) {i : ℕ}
    → (q.revents == 0) ≡ false
    → find_from (originalfd p q.fd) start l ≡ some i
    → set_revents p l start (q ∷ es) ≡ set_revents p (mark l i) (suc i) es
unfolding set_revents
stop_ready p l start q es h found = rw (h, set_revents) (rw (found, set_revents) refl)

ready_fds_ready :
    (p : Program) (q : PollFd) (es : List PollFd)
    → (q.revents == 0) ≡ false
    → ready_fds p (q ∷ es) ≡ originalfd p q.fd ∷ ready_fds p es
ready_fds_ready p q es h = rw h refl

marked_kept :
    (ready : List Word) (e : PollFd) (fds : List PollFd)
    → has e.fd ready ≡ false
    → marked ready (e ∷ fds) ≡ e ∷ marked ready fds
marked_kept ready e fds h = ground (arith, h)

set_revents_from :
    (p : Program) {fds es : List PollFd} (pre : List PollFd) (start : ℕ)
    → IsAligned p fds es
    → Distinct (fds_of_array fds)
    → AreApart pre fds
    → start ≤ length pre
    → set_revents p (pre ++ fds) start es ≡ some (pre ++ marked (ready_fds p es) fds)
unfolding set_revents
set_revents_from p pre start (rest_idle {es} i) d apart b =
    set_revents_idle p (pre ++ []) start es i
set_revents_from p pre start (left_out {e} {fds} {es} al) d apart b =
    advance p pre e fds es _ _ start
      (marked_kept (ready_fds p es) e fds (ready_fds-IsAligned e.fd al d.0))
      (set_revents_from p (pre ++ e ∷ []) start al d.1 (AreApart-next pre e e fds refl d.0 apart)
        (omega (arith, length-snoc pre e)))
set_revents_from p pre start (polled_as {e} {q} {fds} {es} o al) d apart b =
    let e' : PollFd = record e { revents = 1 } in
    elim (Bool-cases (q.revents == 0)) [
      | inl idle ↦
          skip_idle p (pre ++ e ∷ fds) start q es idle
          ∙ advance p pre e fds es _ _ (suc start)
              (marked_kept (ready_fds p es) e fds (ready_fds-IsAligned e.fd al d.0))
              (set_revents_from p (pre ++ e ∷ []) (suc start) al d.1
                (AreApart-next pre e e fds refl d.0 apart) (omega (arith, length-snoc pre e)))
          ∙ ap (λ r. some (pre ++ marked r (e ∷ fds))) (sym (ready_fds_idle p q es idle))
      | inr busy ↦
          let found =
            find_from_behind (originalfd p q.fd) start pre e fds b
              (apart (originalfd p q.fd) (ground (arith, o))) (sym o) in
          stop_ready p (pre ++ e ∷ fds) start q es busy found
          ∙ ap (λ l. set_revents p l (suc (length pre)) es) (mark_behind pre e fds)
          ∙ advance p pre e' fds es _ _ (suc (length pre))
              (marked_first (originalfd p q.fd) (ready_fds p es) e fds o d.0)
              (set_revents_from p (pre ++ e' ∷ []) (suc (length pre)) al d.1
                (AreApart-next pre e e' fds refl d.0 apart) (omega (arith, length-snoc pre e')))
          ∙ ap (λ r. some (pre ++ marked r (e ∷ fds))) (sym (ready_fds_ready p q es busy))
    ]

-- The user's descriptors are distinct, and the polled entries stand for some of the user's in their
-- order, with nothing ready behind them. Then the scan stays inside of the array, and marks exactly
-- the entries of descriptors that are ready.
pub set_revents-marked :
    {fds es : List PollFd} (p : Program)
    → IsAligned p fds es
    → Distinct (fds_of_array fds)
    → set_revents p fds 0 es ≡ some (marked (ready_fds p es) fds)
set_revents-marked p al d = set_revents_from p [] 0 al d (λ a h. refl) (omega arith)
