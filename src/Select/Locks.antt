-- ===== src/Select/Locks.antt =====
-- The lock on a socket that two versions share (src/event_handlers/select.c).
use open_dsu.Prelude.{
  false, ◌≡◌, ◌⊎◌, refl, inl, inr, ◌==◌, Bool, if◌then◌else◌, subst, some, Option, List, [], ◌∷◌,
  arith, All, Bool-cases,
}
use open_dsu.Prelude.Words.{Word, Ptr, minus_one}
use open_dsu.Os.{Os, FdSet, Timeout}
use open_dsu.State.{Socket, Program}
use open_dsu.Core.{Run, returns, exits, initialize_event}
use open_dsu.Core.Event.{Run-cases, Follows, initialize_event-Follows}
use open_dsu.Core.Locks.{HasLocks, IsUnlocked, is_noted, is_noted_in}
use open_dsu.Select.{Globals, pass, handle_step, post_select}
use open_dsu.Select.Loop.{Round, pre_step, sniff_sets, select_round}

-- A round fails, or leaves no bound socket locked, or the process ends with success.
abbrev pub Releases : {W : Type 0} → Run W Round → Type 0
Releases (returns r w) = (r.result ≡ some minus_one) ⊎ All IsUnlocked r.program.binds
Releases (exits code w) = code ≡ 0

released :
    {W : Type 0} (r : Word) (over : Bool) (x y z : Round) (w w' : W)
    → x.result ≡ some r
    → All IsUnlocked y.program.binds
    → All IsUnlocked z.program.binds
    → Releases (if r == minus_one then returns x w else if over then returns y w' else returns z w')
released r over x y z w w' h a b = elim (Bool-cases (r == minus_one)) [
  | inl failed ↦ rw failed (inl (ground arith))
  | inr fine ↦
      rw fine (elim (Bool-cases over) [ inl again ↦ rw again (inr a) | inr done ↦ rw done (inr b) ])
]

module _ (os : Os) where
  post_pass-IsUnlocked :
      (l : List Socket) (readfds : Option FdSet) (w : os.World)
      → All IsUnlocked (pass (post_select os) l readfds w).0.0
  unfolding pass post_select
  post_pass-IsUnlocked [] readfds w = tt
  post_pass-IsUnlocked (s ∷ l) readfds w =
      let ((s', readfds'), w') = post_select os s readfds w in
      (ground arith, post_pass-IsUnlocked l readfds' w')

  post_select-held :
      (locks : HasLocks os) (q : Ptr) (s : Socket) (readfds : Option FdSet) (w : os.World)
      → locks.held q (post_select os s readfds w).1
        ≡ (if is_noted q s then false else locks.held q w)
  unfolding post_select
  post_select-held locks q s readfds w = ground (arith, locks.held-sem_post s.fd_sem q w)

  post_pass-held :
      (locks : HasLocks os) (q : Ptr) (l : List Socket) (readfds : Option FdSet) (w : os.World)
      → locks.held q (pass (post_select os) l readfds w).1
        ≡ (if is_noted_in q l then false else locks.held q w)
  unfolding pass
  post_pass-held locks q [] readfds w = refl
  post_pass-held locks q (s ∷ l) readfds w =
      let ((s', readfds'), w') = post_select os s readfds w in
      ground (arith, post_select-held locks q s readfds w, post_pass-held locks q l readfds' w')

  -- Where a post gives a semaphore back: `dsu_post_select` for all bound sockets leaves none noted as
  -- locked, and has given back the semaphores of those that were, and no others.
  pub post_pass-releases :
      (locks : HasLocks os) (q : Ptr) (l : List Socket) (readfds : Option FdSet) (w : os.World)
      → let ((l', readfds'), w') = pass (post_select os) l readfds w in
        All IsUnlocked l' × (locks.held q w' ≡ (if is_noted_in q l then false else locks.held q w))
  post_pass-releases locks q l readfds w =
      (post_pass-IsUnlocked l readfds w, post_pass-held locks q l readfds w)

  -- Whatever the calls answer: a round of `select` in which `select` of the C library does not fail
  -- leaves no bound socket noted as locked, also where it starts over; or the process ends with success.
  pub select_round-Releases :
      (p : Program) (nfds : Word) (readfds writefds exceptfds : Option FdSet)
      (timeout : Option Timeout) (correction : Word) (w : os.World)
      → Releases (select_round os p nfds readfds writefds exceptfds timeout correction w)
  unfolding select_round
  select_round-Releases p nfds readfds writefds exceptfds timeout correction w =
      elim (Run-cases (initialize_event os p w)) [
        | inl (code, w', ended) ↦
            rw (ended, select_round) (subst (Follows p) ended (initialize_event-Follows os p w))
        | inr (p1, w1, started) ↦
            let globals : Globals = record { max_fds = nfds; transfer = 0 } in
            let ((binds1, (rd1, g)), w2) = pass (pre_step os) p1.binds (readfds, globals) w1 in
            let (rd2, max_fds) = sniff_sets os binds1 rd1 g.max_fds in
            let tv : Option Timeout =
              if g.transfer == 1 then some (record { sec = 0; rest = 100 }) else timeout in
            let ((r, rd3, wr3, ex3), w3) = os.select max_fds rd2 writefds exceptfds tv w2 in
            let ((binds2, (rd4, n)), w4) = pass (handle_step os) binds1 (rd3, correction) w3 in
            let unlocked = post_pass-IsUnlocked binds2 rd4 w4 in
            rw (started, select_round) (released r _ _ _ _ _ _ refl unlocked unlocked)
      ]
