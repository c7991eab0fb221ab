-- ===== src/Poll/Locks.antt =====
-- The lock on a socket that two versions share (src/event_handlers/poll.c).
use open_dsu.Prelude.{
  if◌then◌else◌, ◌≡◌, true, false, List, arith, All, ℕ, Option, none, some, inl, inr, subst,
  Bool-cases, Option-cases, ltb, length,
}
use open_dsu.Prelude.Arrays.{take}
use open_dsu.Select.{pass}
use open_dsu.Poll.{nfds_max, padded, sniff_all_poll}
use open_dsu.Prelude.Words.{Word, Ptr, lt_int}
use open_dsu.Os.{Os, PollFd, Timeout}
use open_dsu.State.{Socket, Program}
use open_dsu.Core.{Run, returns, exits, initialize_event}
use open_dsu.Core.Event.{Run-cases, Follows, initialize_event-Follows}
use open_dsu.Core.Pass.{All-forall_sockets}
use open_dsu.Core.Locks.{HasLocks, IsUnlocked, is_noted, is_noted_in, forall_sockets-held}
use open_dsu.Poll.Handlers.{unlock, post_poll, polled, pre_poll, ppoll, Polled, handle_conn_poll}

-- A call that tells the program of an event leaves no bound socket locked.
abbrev TellsUnlocked : Option Polled → Type 0
TellsUnlocked none = Unit {0}
TellsUnlocked (some r) = lt_int 0 r.result ≡ true → All IsUnlocked r.program.binds

abbrev pub PollReleases : {W : Type 0} → Run W (Option Polled) → Type 0
PollReleases (returns r w) = TellsUnlocked r
PollReleases (exits code w) = code ≡ 0

module _ (os : Os) where
  unlock-IsUnlocked : (s : Socket) (w : os.World) → IsUnlocked (unlock os s w).0
  unfolding unlock
  unlock-IsUnlocked s w = ground arith

  post_poll-IsUnlocked :
      (p : Program) (fds entries : List PollFd) (w : os.World)
      → All IsUnlocked (post_poll os p fds entries w).0.0.binds
  unfolding post_poll
  post_poll-IsUnlocked p fds entries w =
      All-forall_sockets IsUnlocked (unlock os) (unlock-IsUnlocked) p.binds w

  unlock-held :
      (locks : HasLocks os) (q : Ptr) (s : Socket) (w : os.World)
      → locks.held q (unlock os s w).1 ≡ (if is_noted q s then false else locks.held q w)
  unfolding unlock
  unlock-held locks q s w = ground (arith, locks.held-sem_post s.fd_sem q w)

  -- Where a post gives a semaphore back: `dsu_post_poll` leaves no bound socket noted as locked, and
  -- has given back the semaphores of those that were, and no others.
  pub post_poll-releases :
      (locks : HasLocks os) (p : Program) (fds entries : List PollFd) (q : Ptr) (w : os.World)
      → let ((p', told), w') = post_poll os p fds entries w in
        All IsUnlocked p'.binds
        × (locks.held q w' ≡ (if is_noted_in q p.binds then false else locks.held q w))
  unfolding post_poll
  post_poll-releases locks p fds entries q w = (
    post_poll-IsUnlocked p fds entries w,
    forall_sockets-held (locks.held q) q (unlock os) (unlock-held locks q) p.binds w,
  )

  polled-TellsUnlocked :
      (p : Program) (fds : List PollFd) (nfds : ℕ) (entries : List PollFd) (n : ℕ) (result : Word)
      (w : os.World)
      → TellsUnlocked (polled os p fds nfds entries n result w).0
  unfolding polled
  polled-TellsUnlocked p fds nfds entries n result w = elim (Bool-cases (lt_int 0 result)) [
    | inr quiet ↦ rw (quiet, polled) (ground arith)
    | inl told ↦
        let ((l1, n1), w1) = pass (handle_conn_poll os entries nfds n) p.binds 0 w in
        let p2 : Program = record p { binds = l1 } in
        let free = post_poll-IsUnlocked p2 fds (take n entries) w1 in
        elim (Option-cases (post_poll os p2 fds (take n entries) w1).0.1) [
          | inl outside ↦ rw (told, polled) (rw (outside, polled) tt)
          | inr (fds', marked) ↦ rw (told, polled) (rw (marked, polled) (λ more. free))
        ]
  ]

  -- Whatever the calls answer: where `ppoll` tells the program of an event, no bound socket is
  -- noted as locked; or the process ends with success.
  pub ppoll-PollReleases :
      (p : Program) (fds : List PollFd) (timeout_ts : Option Timeout) (sigmask : Ptr) (w : os.World)
      → PollReleases (ppoll os p fds timeout_ts sigmask w)
  unfolding ppoll
  ppoll-PollReleases p fds timeout_ts sigmask w = elim (Run-cases (initialize_event os p w)) [
    | inl (code, w', ended) ↦
        rw (ended, ppoll) (subst (Follows p) ended (initialize_event-Follows os p w))
    | inr (p1, w1, begun) ↦
        let nfds : ℕ = length fds in
        let ((p2, watched), w2) = pre_poll os p1 nfds (padded nfds_max fds) w1 in
        elim (Bool-cases (ltb nfds_max nfds)) [
          | inl many ↦ rw (begun, ppoll) (rw (many, ppoll) tt)
          | inr fits ↦ elim (Option-cases watched) [
            | inl outside ↦ rw (begun, ppoll) (rw (fits, ppoll) (rw (outside, ppoll) tt))
            | inr ((n, entries), packed) ↦
                elim (Option-cases (sniff_all_poll p2.binds (entries, n))) [
                  | inl outside ↦
                      rw (begun, ppoll)
                        (rw (fits, ppoll) (rw (packed, ppoll) (rw (outside, ppoll) tt)))
                  | inr ((entries', n'), sniffed) ↦
                      let ((result, entries''), w3) = os.ppoll entries' n' timeout_ts sigmask w2 in
                      rw (begun, ppoll)
                        (rw (fits, ppoll)
                          (rw (packed, ppoll)
                            (rw (sniffed, ppoll)
                              (polled-TellsUnlocked p2 fds nfds entries'' n' result w3))))
                ]
          ]
        ]
  ]
