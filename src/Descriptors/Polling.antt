-- ===== src/Descriptors/Polling.antt =====
-- `ppoll`, as a whole, keeps to the open descriptors.
use open_dsu.Prelude.{
  ℕ, refl, Option, none, some, List, arith, ltb, Bool-cases, Option-cases, inl, inr, length,
}
use open_dsu.Prelude.Words.{Word, Ptr, lt_int}
use open_dsu.Prelude.Arrays.{take}
use open_dsu.Os.{Os, PollFd, Timeout}
use open_dsu.State.{Program}
use open_dsu.Core.{Run, returns, exits, forall_sockets, initialize_event}
use open_dsu.Core.Event.{Run-cases}
use open_dsu.Select.{pass}
use open_dsu.Poll.{nfds_max, padded, compress_fds, sniff_all_poll, set_revents}
use open_dsu.Poll.Handlers.{
  Polled, pre_poll, pre_poll_entries, handle_conn_poll, unlock, post_poll, polled, ppoll,
}
use open_dsu.Descriptors.{HasDescriptors}
use open_dsu.Descriptors.Pass.{ConservesAll-trans, forall_sockets-Conserves, pass-Conserves}
use open_dsu.Descriptors.Poll.{
  unlock-Conserves, handle_conn_poll-Conserves, pre_poll_entries-Conserves,
}
use open_dsu.Descriptors.Events.{ConservesProgram, ConservesAll-before}
use open_dsu.Descriptors.Handling.{continued, started}

module _ (os : Os) (d : HasDescriptors os) where
  -- A call that gives an answer keeps to what is open.
  abbrev pub ConservesPolled : Program → os.World → Option Polled → os.World → Type 0
  ConservesPolled p w none w' = Unit {0}
  ConservesPolled p w (some r) w' = ConservesProgram os d p w r.program w'

  abbrev pub ConservesPoll : Program → os.World → Run os.World (Option Polled) → Type 0
  ConservesPoll p w (returns o w') = ConservesPolled p w o w'
  ConservesPoll p w (exits code w') = Unit {0}

  polled-Conserves :
      (p : Program) (fds : List PollFd) (nfds : ℕ) (entries : List PollFd) (n : ℕ) (result : Word)
      (w : os.World)
      → let (out, w') = polled os p fds nfds entries n result w in ConservesPolled p w out w'
  unfolding polled post_poll
  polled-Conserves p fds nfds entries n result w = elim (Bool-cases (lt_int 0 result)) [
    | inr quiet ↦ rw (quiet, polled) (refl, (refl, λ b nb. omega arith))
    | inl told ↦
        let ((l1, n1), w1) = pass (handle_conn_poll os entries nfds n) p.binds 0 w in
        let (l2, w2) = forall_sockets (unlock os) l1 w1 in
        let p2 : Program = record p { binds = l2 } in
        let kept : ConservesProgram os d p w p2 w2 = (
          refl,
          ConservesAll-trans os d p.binds l1 l2 w w1 w2
              (pass-Conserves os d (handle_conn_poll os entries nfds n)
                (handle_conn_poll-Conserves os d entries nfds n) p.binds 0 w)
              (forall_sockets-Conserves os d (unlock os) (unlock-Conserves os d) l1 w1),
        ) in
        elim (Option-cases (set_revents p2 fds 0 (take n entries))) [
          | inl outside ↦ rw (told, polled) (rw (outside, polled) tt)
          | inr (fds', marked) ↦ rw (told, polled) (rw (marked, polled) kept)
        ]
  ]

  polled_after :
      (p p1 : Program) (w w1 w2 : os.World) (o : Option Polled)
      → ConservesProgram os d p w p1 w1
      → ConservesPolled p1 w1 o w2
      → ConservesPolled p w o w2
  polled_after p p1 w w1 w2 none a b = tt
  polled_after p p1 w w1 w2 (some r) a b = continued os d p p1 r.program w w1 w2 a b

  pub ppoll-Conserves :
      (p : Program) (fds : List PollFd) (timeout_ts : Option Timeout) (sigmask : Ptr) (w : os.World)
      → ConservesPoll p w (ppoll os p fds timeout_ts sigmask w)
  unfolding ppoll pre_poll
  ppoll-Conserves p fds timeout_ts sigmask w = elim (Run-cases (initialize_event os p w)) [
    | inl (code, w', ended) ↦ rw (ended, ppoll) tt
    | inr (p1, w1, begun) ↦
        let nfds : ℕ = length fds in
        let ((p2, fds2), w2) = pre_poll_entries os nfds p1 (padded nfds_max fds) w1 in
        let first = started os d p p1 w w1 begun in
        let (same, sums) = pre_poll_entries-Conserves os d nfds p1 (padded nfds_max fds) w1 in
        elim (Bool-cases (ltb nfds_max nfds)) [
          | inl many ↦ rw (begun, ppoll) (rw (many, ppoll) tt)
          | inr fits ↦ elim (Option-cases (compress_fds nfds fds2)) [
            | inl outside ↦ rw (begun, ppoll) (rw (fits, ppoll) (rw (outside, ppoll) tt))
            | inr ((n, entries), packed) ↦
                elim (Option-cases (sniff_all_poll p2.binds (entries, n))) [
                  | inl outside ↦
                      rw (begun, ppoll)
                        (rw (fits, ppoll) (rw (packed, ppoll) (rw (outside, ppoll) tt)))
                  | inr ((entries', n'), sniffed) ↦
                      let ((result, entries''), w3) = os.ppoll entries' n' timeout_ts sigmask w2 in
                      let (out, w4) = polled os p2 fds nfds entries'' n' result w3 in
                      rw (begun, ppoll)
                        (rw (fits, ppoll)
                          (rw (packed, ppoll)
                            (rw (sniffed, ppoll)
                              (polled_after p p2 w w3 w4 out
                                (continued os d p p1 p2 w w1 w3 first (
                                  same,
                                  ConservesAll-before os d p1.binds p2.binds w1 w2 w3
                                      (λ b. d.ppoll_keeps entries' n' timeout_ts sigmask b w2) sums,
                                ))
                                (polled-Conserves p2 fds nfds entries'' n' result w3)))))
                ]
          ]
        ]
  ]
