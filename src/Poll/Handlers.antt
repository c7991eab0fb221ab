-- ===== src/Poll/Handlers.antt =====
-- The handlers of src/event_handlers/poll.c, and `ppoll` and `poll` themselves.
use open_dsu.Prelude.{
  ℕ, zero, suc, ◌+◌, ◌-◌, ◌*◌, ◌/◌, ◌%◌, ◌&&◌, Option, none, some, List, [], ◌∷◌, ◌==◌, ltb,
  if◌then◌else◌, length,
}
use open_dsu.Prelude.Words.{Word, Ptr, null, minus_one, lt_int, incr, truth}
use open_dsu.Prelude.Monad.{Cmd, pure, ◌>>=◌, ◌>>◌, get}
use open_dsu.Prelude.Arrays.{take}
use open_dsu.Os.{Os, PollFd, Timeout}
use open_dsu.State.{Socket, Program, sockets_search_fd, has_fd, modify}
use open_dsu.Core.{dsu_transfer, forall_sockets, Run, returns, exits, initialize_event}
use open_dsu.Messages.{settle, accept_conn, answer}
use open_dsu.Select.{pass}
use open_dsu.Poll.{nfds_max, compress_fds, sniff_all_poll, set_revents, drop, padded}

-- What a call of `ppoll` gives: its result, the user's array and the value of `correction`.
pub record Polled : Type 0 where
  pub program : Program
  pub result : Word
  pub fds : List PollFd
  pub correction : Word

module _ (os : Os) where
  open os use {World}

  -- One entry of `dsu_pre_poll`, which is the descriptor of a bound socket.
  unfoldable pub pre_poll_bound : Socket → PollFd → Cmd World (Socket × PollFd)
  pre_poll_bound s e =
      let inactive : PollFd = record e { fd = minus_one; revents = 0 } in
      let watched : PollFd = record inactive { fd = s.shadowfd } in
      if truth s.monitoring
      then (do
        r ← os.sem_wait s.status_sem
        if r == 0
            then (do
              t ← get (os.load s.status dsu_transfer)
              result ←
                  (if lt_int 0 t && truth s.blocking
                    then (do
                      l ← os.sem_trywait s.fd_sem
                      pure (if l == 0 then (record s { locked = 1 }, watched) else (s, inactive)))
                    else pure (s, watched))
              os.sem_post s.status_sem
              pure result)
            else pure (s, inactive))
      else pure (s, inactive)

  unfoldable pub pre_poll_entry : Program → PollFd → Cmd World (Program × PollFd)
  pre_poll_entry p e = elim (sockets_search_fd p.binds e.fd) [
    | none ↦ pure (p, e)
    | some s ↦ (do
      (s', e') ← pre_poll_bound s e
      pure (record p { binds = modify (has_fd e.fd) (λ _. s') p.binds }, e'))
  ]

  -- The loop over the first `nfds` entries.
  unfoldable pub pre_poll_entries : ℕ → Program → List PollFd → Cmd World (Program × List PollFd)
  pre_poll_entries zero p fds = pure (p, fds)
  pre_poll_entries (suc n) p [] = pure (p, [])
  pre_poll_entries (suc n) p (e ∷ fds) = do
    (p', e') ← pre_poll_entry p e
    (p'', fds') ← pre_poll_entries n p' fds
    pure (p'', e' ∷ fds')

  unfoldable pub pre_poll :
      Program → ℕ → List PollFd → Cmd World (Program × Option (ℕ × List PollFd))
  pre_poll p nfds fds = do
    (p', fds') ← pre_poll_entries nfds p fds
    pure (p', compress_fds nfds fds')

  -- The inner loop over the internal connections that are left, for one entry.
  unfoldable pub poll_respond : List Word → Socket → PollFd → Cmd World Socket
  poll_respond [] s e = pure s
  poll_respond (c ∷ rest) s e =
      if e.fd == c
      then (do (o, s') ← answer os s c; poll_respond rest (settle o c s') e)
      else poll_respond rest s e

  -- `dsu_handle_conn_poll` on the entries from `start` to `end`, with `correction`.
  unfoldable pub handle_entries : List PollFd → Socket → Word → Cmd World (Socket × Word)
  handle_entries [] s n = pure (s, n)
  handle_entries (e ∷ fds) s n =
      if e.revents == 0
      then handle_entries fds s n
      else if e.fd == s.comfd
      then (do s' ← accept_conn os s; handle_entries fds s' (incr n))
      else (do s' ← poll_respond s.comfds s e; handle_entries fds s' (incr n))

  unfoldable pub handle_conn_poll : List PollFd → ℕ → ℕ → Socket → Word → Cmd World (Socket × Word)
  handle_conn_poll fds start end s n = handle_entries (take (end - start) (drop start fds)) s n

  unfoldable pub unlock : Socket → Cmd World Socket
  unlock s =
      if s.locked == 1 then (do os.sem_post s.fd_sem; pure (record s { locked = 0 })) else pure s

  unfoldable pub post_poll :
      Program → List PollFd → List PollFd → Cmd World (Program × Option (List PollFd))
  post_poll p fds entries = do
    binds ← forall_sockets unlock p.binds
    let p' = record p { binds = binds }
    pure (p', set_revents p' fds 0 entries)

  -- `ppoll` behind `ppoll` of the C library; `entries` is `_fds`.
  unfoldable pub polled :
      Program → List PollFd → ℕ → List PollFd → ℕ → Word → Cmd World (Option Polled)
  polled p fds nfds entries n result =
      if lt_int 0 result
      then (do
        (binds, correction) ← pass (handle_conn_poll entries nfds n) p.binds 0
        (p', told) ← post_poll (record p { binds = binds }) fds (take n entries)
        pure (elim told [
          | none ↦ none
          | some fds' ↦ some (record {
            program = p';
            result = (result + 0x1_0000_0000 - correction) % 0x1_0000_0000;
            fds = fds';
            correction = correction;
          })
        ]))
      else pure (some (record { program = p; result = result; fds = fds; correction = 0 }))

  -- `nfds` is the length of `fds`. The copy of more than `nfds_max` entries would leave `_fds`.
  unfoldable pub ppoll :
      Program → List PollFd → Option Timeout → Ptr → World → Run World (Option Polled)
  ppoll p fds timeout_ts sigmask w = elim (initialize_event os p w) [
    | exits code w' ↦ exits code w'
    | returns p1 w1 ↦
        let nfds = length fds in
        let ((p2, watched), w2) = pre_poll p1 nfds (padded nfds_max fds) w1 in
        if ltb nfds_max nfds then returns none w1 else elim watched [
          | none ↦ returns none w2
          | some (n, entries) ↦ elim (sniff_all_poll p2.binds (entries, n)) [
            | none ↦ returns none w2
            | some (entries', n') ↦
                let ((result, entries''), w3) = os.ppoll entries' n' timeout_ts sigmask w2 in
                let (out, w4) = polled p2 fds nfds entries'' n' result w3 in returns out w4
          ]
        ]
  ]

  unfoldable pub poll : Program → List PollFd → Word → World → Run World (Option Polled)
  poll p fds timeout w =
      ppoll p fds
        (if lt_int timeout 0
          then none
          else some (record { sec = timeout / 1000; rest = timeout % 1000 * 1_000_000 }))
        null w

  -- `__poll_chk` and `__ppoll_chk`, which newer versions of the C library call; the last argument is
  -- the size of the array.
  unfoldable pub poll_chk : Program → List PollFd → Word → ℕ → World → Run World (Option Polled)
  poll_chk p fds timeout fdslen w = poll p fds timeout w

  unfoldable pub ppoll_chk :
      Program → List PollFd → Option Timeout → Ptr → ℕ → World → Run World (Option Polled)
  ppoll_chk p fds timeout ss fdslen w = ppoll p fds timeout ss w
