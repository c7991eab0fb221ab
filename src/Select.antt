-- ===== src/Select.antt =====
-- src/event_handlers/select.c. `FD_SET`, `FD_CLR` and `FD_ISSET` act on the set as a predicate.
pub mod Sniff
pub mod Handle
pub mod Convert
pub mod Loop
pub mod Rounds
pub mod Told
pub mod Answer
pub mod Locks
use open_dsu.Prelude.{
  ℕ, zero, suc, ◌+◌, ◌-◌, ◌%◌, Bool, true, false, ◌&&◌, ◌||◌, not, Option, none, some, List, [],
  ◌∷◌, ◌==◌, if◌then◌else◌,
}
use open_dsu.Prelude.Words.{Word, minus_one, lt_int, incr, truth}
use open_dsu.Prelude.Monad.{Cmd, pure, ◌>>=◌, ◌>>◌, get}
use open_dsu.Os.{Os, FdSet, Timeout}
use open_dsu.State.{Socket, Program, internal_fd, socket_add_fds, socket_remove_fds}
use open_dsu.Core.{
  dsu_transfer, o_nonblock, forall_sockets, monitor_fd, termination_detection, terminate,
  start_worker, Run, returns, exits, initialize_event,
}
use open_dsu.Messages.{settle, answer, accept_conn}

abbrev pub fd_set : Word → FdSet → FdSet
fd_set fd set x = (x == fd) || set x

abbrev pub fd_clr : Word → FdSet → FdSet
fd_clr fd set x = not (x == fd) && set x

-- The globals `max_fds` and `transfer`.
pub record Globals : Type 0 where
  pub max_fds : Word
  pub transfer : Word

-- What the handlers of one call share: the set of descriptors to read, and the globals.
-- A pass over the sockets hands it on.
unfoldable pub pass :
    {W A : Type 0} → (Socket → A → Cmd W (Socket × A)) → List Socket → A → Cmd W (List Socket × A)
pass y [] a = pure ([], a)
pass y (s ∷ rest) a = do (s', a') ← y s a; (rest', a'') ← pass y rest a'; pure (s' ∷ rest', a'')

-- `if (max_fds < fd + 1) max_fds = fd + 1;`
abbrev pub reach : Word → Word → Word
reach max_fds fd = if lt_int max_fds (incr fd) then incr fd else max_fds

-- The internal connections are added to the set.
unfoldable pub sniff_conns : List Word → FdSet × Word → FdSet × Word
sniff_conns [] (set, max_fds) = (set, max_fds)
sniff_conns (c ∷ rest) (set, max_fds) = sniff_conns rest (fd_set c set, reach max_fds c)

unfoldable pub sniff_conn : Socket → FdSet × Word → FdSet × Word
unfolding sniff_conns
sniff_conn s (set, max_fds) =
    sniff_conns s.comfds
      (if truth s.monitoring then (fd_set s.comfd set, reach max_fds s.comfd) else (set, max_fds))

unfoldable pub sniff_all : List Socket → FdSet × Word → FdSet × Word
sniff_all [] state = state
sniff_all (s ∷ rest) state = sniff_all rest (sniff_conn s state)

module _ (os : Os) where
  open os use {World}

  -- The loop over the internal connections, with `correction`.
  unfoldable pub handle_conns :
      List Word → Socket → FdSet → Word → Cmd World (Socket × FdSet × Word)
  handle_conns [] s set correction = pure (s, set, correction)
  handle_conns (c ∷ rest) s set correction =
      if set c
      then (do
        (o, s') ← answer os s c
        let set' = fd_clr c set
        handle_conns rest (settle o c s') set' (incr correction))
      else handle_conns rest s set correction

  unfoldable pub handle_conn : Socket → FdSet → Word → Cmd World (Socket × FdSet × Word)
  handle_conn s set correction =
      if set s.comfd
      then (do
        s' ← accept_conn os s
        handle_conns s'.comfds s' (fd_clr s.comfd set) (incr correction))
      else handle_conns s.comfds s set correction

  unfoldable pub pre_select : Socket → FdSet → Globals → Cmd World (Socket × FdSet × Globals)
  pre_select s set g =
      if set s.fd
      then (if truth s.monitoring
          then (do
            let cleared = fd_clr s.fd set
            let watched = fd_set s.shadowfd cleared
            r ← os.sem_wait s.status_sem
            if r == 0
                then (do
                  t ← get (os.load s.status dsu_transfer)
                  let g1 = if lt_int 0 t then record g { transfer = 1 } else g
                  let g2 = record g1 { max_fds = reach g1.max_fds s.shadowfd }
                  result ←
                      (if truth g1.transfer && truth s.blocking
                        then (do
                          l ← os.sem_trywait s.fd_sem
                          pure (
                              if l == 0
                              then (record s { locked = 1 }, watched, g2)
                              else (s, cleared, g1)))
                        else pure (s, watched, g2))
                  os.sem_post s.status_sem
                  pure result)
                else pure (s, cleared, g))
          else pure (s, fd_clr s.fd set, g))
      else pure (s, set, g)

  -- `readfds` is `none` where the pointer is NULL.
  unfoldable pub post_select : Socket → Option FdSet → Cmd World (Socket × Option FdSet)
  post_select s readfds = do
    s' ←
        (if s.locked == 1
          then (do os.sem_post s.fd_sem; pure (record s { locked = 0 }))
          else pure s)
    pure (
      s',
      elim readfds [
        | none ↦ none
        | some set ↦ some (if set s.shadowfd then fd_set s.fd (fd_clr s.shadowfd set) else set)
      ],
    )

  abbrev pub handle_step : Socket → Option FdSet × Word → Cmd World (Socket × (Option FdSet × Word))
  handle_step s (none, n) = pure (s, (none, n))
  handle_step s (some set, n) =
      λ w. let ((s', set', n'), w') = handle_conn s set n w in ((s', (some set', n')), w')
