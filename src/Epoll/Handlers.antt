-- ===== src/Epoll/Handlers.antt =====
-- The handlers of src/event_handlers/epoll.c, and the wrapped calls themselves.
use open_dsu.Prelude.{
  ℕ, zero, suc, ◌&&◌, ◌||◌, not, Option, none, some, List, [], ◌∷◌, ◌==◌, if◌then◌else◌,
}
use open_dsu.Prelude.Words.{Word, minus_one, lt_int, truth}
use open_dsu.Prelude.Monad.{Cmd, pure, ◌>>=◌, ◌>>◌, get}
use open_dsu.Os.{Os, EpollEvent}
use open_dsu.State.{Socket, Program, sockets_search_fd, modify, has_fd}
use open_dsu.Core.{dsu_transfer, forall_sockets, Run, returns, exits, initialize_event}
use open_dsu.Messages.{settle, accept_conn, Outcome, answer, peer_closed}
use open_dsu.Epoll.{
  epoll_ctl_add, epoll_ctl_del, epoll_ctl_mod, epollin, no_event, data_fd, with_data_fd,
  store_event, rounds_of, correct_events,
}

module _ (os : Os) where
  open os use {World}

  unfoldable pub epoll_create1 : Word → Cmd World Word
  epoll_create1 flags = os.epoll_create1 flags

  unfoldable pub epoll_create : Word → Cmd World Word
  epoll_create size = os.epoll_create size

  unfoldable pub epoll_ctl :
      Program → Word → Word → Word → Option EpollEvent → Cmd World (Word × Program)
  epoll_ctl p epfd op fd event = elim (sockets_search_fd p.binds fd) [
    | none ↦ (do r ← os.epoll_ctl epfd op fd event; pure (r, p))
    | some s ↦ (do
      let keep =
          if op == epoll_ctl_add || op == epoll_ctl_mod
          then store_event event
          else store_event (some no_event)
      r ← os.epoll_ctl epfd op s.shadowfd event
      pure (r, record p { binds = modify (has_fd fd) keep p.binds }))
  ]

  -- `stale` is the memory of the local `ev`.
  unfoldable pub epoll_add_conns : EpollEvent → Word → List Word → Cmd World (Unit {0})
  epoll_add_conns stale epollfd [] = pure tt
  epoll_add_conns stale epollfd (c ∷ rest) = do
    os.epoll_ctl epollfd epoll_ctl_add c (some (with_data_fd (record stale { events = epollin }) c))
    epoll_add_conns stale epollfd rest

  unfoldable pub epoll_internal_conn : EpollEvent → Word → Socket → Cmd World Socket
  unfolding epoll_add_conns
  epoll_internal_conn stale epollfd s = do
    (if truth s.monitoring
        then (do
          os.epoll_ctl epollfd epoll_ctl_add s.comfd
              (some (with_data_fd (record stale { events = epollin }) s.comfd))
          pure tt)
        else pure tt)
    epoll_add_conns stale epollfd s.comfds
    pure s

  -- An event whose peer has closed is marked, and leaves epoll.
  unfoldable pub epoll_gone : Word → Word → Outcome → EpollEvent → Cmd World EpollEvent
  epoll_gone epollfd c peer_closed e = do
    os.epoll_ctl epollfd epoll_ctl_del c none
    pure (with_data_fd e minus_one)
  epoll_gone epollfd c _ e = pure e

  -- The inner loop over the internal connections that are left, for one event.
  unfoldable pub epoll_respond :
      Word → List Word → Socket → EpollEvent → Cmd World (Socket × EpollEvent)
  epoll_respond epollfd [] s e = pure (s, e)
  epoll_respond epollfd (c ∷ rest) s e =
      if data_fd e == c
      then (do
        (o, s') ← answer os s c
        e' ← epoll_gone epollfd c o e
        epoll_respond epollfd rest (settle o c s') e')
      else epoll_respond epollfd rest s e

  -- One event of `dsu_handle_conn_epoll`.
  unfoldable pub epoll_handle_event : Word → Socket → EpollEvent → Cmd World (Socket × EpollEvent)
  unfolding epoll_respond
  epoll_handle_event epollfd s e =
      if e.events == 0
      then pure (s, e)
      else if data_fd e == s.comfd
      then (do s' ← accept_conn os s; pure (s', e))
      else epoll_respond epollfd s.comfds s e

  unfoldable pub handle_conn_epoll :
      Word → ℕ → Socket → List EpollEvent → Cmd World (Socket × List EpollEvent)
  unfolding epoll_handle_event
  handle_conn_epoll epollfd zero s events = pure (s, events)
  handle_conn_epoll epollfd (suc n) s [] = pure (s, [])
  handle_conn_epoll epollfd (suc n) s (e ∷ events) = do
    (s', e') ← epoll_handle_event epollfd s e
    (s'', events') ← handle_conn_epoll epollfd n s' events
    pure (s'', e' ∷ events')

  -- `dsu_forall_sockets(binds, dsu_handle_conn_epoll, …)`: the sockets share the array.
  unfoldable pub handle_all_epoll :
      Word → ℕ → List Socket → List EpollEvent → Cmd World (List Socket × List EpollEvent)
  handle_all_epoll epollfd n [] events = pure ([], events)
  handle_all_epoll epollfd n (s ∷ rest) events = do
    (s', events') ← handle_conn_epoll epollfd n s events
    (rest', events'') ← handle_all_epoll epollfd n rest events'
    pure (s' ∷ rest', events'')

  -- The watch on the shadow descriptor, which `dsu_epoll_shadowfd` sets.
  unfoldable pub epoll_watch : Word → Socket → Cmd World (Unit {0})
  epoll_watch epollfd s = do
    os.epoll_ctl epollfd epoll_ctl_add s.shadowfd (some (with_data_fd s.ev s.shadowfd))
    pure tt

  unfoldable pub epoll_shadowfd : Word → Socket → Cmd World Socket
  unfolding epoll_watch
  epoll_shadowfd epollfd s = do
    (if s.ev.events == 0
        then pure tt
        else (do os.epoll_ctl epollfd epoll_ctl_del s.fd none; pure tt))
    if truth s.monitoring && not (s.ev.events == 0)
        then (do
          r ← os.sem_wait s.status_sem
          if r == 0
              then (do
                t ← get (os.load s.status dsu_transfer)
                s' ←
                    (if lt_int 0 t && truth s.blocking
                      then (do
                        l ← os.sem_trywait s.fd_sem
                        if l == 0
                            then (do epoll_watch epollfd s; pure (record s { locked = 1 }))
                            else pure s)
                      else (do epoll_watch epollfd s; pure s))
                os.sem_post s.status_sem
                pure s')
              else pure s)
        else pure s

  unfoldable pub pre_epoll : EpollEvent → Word → List Socket → Cmd World (List Socket)
  pre_epoll stale epollfd binds = do
    binds' ← forall_sockets (epoll_shadowfd epollfd) binds
    forall_sockets (epoll_internal_conn stale epollfd) binds'

  unfoldable pub epoll_unlock : Socket → Cmd World Socket
  epoll_unlock s =
      if s.locked == 1 then (do os.sem_post s.fd_sem; pure (record s { locked = 0 })) else pure s

  unfoldable pub epoll_originalfd : Word → Socket → Cmd World Socket
  epoll_originalfd epollfd s = if s.ev.events == 0 then pure s else (do
    os.epoll_ctl epollfd epoll_ctl_del s.shadowfd none
    os.epoll_ctl epollfd epoll_ctl_add s.fd (some s.ev)
    pure s)

  -- The new program, and the answer to the caller.
  unfoldable pub post_epoll :
      Program
      → Word
      → Word
      → List EpollEvent
      → Cmd World (Program × Option (Word × List EpollEvent))
  post_epoll p epollfd nfds events = do
    (binds, events') ← handle_all_epoll epollfd (rounds_of nfds) p.binds events
    binds' ← forall_sockets epoll_unlock binds
    binds'' ← forall_sockets (epoll_originalfd epollfd) binds'
    let p' = record p { binds = binds'' }
    pure (p', correct_events p' nfds events')

  unfoldable pub epoll_wait :
      EpollEvent
      → Program
      → Word
      → List EpollEvent
      → Word
      → Word
      → World
      → Run World (Program × Option (Word × List EpollEvent))
  epoll_wait stale p epfd events maxevents timeout w = elim (initialize_event os p w) [
    | exits code w' ↦ exits code w'
    | returns p1 w1 ↦
        let (binds, w2) = pre_epoll stale epfd p1.binds w1 in
        let ((nfds, events'), w3) = os.epoll_wait epfd events maxevents timeout w2 in
        let (r, w4) = post_epoll (record p1 { binds = binds }) epfd nfds events' w3 in returns r w4
  ]
