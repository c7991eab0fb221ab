-- ===== src/Examples/Interest.antt =====
-- A program removes its bound descriptor from an epoll instance, in a world that keeps a list of
-- interest.
use open_dsu.Prelude.{◌≡◌, refl, [], ◌∷◌, ◌&&◌, Option, none, some, arith, ◌==◌, if◌then◌else◌}
use open_dsu.Prelude.Words.{Word}
use open_dsu.Os.{Os, EpollEvent}
use open_dsu.State.{Program, search, sockets_search_fd}
use open_dsu.Epoll.{epoll_ctl_add, epoll_ctl_del, no_event}
use open_dsu.Epoll.Handlers.{
  epoll_ctl, epoll_shadowfd, epoll_originalfd, epoll_internal_conn, pre_epoll, post_epoll,
  handle_all_epoll, handle_conn_epoll,
}
use open_dsu.Epoll.Interest.{HasInterest, or_else, epoll_ctl-epoll_originalfd}
use open_dsu.Epoll.Around.{post_epoll-pre_epoll}
use open_dsu.Core.{forall_sockets}
use open_dsu.Examples.World.{State, small, start, web, plain_socket, server}

abbrev after_ctl :
    Word → Word → Option EpollEvent → (Word → Option EpollEvent) → Word → Option EpollEvent
after_ctl op fd none watched d = if (op == epoll_ctl_del) && (d == fd) then none else watched d
after_ctl op fd (some e) watched d =
    if d == fd then (if op == epoll_ctl_add then or_else (watched d) e else some e) else watched d

abbrev attentive : Os
attentive = record small {
  epoll_ctl = λ epfd op fd e w. (0, record w { interest = after_ctl op fd e w.interest });
}

attentive-HasInterest : HasInterest attentive 11
attentive-HasInterest = record {
  watched = λ d w. w.interest d;
  adds = λ fd d e w. ground arith;
  deletes = λ fd d w. ground arith;
  watched-sem_wait = λ p d w. refl;
  watched-sem_trywait = λ p d w. ground arith;
  watched-sem_post = λ p d w. refl;
}

-- The program watches descriptor 5.
abbrev watching : State
watching = record start { interest = λ d. if d == 5 then some web.ev else none }

-- The connection 14 to a new version and the descriptors 7 and 8 are watched in between. Nothing
-- happens on them.
abbrev quiet : EpollEvent
quiet = record { events = 0; payload = 0 }

abbrev two_sockets : Program
two_sockets = record server { binds = web ∷ plain_socket ∷ [] }

post_epoll-pre_epoll_example :
    let (l1, w1) = pre_epoll attentive quiet 11 two_sockets.binds watching in
    (post_epoll attentive (record two_sockets { binds = l1 }) 11 1 (quiet ∷ []) w1).1.interest 5
    ≡ some web.ev
unfolding attentive-HasInterest epoll_shadowfd epoll_internal_conn forall_sockets pre_epoll
    handle_all_epoll handle_conn_epoll
post_epoll-pre_epoll_example =
    post_epoll-pre_epoll attentive 11 attentive-HasInterest quiet two_sockets 1 (quiet ∷ []) 5
      watching (pre_epoll attentive quiet 11 two_sockets.binds watching).1
      (refl, refl, (refl, refl, tt)) refl refl

epoll_ctl-epoll_originalfd_example :
    let (s1, w1) = epoll_shadowfd attentive 11 web watching in
    let w2 = (epoll_originalfd attentive 11 s1 w1).1 in
    let ((r, p'), w3) = epoll_ctl attentive server 11 epoll_ctl_del 5 none w2 in
    (w3.interest 5 ≡ some web.ev)
    × (sockets_search_fd p'.binds 5 ≡ some (record web { ev = no_event }))
unfolding attentive-HasInterest search
epoll_ctl-epoll_originalfd_example =
    epoll_ctl-epoll_originalfd attentive 11 attentive-HasInterest server web watching refl
      (omega arith) (omega arith)
