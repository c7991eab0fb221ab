-- ===== src/Epoll/Interest.antt =====
-- What src/event_handlers/epoll.c does to the descriptors that an epoll instance watches.
use open_dsu.Prelude.{
  ◌≡◌, ◌≢◌, refl, false, Option, none, some, arith, ◌==◌, if◌then◌else◌, ◌∙◌, ap,
}
use open_dsu.Prelude.Words.{Word, Ptr}
use open_dsu.Os.{Os, EpollEvent}
use open_dsu.State.{Socket, Program, sockets_search_fd, modify, has_fd}
use open_dsu.State.Search.{search-modify}
use open_dsu.Epoll.{epoll_ctl_add, epoll_ctl_del, with_data_fd, store_event, no_event}
use open_dsu.Epoll.Handlers.{epoll_shadowfd, epoll_originalfd, epoll_ctl, epoll_watch}

-- The first of two.
abbrev pub or_else : Option EpollEvent → EpollEvent → Option EpollEvent
or_else none e = some e
or_else (some old) e = some old

-- The list of interest of one epoll instance: `watched d w` is the event that it watches `d` for.
-- Adding a descriptor that is watched fails and changes nothing. Semaphores do not change it. All
-- descriptors are taken to be open ones that epoll can watch.
pub record HasInterest (os : Os) (epfd : Word) : Type 0 where
  pub watched : Word → os.World → Option EpollEvent
  pub adds :
      (fd d : Word) (e : EpollEvent) (w : os.World)
      → watched d (os.epoll_ctl epfd epoll_ctl_add fd (some e) w).1
        ≡ (if d == fd then or_else (watched fd w) e else watched d w)
  pub deletes :
      (fd d : Word) (w : os.World)
      → watched d (os.epoll_ctl epfd epoll_ctl_del fd none w).1
        ≡ (if d == fd then none else watched d w)
  pub watched-sem_wait :
      (p : Ptr) (d : Word) (w : os.World) → watched d (os.sem_wait p w).1 ≡ watched d w
  pub watched-sem_trywait :
      (p : Ptr) (d : Word) (w : os.World) → watched d (os.sem_trywait p w).1 ≡ watched d w
  pub watched-sem_post :
      (p : Ptr) (d : Word) (w : os.World) → watched d (os.sem_post p w).1 ≡ watched d w

module _ (os : Os) (epfd : Word) (h : HasInterest os epfd) where
  open h use {watched}

  epoll_watch-watched :
      (s : Socket) (d : Word) (w : os.World)
      → (d == s.shadowfd) ≡ false
      → watched d (epoll_watch os epfd s w).1 ≡ watched d w
  unfolding epoll_watch
  epoll_watch-watched s d w other =
      ground (arith, h.adds s.shadowfd d (with_data_fd s.ev s.shadowfd) w)

  -- Before the system call the user's descriptor leaves, and only the shadow may enter.
  pub epoll_shadowfd-watched :
      (s : Socket) (d : Word) (w : os.World)
      → (s.ev.events == 0) ≡ false
      → (d == s.shadowfd) ≡ false
      → watched d (epoll_shadowfd os epfd s w).1 ≡ (if d == s.fd then none else watched d w)
  unfolding epoll_shadowfd
  epoll_shadowfd-watched s d w live other =
      let w1 = (os.epoll_ctl epfd epoll_ctl_del s.fd none w).1 in
      let w2 = (os.sem_wait s.status_sem w1).1 in
      let w3 = (os.sem_trywait s.fd_sem w2).1 in
      ground (
        arith,
        h.deletes s.fd d w,
        h.watched-sem_wait s.status_sem d w1,
        h.watched-sem_trywait s.fd_sem d w2,
        h.watched-sem_post s.status_sem d w2,
        h.watched-sem_post s.status_sem d w3,
        h.watched-sem_post s.status_sem d (epoll_watch os epfd s w2).1,
        h.watched-sem_post s.status_sem d (epoll_watch os epfd s w3).1,
        epoll_watch-watched s d w2 other,
        epoll_watch-watched s d w3 other,
      )

  pub epoll_shadowfd-same :
      (s : Socket) (w : os.World)
      → let s' = (epoll_shadowfd os epfd s w).0 in
        (s'.ev ≡ s.ev) × (s'.fd ≡ s.fd) × (s'.shadowfd ≡ s.shadowfd)
  unfolding epoll_shadowfd
  epoll_shadowfd-same s w = ground arith

  pub epoll_originalfd-watched :
      (s : Socket) (d : Word) (w : os.World)
      → (s.ev.events == 0) ≡ false
      → let w' = (epoll_originalfd os epfd s w).1 in
        watched d w' ≡ (
          if d == s.fd
          then (if s.fd == s.shadowfd then some s.ev else or_else (watched s.fd w) s.ev)
          else if d == s.shadowfd
          then none
          else watched d w)
  unfolding epoll_originalfd
  epoll_originalfd-watched s d w live =
      let w1 = (os.epoll_ctl epfd epoll_ctl_del s.shadowfd none w).1 in
      ground (arith, h.deletes s.shadowfd d w, h.deletes s.shadowfd s.fd w, h.adds s.fd d s.ev w1)

  -- After `epoll_wait` has put a socket's shadow in the place of the user's descriptor and has put
  -- the user's descriptor back, on every branch between, the instance watches the user's descriptor for the
  -- event that the user asked for. It does not watch the shadow, unless they are one, and it watches
  -- all others as before.
  pub epoll_originalfd-epoll_shadowfd :
      (s : Socket) (d : Word) (w : os.World)
      → (s.ev.events == 0) ≡ false
      → let (s', w') = epoll_shadowfd os epfd s w in
        watched d (epoll_originalfd os epfd s' w').1
        ≡ (if d == s.fd then some s.ev else if d == s.shadowfd then none else watched d w)
  epoll_originalfd-epoll_shadowfd s d w live =
      let (s', w') = epoll_shadowfd os epfd s w in
      let (same_ev, same_fd, same_shadow) = epoll_shadowfd-same s w in
      let live' : (s'.ev.events == 0) ≡ false =
        ap (λ (e : EpollEvent). e.events == 0) same_ev ∙ live in
      let after = epoll_originalfd-watched s' d w' live' in
      ground (
        arith,
        epoll_shadowfd-watched s d w live,
        epoll_shadowfd-watched s s.fd w live,
        same_ev,
        same_fd,
        same_shadow,
        after,
      )

  -- The removal of a descriptor goes to its shadow.
  epoll_ctl-shadow :
      (p : Program) (s : Socket) (w : os.World)
      → sockets_search_fd p.binds s.fd ≡ some s
      → let ((r, p'), w') = epoll_ctl os p epfd epoll_ctl_del s.fd none w in
        (w' ≡ (os.epoll_ctl epfd epoll_ctl_del s.shadowfd none w).1)
        × (p'.binds ≡ modify (has_fd s.fd) (store_event (some no_event)) p.binds)
  unfolding epoll_ctl
  epoll_ctl-shadow p s w found = rw (found, epoll_ctl) (refl, refl)

  -- The bug, where an epoll instance keeps its list of interest as documented: once `epoll_wait` has put
  -- the user's descriptor of a bound socket back, a program that removes it is not obeyed if the
  -- socket has another descriptor as its shadow. The state forgets the event, but the instance still
  -- watches the user's descriptor for it.
  pub epoll_ctl-epoll_originalfd :
      (p : Program) (s : Socket) (w : os.World)
      → sockets_search_fd p.binds s.fd ≡ some s
      → s.ev.events ≢ 0
      → s.fd ≢ s.shadowfd
      → let (s1, w1) = epoll_shadowfd os epfd s w in
        let w2 = (epoll_originalfd os epfd s1 w1).1 in
        let ((r, p'), w3) = epoll_ctl os p epfd epoll_ctl_del s.fd none w2 in
        (watched s.fd w3 ≡ some s.ev)
        × (sockets_search_fd p'.binds s.fd ≡ some (record s { ev = no_event }))
  epoll_ctl-epoll_originalfd p s w found live apart =
      let (s1, w1) = epoll_shadowfd os epfd s w in
      let w2 = (epoll_originalfd os epfd s1 w1).1 in
      let live' : (s.ev.events == 0) ≡ false = ground arith in
      let put_back = epoll_originalfd-epoll_shadowfd s s.fd w live' in
      let (kernel, state) = epoll_ctl-shadow p s w2 found in
      (
        ground (arith, kernel, put_back, h.deletes s.shadowfd s.fd w2, apart),
        ap (λ l. sockets_search_fd l s.fd) state
            ∙ search-modify (has_fd s.fd) (store_event (some no_event)) p.binds found
                (ground arith),
      )
