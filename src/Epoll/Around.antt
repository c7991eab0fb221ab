-- ===== src/Epoll/Around.antt =====
-- What `dsu_pre_epoll` and `dsu_post_epoll` of src/event_handlers/epoll.c together do to the
-- descriptors that an epoll instance watches.
use open_dsu.Prelude.{
  ◌≡◌, refl, ◌∙◌, ap, ap₂, sym, false, ◌||◌, some, List, [], ◌∷◌, ◌++◌, arith, has,
}
use open_dsu.Prelude.Words.{Word}
use open_dsu.Os.{Os, EpollEvent}
use open_dsu.State.{Socket, Program}
use open_dsu.Core.{forall_sockets}
use open_dsu.Messages.Keeps.{watch_of}
use open_dsu.Epoll.{epoll_ctl_add, epollin, with_data_fd, rounds_of}
use open_dsu.Epoll.Keeps.{keys, handle_all_epoll-watch}
use open_dsu.Epoll.Handlers.{
  epoll_shadowfd, epoll_add_conns, epoll_internal_conn, epoll_unlock, pre_epoll, handle_all_epoll,
  post_epoll,
}
use open_dsu.Epoll.Interest.{HasInterest}
use open_dsu.Epoll.Restored.{
  interests, restored, IsSeparate, pass_shadowfd-interests, passes-restored,
}

-- The descriptors over which versions talk.
abbrev pub internals : List Socket → List Word
internals [] = []
internals (s ∷ l) = (s.comfd ∷ s.comfds) ++ internals l

has-append : (d : Word) (a b : List Word) → has d (a ++ b) ≡ (has d a || has d b)
has-append d [] b = refl
has-append d (x ∷ a) b = ground (arith, has-append d a b)

interests-keys : (l : List Socket) → interests l ≡ keys watch_of l
interests-keys [] = refl
interests-keys (s ∷ l) = ap (λ r. watch_of s ∷ r) (interests-keys l)

module _ (os : Os) (epfd : Word) (h : HasInterest os epfd) where
  open h use {watched}

  epoll_add_conns-watched :
      (stale : EpollEvent) (d : Word) (l : List Word) (w : os.World)
      → has d l ≡ false
      → watched d (epoll_add_conns os stale epfd l w).1 ≡ watched d w
  unfolding epoll_add_conns
  epoll_add_conns-watched stale d [] w out = refl
  epoll_add_conns-watched stale d (c ∷ l) w out =
      let e : EpollEvent = with_data_fd (record stale { events = epollin }) c in
      let w1 = (os.epoll_ctl epfd epoll_ctl_add c (some e) w).1 in
      epoll_add_conns-watched stale d l w1 (ground arith) ∙ ground (arith, h.adds c d e w)

  epoll_internal_conn-watched :
      (stale : EpollEvent) (d : Word) (s : Socket) (w : os.World)
      → has d (s.comfd ∷ s.comfds) ≡ false
      → watched d (epoll_internal_conn os stale epfd s w).1 ≡ watched d w
  unfolding epoll_internal_conn
  epoll_internal_conn-watched stale d s w out =
      let e : EpollEvent = with_data_fd (record stale { events = epollin }) s.comfd in
      let w1 = (os.epoll_ctl epfd epoll_ctl_add s.comfd (some e) w).1 in
      ground (
        arith,
        h.adds s.comfd d e w,
        epoll_add_conns-watched stale d s.comfds w1 (ground arith),
        epoll_add_conns-watched stale d s.comfds w (ground arith),
      )

  pass_internal-watched :
      (stale : EpollEvent) (d : Word) (l : List Socket) (w : os.World)
      → has d (internals l) ≡ false
      → watched d (forall_sockets (epoll_internal_conn os stale epfd) l w).1 ≡ watched d w
  unfolding forall_sockets
  pass_internal-watched stale d [] w out = refl
  pass_internal-watched stale d (s ∷ l) w out =
      let w1 = (epoll_internal_conn os stale epfd s w).1 in
      let apart = has-append d (s.comfd ∷ s.comfds) (internals l) in
      pass_internal-watched stale d l w1 (ground (arith, apart))
      ∙ epoll_internal_conn-watched stale d s w (ground (arith, apart))

  pass_internal-same :
      (stale : EpollEvent) (l : List Socket) (w : os.World)
      → (forall_sockets (epoll_internal_conn os stale epfd) l w).0 ≡ l
  unfolding forall_sockets epoll_internal_conn
  pass_internal-same stale [] w = refl
  pass_internal-same stale (s ∷ l) w =
      ap (λ r. s ∷ r) (pass_internal-same stale l (epoll_internal_conn os stale epfd s w).1)

  epoll_shadowfd-internals :
      (s : Socket) (w : os.World)
      → let s' = (epoll_shadowfd os epfd s w).0 in (s'.comfd ≡ s.comfd) × (s'.comfds ≡ s.comfds)
  unfolding epoll_shadowfd
  epoll_shadowfd-internals s w = ground arith

  pass_shadowfd-internals :
      (l : List Socket) (w : os.World)
      → internals (forall_sockets (epoll_shadowfd os epfd) l w).0 ≡ internals l
  unfolding forall_sockets
  pass_shadowfd-internals [] w = refl
  pass_shadowfd-internals (s ∷ l) w =
      let (s', w') = epoll_shadowfd os epfd s w in
      let (a, b) = epoll_shadowfd-internals s w in
      ap₂ ◌++◌ (ap₂ ◌∷◌ a b) (pass_shadowfd-internals l w')

  pre_epoll-watched :
      (stale : EpollEvent) (d : Word) (l : List Socket) (w : os.World)
      → has d (internals l) ≡ false
      → watched d (pre_epoll os stale epfd l w).1
        ≡ watched d (forall_sockets (epoll_shadowfd os epfd) l w).1
  unfolding pre_epoll
  pre_epoll-watched stale d l w out =
      let (l1, w1) = forall_sockets (epoll_shadowfd os epfd) l w in
      pass_internal-watched stale d l1 w1 (ap (has d) (pass_shadowfd-internals l w) ∙ out)

  pre_epoll-interests :
      (stale : EpollEvent) (l : List Socket) (w : os.World)
      → interests (pre_epoll os stale epfd l w).0 ≡ interests l
  unfolding pre_epoll
  pre_epoll-interests stale l w =
      let (l1, w1) = forall_sockets (epoll_shadowfd os epfd) l w in
      ap interests (pass_internal-same stale l1 w1) ∙ pass_shadowfd-interests os epfd h l w

  epoll_unlock-watched :
      (d : Word) (s : Socket) (w : os.World)
      → let (s', w') = epoll_unlock os s w in
        (watched d w' ≡ watched d w) × (watch_of s' ≡ watch_of s)
  unfolding epoll_unlock
  epoll_unlock-watched d s w = ground (arith, h.watched-sem_post s.fd_sem d w)

  pass_unlock-watched :
      (d : Word) (l : List Socket) (w : os.World)
      → let (l', w') = forall_sockets (epoll_unlock os) l w in
        (watched d w' ≡ watched d w) × (interests l' ≡ interests l)
  unfolding forall_sockets
  pass_unlock-watched d [] w = (refl, refl)
  pass_unlock-watched d (s ∷ l) w =
      let (s', w') = epoll_unlock os s w in
      let (kept, same) = epoll_unlock-watched d s w in
      let (kept', same') = pass_unlock-watched d l w' in (kept' ∙ kept, ap₂ ◌∷◌ same same')

  -- Where an epoll instance keeps its list of interest as documented, and no two bound sockets share
  -- a descriptor: take a descriptor over which no versions talk, and that the system call and the
  -- answers to new versions leave watched as it is. Then from before `dsu_pre_epoll` to behind
  -- `dsu_post_epoll` it is watched as before, except that the descriptor of a bound socket that the
  -- user watches is watched for the event that the user asked for, and the shadow of one, if it is
  -- another, not at all.
  pub post_epoll-pre_epoll :
      (stale : EpollEvent) (p : Program) (nfds : Word) (events : List EpollEvent) (d : Word)
      (w w2 : os.World)
      → IsSeparate (interests p.binds)
      → has d (internals p.binds) ≡ false
      → let (l1, w1) = pre_epoll os stale epfd p.binds w in
        watched d (handle_all_epoll os epfd (rounds_of nfds) l1 events w2).1 ≡ watched d w1
        → watched d (post_epoll os (record p { binds = l1 }) epfd nfds events w2).1
          ≡ restored (interests p.binds) d (watched d w)
  unfolding post_epoll
  post_epoll-pre_epoll stale p nfds events d w w2 apart out still =
      let (l1, w1) = pre_epoll os stale epfd p.binds w in
      let ((l2, events'), w3) = handle_all_epoll os epfd (rounds_of nfds) l1 events w2 in
      let (l3, w4) = forall_sockets (epoll_unlock os) l2 w3 in
      let (kept, same) = pass_unlock-watched d l2 w3 in
      let handled =
        interests-keys l2
        ∙ handle_all_epoll-watch os epfd (rounds_of nfds) l1 events w2
        ∙ sym (interests-keys l1) in
      passes-restored os epfd h p.binds l3 d w w4 apart
        (same ∙ handled ∙ pre_epoll-interests stale p.binds w)
        (kept ∙ still ∙ pre_epoll-watched stale d p.binds w out)
