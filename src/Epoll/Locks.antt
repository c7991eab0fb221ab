-- ===== src/Epoll/Locks.antt =====
-- The lock on a socket that two versions share (src/event_handlers/epoll.c).
use open_dsu.Prelude.{
  refl, ◌∙◌, none, some, true, false, if◌then◌else◌, ◌≡◌, List, arith, All, Option, inl, inr, subst,
}
use open_dsu.Prelude.Words.{Word, Ptr}
use open_dsu.Os.{Os, EpollEvent}
use open_dsu.State.{Socket, Program}
use open_dsu.Core.{forall_sockets, Run, returns, exits, initialize_event}
use open_dsu.Core.Event.{Run-cases, Follows, initialize_event-Follows}
use open_dsu.Core.Locks.{
  HasLocks, IsUnlocked, is_noted, is_noted_in, forall_sockets-held, forall_sockets-held_same,
}
use open_dsu.Core.Pass.{All-forall_sockets, All-forall_sockets_keep}
use open_dsu.Epoll.{rounds_of, epoll_ctl_add, epoll_ctl_del}
use open_dsu.Epoll.Keeps.{handle_all_epoll-noted}
use open_dsu.Epoll.Handlers.{
  epoll_unlock, epoll_originalfd, pre_epoll, post_epoll, handle_all_epoll, epoll_wait,
}

-- A call returns with no bound socket noted as locked, or ends the process with success.
abbrev pub EpollReleases : {W : Type 0} → Run W (Program × Option (Word × List EpollEvent)) → Type 0
EpollReleases (returns (p, told) w) = All IsUnlocked p.binds
EpollReleases (exits code w) = code ≡ 0

module _ (os : Os) where
  epoll_unlock-IsUnlocked : (s : Socket) (w : os.World) → IsUnlocked (epoll_unlock os s w).0
  unfolding epoll_unlock
  epoll_unlock-IsUnlocked s w = ground arith

  epoll_originalfd-IsUnlocked :
      (epollfd : Word) (s : Socket) (w : os.World)
      → IsUnlocked s
      → IsUnlocked (epoll_originalfd os epollfd s w).0
  unfolding epoll_originalfd
  epoll_originalfd-IsUnlocked epollfd s w h = ground arith

  post_epoll-IsUnlocked :
      (p : Program) (epollfd nfds : Word) (events : List EpollEvent) (w : os.World)
      → All IsUnlocked (post_epoll os p epollfd nfds events w).0.0.binds
  unfolding post_epoll
  post_epoll-IsUnlocked p epollfd nfds events w =
      let handled = handle_all_epoll os epollfd (rounds_of nfds) p.binds events w in
      let unlocked = forall_sockets (epoll_unlock os) handled.0.0 handled.1 in
      All-forall_sockets_keep IsUnlocked (epoll_originalfd os epollfd)
        (epoll_originalfd-IsUnlocked epollfd) unlocked.0 unlocked.1
        (All-forall_sockets IsUnlocked (epoll_unlock os) epoll_unlock-IsUnlocked handled.0.0
          handled.1)

  epoll_unlock-held :
      (locks : HasLocks os) (q : Ptr) (s : Socket) (w : os.World)
      → locks.held q (epoll_unlock os s w).1 ≡ (if is_noted q s then false else locks.held q w)
  unfolding epoll_unlock
  epoll_unlock-held locks q s w = ground (arith, locks.held-sem_post s.fd_sem q w)

  epoll_originalfd-held :
      (locks : HasLocks os) (epollfd : Word) (q : Ptr) (s : Socket) (w : os.World)
      → locks.held q (epoll_originalfd os epollfd s w).1 ≡ locks.held q w
  unfolding epoll_originalfd
  epoll_originalfd-held locks epollfd q s w =
      let w1 = (os.epoll_ctl epollfd epoll_ctl_del s.shadowfd none w).1 in
      ground (
        arith,
        locks.held-epoll_ctl epollfd epoll_ctl_del s.shadowfd none q w,
        locks.held-epoll_ctl epollfd epoll_ctl_add s.fd (some s.ev) q w1,
      )

  -- What `dsu_post_epoll` does to semaphores behind the handlers.
  passes-held :
      (locks : HasLocks os) (epollfd : Word) (q : Ptr) (l : List Socket) (w : os.World)
      → let (l', w') = forall_sockets (epoll_unlock os) l w in
        locks.held q (forall_sockets (epoll_originalfd os epollfd) l' w').1
        ≡ (if is_noted_in q l then false else locks.held q w)
  passes-held locks epollfd q l w =
      let (l', w') = forall_sockets (epoll_unlock os) l w in
      forall_sockets-held_same (locks.held q) (epoll_originalfd os epollfd)
        (epoll_originalfd-held locks epollfd q) l' w'
      ∙ forall_sockets-held (locks.held q) q (epoll_unlock os) (epoll_unlock-held locks q) l w

  -- Where a post gives a semaphore back, and whatever the calls answer: `dsu_post_epoll` leaves no
  -- bound socket noted as locked, and has given back the semaphore of each that was.
  pub post_epoll-releases :
      (locks : HasLocks os) (p : Program) (epollfd nfds : Word) (events : List EpollEvent) (q : Ptr)
      (w : os.World)
      → is_noted_in q p.binds ≡ true
      → let ((p', told), w') = post_epoll os p epollfd nfds events w in
        All IsUnlocked p'.binds × (locks.held q w' ≡ false)
  unfolding post_epoll
  post_epoll-releases locks p epollfd nfds events q w noted =
      let ((l, events'), w1) = handle_all_epoll os epollfd (rounds_of nfds) p.binds events w in
      let still = handle_all_epoll-noted os epollfd (rounds_of nfds) q p.binds events w ∙ noted in
      (
        post_epoll-IsUnlocked p epollfd nfds events w,
        passes-held locks epollfd q l w1 ∙ rw still refl,
      )

  -- Whatever the calls answer: `epoll_wait` gives control back to the program with no bound socket
  -- noted as locked, or the process ends with success.
  pub epoll_wait-EpollReleases :
      (stale : EpollEvent) (p : Program) (epfd : Word) (events : List EpollEvent)
      (maxevents timeout : Word) (w : os.World)
      → EpollReleases (epoll_wait os stale p epfd events maxevents timeout w)
  unfolding epoll_wait
  epoll_wait-EpollReleases stale p epfd events maxevents timeout w =
      elim (Run-cases (initialize_event os p w)) [
        | inl (code, w', ended) ↦
            rw (ended, epoll_wait) (subst (Follows p) ended (initialize_event-Follows os p w))
        | inr (p1, w1, started) ↦
            let (binds, w2) = pre_epoll os stale epfd p1.binds w1 in
            let ((nfds, events'), w3) = os.epoll_wait epfd events maxevents timeout w2 in
            rw (started, epoll_wait)
              (post_epoll-IsUnlocked (record p1 { binds = binds }) epfd nfds events' w3)
      ]
