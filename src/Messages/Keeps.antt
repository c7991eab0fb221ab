-- ===== src/Messages/Keeps.antt =====
-- The answer to a request, and what comes with it, leave alone what is noted of the lock on a
-- descriptor (src/event_handlers).
use open_dsu.Prelude.{◌≡◌, refl, ap₂, ◌&&◌, arith, ◌==◌}
use open_dsu.Prelude.Words.{Word, Ptr}
use open_dsu.Os.{Os, EpollEvent}
use open_dsu.State.{Socket, socket_add_fds, socket_remove_fds}
use open_dsu.Core.Locks.{is_noted}
use open_dsu.Messages.{
  answer, count_transfer, accept_conn, settle, Outcome, peer_closed, already_read, answered,
}

pub settle-noted :
    (o : Outcome) (c : Word) (q : Ptr) (s : Socket) → is_noted q (settle o c s) ≡ is_noted q s
unfolding socket_remove_fds
settle-noted peer_closed c q s = refl
settle-noted already_read c q s = refl
settle-noted answered c q s = refl

-- The user's descriptor, its shadow, and the event that the user asked epoll for.
abbrev pub watch_of : Socket → Word × Word × EpollEvent
watch_of s = (s.fd, s.shadowfd, s.ev)

pub settle-watch : (o : Outcome) (c : Word) (s : Socket) → watch_of (settle o c s) ≡ watch_of s
unfolding socket_remove_fds
settle-watch peer_closed c s = refl
settle-watch already_read c s = refl
settle-watch answered c s = refl

module _ (os : Os) where
  answer-fields :
      (s : Socket) (c : Word) (w : os.World)
      → let s' = (answer os s c w).0.1 in
        (s'.fd ≡ s.fd) × (s'.shadowfd ≡ s.shadowfd) × (s'.ev ≡ s.ev)
  unfolding answer count_transfer
  answer-fields s c w = ground arith

  pub answer-watch :
      (s : Socket) (c : Word) (w : os.World) → watch_of (answer os s c w).0.1 ≡ watch_of s
  answer-watch s c w = let (a, b, e) = answer-fields s c w in cc

  accept_conn-fields :
      (s : Socket) (w : os.World)
      → let s' = (accept_conn os s w).0 in
        (s'.fd ≡ s.fd) × (s'.shadowfd ≡ s.shadowfd) × (s'.ev ≡ s.ev)
  unfolding accept_conn socket_add_fds
  accept_conn-fields s w = ground arith

  pub accept_conn-watch : (s : Socket) (w : os.World) → watch_of (accept_conn os s w).0 ≡ watch_of s
  accept_conn-watch s w = let (a, b, e) = accept_conn-fields s w in cc

  answer-lock :
      (s : Socket) (c : Word) (w : os.World)
      → let s' = (answer os s c w).0.1 in (s'.locked ≡ s.locked) × (s'.fd_sem ≡ s.fd_sem)
  unfolding answer count_transfer
  answer-lock s c w = ground arith

  pub answer-noted :
      (q : Ptr) (s : Socket) (c : Word) (w : os.World)
      → is_noted q (answer os s c w).0.1 ≡ is_noted q s
  answer-noted q s c w = let (a, b) = answer-lock s c w in ap₂ (λ l f. (l == 1) && (q == f)) a b

  pub accept_conn-noted :
      (q : Ptr) (s : Socket) (w : os.World) → is_noted q (accept_conn os s w).0 ≡ is_noted q s
  unfolding accept_conn socket_add_fds
  accept_conn-noted q s w = ground arith
