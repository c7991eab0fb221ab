-- ===== src/State/Connections.antt =====
-- The lists of accepted connections of a socket, and the test for an internal one (src/state.c).
use open_dsu.Prelude.{
  ◌≡◌, refl, ap, Bool, true, false, ◌&&◌, ◌||◌, List, [], ◌∷◌, arith, if◌then◌else◌, ◌==◌, has,
  count, ◌≢◌, ◌+◌, ==_refl,
}
use open_dsu.Prelude.Words.{Word, truth}
use open_dsu.State.{
  Socket, Program, is_some, Flag, non_internal_fd, internal_fd, monitor_fd, fd_list_add,
  fd_list_remove, socket_add_fds, socket_remove_fds, has_fds, search, is_internal_conn,
}
use open_dsu.State.Search.{any_socket}

-- The list that a flag selects for `dsu_socket_add_fds` and `dsu_socket_remove_fds`.
abbrev pub connections : Flag → Socket → List Word
connections internal_fd s = s.comfds
connections _ s = s.fds

has-fd_list_add : (l : List Word) (a b : Word) → has b (fd_list_add l a) ≡ (has b l || (a == b))
unfolding fd_list_add
has-fd_list_add [] a b = ground arith
has-fd_list_add (x ∷ l) a b = ground (arith, has-fd_list_add l a b)

fd_list_remove-add :
    (l : List Word) (a : Word) → has a l ≡ false → fd_list_remove (fd_list_add l a) a ≡ l
unfolding fd_list_add fd_list_remove
fd_list_remove-add [] a h = ground (arith, ==_refl a)
fd_list_remove-add (x ∷ l) a h = ground (arith, fd_list_remove-add l a)

has-fd_list_remove_ne :
    (l : List Word) (a b : Word) → (a == b) ≡ false → has b (fd_list_remove l a) ≡ has b l
unfolding fd_list_remove
has-fd_list_remove_ne [] a b h = refl
has-fd_list_remove_ne (x ∷ l) a b h = ground (arith, has-fd_list_remove_ne l a b)

-- Whether two flags select the same list.
abbrev pub same_list : Flag → Flag → Bool
same_list internal_fd internal_fd = true
same_list internal_fd _ = false
same_list _ internal_fd = false
same_list _ _ = true

-- An added connection is listed under its flag; every other one is as before, and so is the other
-- list of the socket.
pub has-connections-add :
    (s : Socket) (c b : Word) (flag other : Flag)
    → has b (connections other (socket_add_fds s c flag))
      ≡ (has b (connections other s) || (same_list flag other && (c == b)))
unfolding socket_add_fds
has-connections-add s c b internal_fd internal_fd = ground (arith, has-fd_list_add s.comfds c b)
has-connections-add s c b internal_fd non_internal_fd = ground arith
has-connections-add s c b internal_fd monitor_fd = ground arith
has-connections-add s c b non_internal_fd internal_fd = ground arith
has-connections-add s c b monitor_fd internal_fd = ground arith
has-connections-add s c b non_internal_fd non_internal_fd =
    ground (arith, has-fd_list_add s.fds c b)
has-connections-add s c b non_internal_fd monitor_fd = ground (arith, has-fd_list_add s.fds c b)
has-connections-add s c b monitor_fd non_internal_fd = ground (arith, has-fd_list_add s.fds c b)
has-connections-add s c b monitor_fd monitor_fd = ground (arith, has-fd_list_add s.fds c b)

-- Removing one connection keeps every other one, in both lists.
has-connections-remove :
    (s : Socket) (c b : Word) (flag other : Flag)
    → (c == b) ≡ false
    → has b (connections other (socket_remove_fds s c flag)) ≡ has b (connections other s)
unfolding socket_remove_fds
has-connections-remove s c b internal_fd internal_fd h = has-fd_list_remove_ne s.comfds c b h
has-connections-remove s c b internal_fd non_internal_fd h = refl
has-connections-remove s c b internal_fd monitor_fd h = refl
has-connections-remove s c b non_internal_fd internal_fd h = refl
has-connections-remove s c b monitor_fd internal_fd h = refl
has-connections-remove s c b non_internal_fd non_internal_fd h = has-fd_list_remove_ne s.fds c b h
has-connections-remove s c b non_internal_fd monitor_fd h = has-fd_list_remove_ne s.fds c b h
has-connections-remove s c b monitor_fd non_internal_fd h = has-fd_list_remove_ne s.fds c b h
has-connections-remove s c b monitor_fd monitor_fd h = has-fd_list_remove_ne s.fds c b h

-- Removing a connection that was new takes back the addition, the whole structure included.
pub remove_fds-add_fds :
    (s : Socket) (c : Word) (flag : Flag)
    → has c (connections flag s) ≡ false
    → socket_remove_fds (socket_add_fds s c flag) c flag ≡ s
unfolding socket_add_fds socket_remove_fds
remove_fds-add_fds s c internal_fd h =
    ap (λ l. record s { comfds = l }) (fd_list_remove-add s.comfds c h)
remove_fds-add_fds s c non_internal_fd h =
    ap (λ l. record s { fds = l }) (fd_list_remove-add s.fds c h)
remove_fds-add_fds s c monitor_fd h = ap (λ l. record s { fds = l }) (fd_list_remove-add s.fds c h)

either_found :
    (t u : Socket → Bool) (l : List Socket)
    → (is_some (search t l) || is_some (search u l)) ≡ any_socket (λ s. t s || u s) l
unfolding search
either_found t u [] = refl
either_found t u (x ∷ l) = ground (arith, either_found t u l)

-- A descriptor is internal exactly if it is the communication socket of a monitoring bound socket,
-- or one of the internal connections of a bound socket.
is_internal_conn_iff :
    (p : Program) (fd : Word)
    → is_internal_conn p fd
      ≡ any_socket (λ s. ((s.comfd == fd) && truth s.monitoring) || has fd s.comfds) p.binds
unfolding is_internal_conn
is_internal_conn_iff p fd = either_found (has_fds fd monitor_fd) (has_fds fd internal_fd) p.binds

count-fd_list_remove :
    (l : List Word) (c b : Word)
    → has c l ≡ true
    → count b (fd_list_remove l c) + (if c == b then 1 else 0) ≡ count b l
unfolding fd_list_remove
count-fd_list_remove [] c b h = ground arith
count-fd_list_remove (x ∷ l) c b h = ground (arith, count-fd_list_remove l c b)

-- A removal takes away one listing of that connection, and no other.
pub count-remove_fds :
    (s : Socket) (c b : Word) (flag : Flag)
    → flag ≢ monitor_fd
    → has_fds c flag s ≡ true
    → let t = socket_remove_fds s c flag in
      count b t.comfds + count b t.fds + (if c == b then 1 else 0)
      ≡ count b s.comfds + count b s.fds
unfolding socket_remove_fds
count-remove_fds s c b internal_fd h e = ground (arith, count-fd_list_remove s.comfds c b)
count-remove_fds s c b non_internal_fd h e = ground (arith, count-fd_list_remove s.fds c b)
count-remove_fds s c b monitor_fd h e = absurd (h refl)

count-fd_list_add :
    (l : List Word) (c b : Word) → count b (fd_list_add l c) ≡ count b l + (if c == b then 1 else 0)
unfolding fd_list_add
count-fd_list_add [] c b = ground arith
count-fd_list_add (x ∷ l) c b = ground (arith, count-fd_list_add l c b)

-- A client's connection is listed once more after it is added.
pub count-add_fds :
    (s : Socket) (c b : Word)
    → let t = socket_add_fds s c non_internal_fd in
      (count b t.fds ≡ count b s.fds + (if c == b then 1 else 0))
      × (t.comfds ≡ s.comfds)
      × (t.comfd ≡ s.comfd)
      × (t.monitoring ≡ s.monitoring)
unfolding socket_add_fds
count-add_fds s c b = (count-fd_list_add s.fds c b, refl, refl, refl)

-- An internal connection is listed once more after it is added, and once less after it is removed.
pub add-internal :
    (s : Socket) (c b : Word)
    → let t = socket_add_fds s c internal_fd in
      (count b t.comfds ≡ count b s.comfds + (if c == b then 1 else 0))
      × (t.fd ≡ s.fd)
      × (t.fds ≡ s.fds)
      × (t.comfd ≡ s.comfd)
      × (t.monitoring ≡ s.monitoring)
unfolding socket_add_fds
add-internal s c b = (count-fd_list_add s.comfds c b, refl, refl, refl, refl)

pub remove-internal :
    (s : Socket) (c b : Word)
    → has c s.comfds ≡ true
    → let t = socket_remove_fds s c internal_fd in
      (count b t.comfds + (if c == b then 1 else 0) ≡ count b s.comfds)
      × (t.fd ≡ s.fd)
      × (t.fds ≡ s.fds)
      × (t.comfd ≡ s.comfd)
      × (t.monitoring ≡ s.monitoring)
unfolding socket_remove_fds
remove-internal s c b h = (count-fd_list_remove s.comfds c b h, refl, refl, refl, refl)
