-- ===== src/State.antt =====
-- src/state.h and src/state.c: the shadow data structure of a socket, the program state, and the
-- operations on its linked lists. A linked list is a `List`; a pointer into it, as a search returns
-- it, is the test that found the node, and a write through the pointer is `modify` by that test:
-- State.Pointers has the pointers themselves.
pub mod Search
pub mod Pointers
pub mod Chains
pub mod Unlink
pub mod Used
pub mod Moves
pub mod Found
pub mod Remove
pub mod Shadow
pub mod Connections
pub mod Transfer
use open_dsu.Prelude.{
  ℕ, ◌≡◌, Bool, true, false, ◌&&◌, ◌||◌, Option, none, some, List, [], ◌∷◌, ◌++◌, ◌==◌,
  if◌then◌else◌, has,
}
use open_dsu.Prelude.Words.{Word, Ptr, null, minus_one, truth}
use open_dsu.Os.{Bytes, EpollEvent}

pub record Socket : Type 0 where
  pub fd : Word
  pub fds : List Word
  pub shadowfd : Word
  pub port : Word
  pub ev : EpollEvent
  pub comfd_addr : Bytes
  pub comfds : List Word
  pub comfd : Word
  pub monitoring : Word
  pub version : Word
  pub locked : Word
  pub transfer : Word
  pub blocking : Word
  pub status_sem : Ptr
  pub fd_sem : Ptr
  pub status : Ptr

pub record Program : Type 0 where
  pub sockets : List Socket
  pub binds : List Socket
  pub live : Word
  pub workers : Ptr
  pub lock : Ptr

-- The value of `flag`; any other value selects as the code's last case does.
pub data Flag : Type 0 where
  non_internal_fd internal_fd monitor_fd : Flag

-- `stale` is the memory that the structure is made in: `version`, `comfd_addr` keep its values.
unfoldable pub socket_list_init : Socket → Socket
socket_list_init stale = record stale {
  port = 0;
  fd = minus_one;
  fds = [];
  shadowfd = minus_one;
  comfd = minus_one;
  comfds = [];
  status = null;
  monitoring = 0;
  status_sem = null;
  fd_sem = null;
  locked = 0;
  transfer = 0;
  blocking = 0;
  ev = record { events = 0; payload = 0 };
}

unfoldable pub sockets_add : List Socket → Socket → List Socket
sockets_add [] new_node = new_node ∷ []
sockets_add (s ∷ rest) new_node = s ∷ sockets_add rest new_node

unfoldable pub sockets_remove_fd : List Socket → Word → List Socket
sockets_remove_fd [] sockfd = []
sockets_remove_fd (s ∷ rest) sockfd =
    if s.fd == sockfd then rest else s ∷ sockets_remove_fd rest sockfd

-- The new `dest` and the new `src`.
unfoldable pub sockets_transfer_fd : List Socket → List Socket → Socket → List Socket × List Socket
unfolding sockets_add sockets_remove_fd
sockets_transfer_fd dest src s = (sockets_add dest s, sockets_remove_fd src s.fd)

-- The first node that passes a test.
unfoldable pub search : (Socket → Bool) → List Socket → Option Socket
search test [] = none
search test (s ∷ rest) = if test s then some s else search test rest

-- A write through the pointer that `search` gave.
unfoldable pub modify : (Socket → Bool) → (Socket → Socket) → List Socket → List Socket
modify test f [] = []
modify test f (s ∷ rest) = if test s then f s ∷ rest else s ∷ modify test f rest

abbrev pub has_fd : Word → Socket → Bool
has_fd sockfd s = s.fd == sockfd

abbrev pub has_shadowfd : Word → Socket → Bool
has_shadowfd sockfd s = s.shadowfd == sockfd

abbrev pub has_port : Word → Socket → Bool
has_port port s = s.port == port

abbrev pub sockets_search_fd : List Socket → Word → Option Socket
sockets_search_fd head sockfd = search (has_fd sockfd) head

abbrev pub sockets_search_shadowfd : List Socket → Word → Option Socket
sockets_search_shadowfd head sockfd = search (has_shadowfd sockfd) head

abbrev pub sockets_search_port : List Socket → Word → Option Socket
sockets_search_port head port = search (has_port port) head

fd_list_add : List Word → Word → List Word
fd_list_add [] comfd = comfd ∷ []
fd_list_add (a ∷ rest) comfd = a ∷ fd_list_add rest comfd

fd_list_remove : List Word → Word → List Word
fd_list_remove [] comfd = []
fd_list_remove (a ∷ rest) comfd = if a == comfd then rest else a ∷ fd_list_remove rest comfd

unfoldable pub socket_add_fds : Socket → Word → Flag → Socket
unfolding fd_list_add
socket_add_fds node comfd internal_fd = record node { comfds = fd_list_add node.comfds comfd }
socket_add_fds node comfd _ = record node { fds = fd_list_add node.fds comfd }

unfoldable pub socket_remove_fds : Socket → Word → Flag → Socket
unfolding fd_list_remove
socket_remove_fds node comfd internal_fd = record node { comfds = fd_list_remove node.comfds comfd }
socket_remove_fds node comfd _ = record node { fds = fd_list_remove node.fds comfd }

-- The test of `dsu_sockets_search_fds` at one node.
abbrev pub has_fds : Word → Flag → Socket → Bool
has_fds sockfd non_internal_fd node = has sockfd node.fds
has_fds sockfd monitor_fd node = (node.comfd == sockfd) && truth node.monitoring
has_fds sockfd internal_fd node = has sockfd node.comfds

abbrev pub sockets_search_fds : List Socket → Word → Flag → Option Socket
sockets_search_fds node sockfd flag = search (has_fds sockfd flag) node

unfoldable pub shadowfd : Program → Word → Word
shadowfd p fd = elim (sockets_search_fd p.binds fd) [ none ↦ fd | some s ↦ s.shadowfd ]

unfoldable pub originalfd : Program → Word → Word
originalfd p shadow = elim (sockets_search_shadowfd p.binds shadow) [
  | none ↦ shadow
  | some s ↦ s.fd
]

abbrev is_some : Option Socket → Bool
is_some none = false
is_some (some _) = true

unfoldable pub is_internal_conn : Program → Word → Bool
is_internal_conn p fd =
    is_some (sockets_search_fds p.binds fd monitor_fd)
    || is_some (sockets_search_fds p.binds fd internal_fd)
