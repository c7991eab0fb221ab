-- ===== src/Epoll.antt =====
-- src/event_handlers/epoll.c: the wrappers of epoll. `os` stands for what they call.
pub mod Handlers
pub mod Correct
pub mod Closed
pub mod Interest
pub mod Restored
pub mod Around
pub mod Keeps
pub mod Locks
use open_dsu.Prelude.{
  ℕ, zero, suc, ◌+◌, ◌*◌, ◌/◌, ◌%◌, Bool, true, false, ◌&&◌, ◌||◌, not, Option, none, some, List,
  [], ◌∷◌, ◌==◌, if◌then◌else◌,
}
use open_dsu.Prelude.Words.{Word, minus_one, lt_int, truth}
use open_dsu.Prelude.Monad.{Cmd, pure, ◌>>=◌, ◌>>◌, get}
use open_dsu.Prelude.Arrays.{get_elem?, set, shift}
use open_dsu.Os.{Os, EpollEvent}
use open_dsu.State.{
  Socket, Program, internal_fd, sockets_search_fd, sockets_search_shadowfd, socket_add_fds,
  socket_remove_fds, modify, has_fd, is_internal_conn,
}
use open_dsu.Core.{dsu_transfer, o_nonblock, forall_sockets, Run, returns, exits, initialize_event}
use open_dsu.Messages.{answer, Outcome, peer_closed, already_read, answered}

abbrev pub epoll_ctl_add : Word
epoll_ctl_add = 1

abbrev pub epoll_ctl_del : Word
epoll_ctl_del = 2

abbrev pub epoll_ctl_mod : Word
epoll_ctl_mod = 3

abbrev pub epollin : Word
epollin = 1

abbrev pub no_event : EpollEvent
no_event = record { events = 0; payload = 0 }

-- `ev.data.fd`, the low half of the union, and an assignment to it.
abbrev pub data_fd : EpollEvent → Word
data_fd e = e.payload % 0x1_0000_0000

abbrev pub with_data_fd : EpollEvent → Word → EpollEvent
with_data_fd e fd = record e {
  payload = e.payload / 0x1_0000_0000 * 0x1_0000_0000 + fd % 0x1_0000_0000;
}

-- `memcpy` from `event`. A NULL pointer there is undefined in C.
abbrev pub store_event : Option EpollEvent → Socket → Socket
store_event none s = s
store_event (some e) s = record s { ev = e }

-- The entry of `dsu_epoll_correct_events` that is no internal connection: the user's own data comes
-- back, with the events that epoll reported.
unfoldable pub restore_event : Program → EpollEvent → EpollEvent
restore_event p e = elim (sockets_search_shadowfd p.binds (data_fd e)) [
  | none ↦ e
  | some s ↦ if s.ev.events == 0 then e else record s.ev { events = e.events }
]

abbrev pub copy_event : EpollEvent → EpollEvent → EpollEvent
copy_event _ next = next

-- The loop from `i`, with `rounds` entries left; `none` where it would leave the array.
unfoldable pub correct_loop : Program → ℕ → ℕ → List EpollEvent → Option (ℕ × List EpollEvent)
correct_loop p zero i events = some (i, events)
correct_loop p (suc rounds) i events = elim (get_elem? events i) [
  | none ↦ none
  | some e ↦ elim (is_internal_conn p (data_fd e)) [
    | true ↦ elim (shift copy_event rounds i events) [
      | none ↦ none
      | some events' ↦ correct_loop p rounds i events'
    ]
    | false ↦ correct_loop p rounds (suc i) (set events i (restore_event p e))
  ]
]

-- The number of rounds of `for (i = 0; i < nfds; i++)`.
abbrev pub rounds_of : Word → ℕ
rounds_of nfds = if lt_int nfds 0 then 0 else nfds

-- A negative number of events is handed on.
unfoldable pub correct_events : Program → Word → List EpollEvent → Option (Word × List EpollEvent)
unfolding correct_loop
correct_events p nfds events =
    if lt_int nfds 0 then some (nfds, events) else correct_loop p nfds 0 events
