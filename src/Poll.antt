-- ===== src/Poll.antt =====
-- src/event_handlers/poll.c. The arrays of `pollfd`s are lists; `none` is an access outside of one.
pub mod Handlers
pub mod Compress
pub mod Bounds
pub mod Marks
pub mod Locks
use open_dsu.Prelude.{
  ℕ, zero, suc, ◌+◌, ◌-◌, ◌*◌, ◌/◌, ◌%◌, Bool, true, false, ◌&&◌, Option, none, some, List, [], ◌∷◌,
  ◌++◌, ◌==◌, ltb, leb, if◌then◌else◌, length,
}
use open_dsu.Prelude.Words.{Word, Ptr, null, minus_one, lt_int, incr, truth}
use open_dsu.Prelude.Monad.{Cmd, pure, ◌>>=◌, ◌>>◌, get}
use open_dsu.Prelude.Arrays.{get_elem?, set, shift, take}
use open_dsu.Os.{Os, PollFd, Timeout}
use open_dsu.State.{
  Socket, Program, sockets_search_fd, has_fd, modify, socket_add_fds, socket_remove_fds,
  internal_fd, originalfd,
}
use open_dsu.Core.{dsu_transfer, o_nonblock, forall_sockets, Run, returns, exits, initialize_event}
use open_dsu.Messages.{answer, Outcome, peer_closed, already_read, answered}
use open_dsu.Select.{pass}

abbrev pub pollin : Word
pollin = 1

-- `FD_SETSIZE`, the length of the array `_fds`.
abbrev pub nfds_max : ℕ
nfds_max = 1024

-- `revents` is not moved.
abbrev pub move_entry : PollFd → PollFd → PollFd
move_entry old next = record old { fd = next.fd; events = next.events }

-- The loop of `dsu_compress_fds` from `i`, with `rounds` entries left.
unfoldable pub compress_loop : ℕ → ℕ → List PollFd → Option (ℕ × List PollFd)
compress_loop zero i fds = some (i, fds)
compress_loop (suc rounds) i fds = elim (get_elem? fds i) [
  | none ↦ none
  | some e ↦ elim (e.fd == minus_one) [
    | true ↦ elim (shift move_entry (suc rounds) i fds) [
      | none ↦ none
      | some fds' ↦ compress_loop rounds i fds'
    ]
    | false ↦ compress_loop rounds (suc i) fds
  ]
]

-- The new number of entries, and the array.
unfoldable pub compress_fds : ℕ → List PollFd → Option (ℕ × List PollFd)
unfolding compress_loop
compress_fds nfds fds = compress_loop nfds 0 fds

-- An internal descriptor is added, if there is room.
unfoldable pub add_entry : Word → List PollFd × ℕ → Option (List PollFd × ℕ)
add_entry fd (fds, nfds) =
    if ltb nfds nfds_max
    then elim (get_elem? fds nfds) [
      | none ↦ none
      | some _ ↦ some (set fds nfds (record { fd = fd; events = pollin; revents = 0 }), suc nfds)
    ]
    else some (fds, nfds)

unfoldable pub add_entries : List Word → List PollFd × ℕ → Option (List PollFd × ℕ)
add_entries [] state = some state
add_entries (c ∷ rest) state = elim (add_entry c state) [
  | none ↦ none
  | some state' ↦ add_entries rest state'
]

unfoldable pub sniff_conn_poll : Socket → List PollFd × ℕ → Option (List PollFd × ℕ)
sniff_conn_poll s state =
    add_entries (if truth s.monitoring then s.comfd ∷ s.comfds else s.comfds) state

unfoldable pub sniff_all_poll : List Socket → List PollFd × ℕ → Option (List PollFd × ℕ)
sniff_all_poll [] state = some state
sniff_all_poll (s ∷ rest) state = elim (sniff_conn_poll s state) [
  | none ↦ none
  | some state' ↦ sniff_all_poll rest state'
]

-- The position of a descriptor, from a position on.
unfoldable pub find_from : Word → ℕ → List PollFd → Option ℕ
find_from fd start [] = none
find_from fd zero (e ∷ fds) =
    if e.fd == fd then some 0 else elim (find_from fd 0 fds) [ none ↦ none | some i ↦ some (suc i) ]
find_from fd (suc start) (e ∷ fds) = elim (find_from fd start fds) [
  | none ↦ none
  | some i ↦ some (suc i)
]

-- `fds[i].revents = 1;`
abbrev pub mark : List PollFd → ℕ → List PollFd
mark [] i = []
mark (e ∷ fds) zero = record e { revents = 1 } ∷ fds
mark (e ∷ fds) (suc i) = e ∷ mark fds i

-- The loop of `dsu_set_revents` over what is left of `_fds`. `start` is `i + o`, and the scan for
-- the user's entry goes on from there.
unfoldable pub set_revents : Program → List PollFd → ℕ → List PollFd → Option (List PollFd)
set_revents p fds start [] = some fds
set_revents p fds start (e ∷ rest) = elim (e.revents == 0) [
  | true ↦ set_revents p fds (suc start) rest
  | false ↦ elim (find_from (originalfd p e.fd) start fds) [
    | none ↦ none
    | some i ↦ set_revents p (mark fds i) (suc i) rest
  ]
]

abbrev pub drop : ℕ → List PollFd → List PollFd
drop zero fds = fds
drop (suc n) [] = []
drop (suc n) (_ ∷ fds) = drop n fds

-- `_fds`: zeroed, with the user's entries in front.
abbrev pub padded : ℕ → List PollFd → List PollFd
padded zero fds = fds
padded (suc n) [] = record { fd = 0; events = 0; revents = 0 } ∷ padded n []
padded (suc n) (e ∷ fds) = e ∷ padded n fds
