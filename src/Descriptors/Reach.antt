-- ===== src/Descriptors/Reach.antt =====
-- The states that a process reaches through the wrapped calls, in any order, from `dsu_init` on.
use open_dsu.Prelude.{ℕ, ◌≡◌, Option, some, List}
use open_dsu.Prelude.Words.{Word, Ptr}
use open_dsu.Os.{Os, Bytes, EpollEvent, FdSet, Timeout, PollFd}
use open_dsu.State.{Socket, Program}
use open_dsu.Core.{returns}
use open_dsu.Calls.{socket, accept, accept4, close}
use open_dsu.Bind.{bind}
use open_dsu.Wrappers.Transparent.{Request, wrapped}
use open_dsu.Select.Loop.{Round, select}
use open_dsu.Poll.Handlers.{Polled, ppoll}
use open_dsu.Epoll.Handlers.{epoll_ctl, epoll_wait}
use open_dsu.Start.{init}

-- One call that returns.
pub data Step (os : Os) (p : Program) (w : os.World) (p' : Program) (w' : os.World) : Type 0 where
  by_socket :
      (domain type protocol : Word) (stale : Socket) (r : Word)
      → socket os domain type protocol stale p w ≡ ((r, p'), w')
      → Step os p w p' w'
  by_bind :
      (flags_addr : Ptr) (stale : Bytes) (sockfd : Word) (addr : Bytes) (r : Word)
      → bind os flags_addr stale sockfd addr p w ≡ returns (r, p') w'
      → Step os p w p' w'
  by_accept : (fd : Word) (c : Word × Bytes) → accept os fd p w ≡ ((c, p'), w') → Step os p w p' w'
  by_accept4 :
      (fd flags : Word) (c : Word × Bytes)
      → accept4 os fd flags p w ≡ ((c, p'), w')
      → Step os p w p' w'
  by_close : (fd r : Word) → close os fd p w ≡ ((r, p'), w') → Step os p w p' w'
  by_request : (request : Request) → p' ≡ p → w' ≡ (wrapped os p request w).1 → Step os p w p' w'
  by_epoll_ctl :
      (epfd op fd : Word) (event : Option EpollEvent) (r : Word)
      → epoll_ctl os p epfd op fd event w ≡ ((r, p'), w')
      → Step os p w p' w'
  by_epoll_wait :
      (stale : EpollEvent) (epfd : Word) (events : List EpollEvent) (maxevents timeout : Word)
      (r : Option (Word × List EpollEvent))
      → epoll_wait os stale p epfd events maxevents timeout w ≡ returns (p', r) w'
      → Step os p w p' w'
  by_select :
      (rounds : ℕ) (nfds : Word) (readfds writefds exceptfds : Option FdSet)
      (timeout : Option Timeout) (correction : Word) (r : Round)
      → select os rounds p nfds readfds writefds exceptfds timeout correction w
        ≡ some (returns r w')
      → p' ≡ r.program
      → Step os p w p' w'
  by_ppoll :
      (fds : List PollFd) (timeout_ts : Option Timeout) (sigmask : Ptr) (r : Polled)
      → ppoll os p fds timeout_ts sigmask w ≡ returns (some r) w'
      → p' ≡ r.program
      → Step os p w p' w'

pub data Reach (os : Os) : Program → os.World → Type 0 where
  begun : {p : Program} {w : os.World} (w0 : os.World) → init os w0 ≡ returns p w → Reach os p w
  next : {p p' : Program} {w w' : os.World} → Reach os p w → Step os p w p' w' → Reach os p' w'
