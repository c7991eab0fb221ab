-- ===== src/Messages.antt =====
-- src/communication.c: a descriptor and a port travel in one message; and how the event handlers
-- (src/event_handlers/select.c, poll.c, epoll.c) answer a request on an internal connection.
pub mod RoundTrip
pub mod Channel
pub mod Keeps
pub mod Answer
use open_dsu.Prelude.{
  ℕ, ◌+◌, ◌*◌, ◌/◌, ◌%◌, Bool, true, false, ◌&&◌, ◌||◌, not, Option, none, some, List, [], ◌∷◌,
  ◌==◌, if◌then◌else◌,
}
use open_dsu.Prelude.Words.{Word, minus_one, lt_int, incr}
use open_dsu.Prelude.Monad.{Cmd, pure, ◌>>=◌, ◌>>◌, get, put}
use open_dsu.Os.{Os, Bytes, Message, Control}
use open_dsu.State.{Socket, socket_add_fds, socket_remove_fds, internal_fd}
use open_dsu.Core.{dsu_transfer, o_nonblock}

abbrev pub sol_socket : Word
sol_socket = 1

abbrev pub so_error : Word
so_error = 4

abbrev pub scm_rights : Word
scm_rights = 1

-- `CMSG_LEN(sizeof(int))`
abbrev pub cmsg_len_int : Word
cmsg_len_int = 20

abbrev pub msg_dontwait : Word
msg_dontwait = 0x40

-- `EWOULDBLOCK` is the same number.
abbrev pub eagain : Word
eagain = 11

-- The bytes of `htonl(port)` in memory.
abbrev pub network_bytes : Word → Bytes
network_bytes n = (n / 0x100_0000 % 256) ∷ (n / 0x1_0000 % 256) ∷ (n / 0x100 % 256) ∷ (n % 256) ∷ []

-- `ntohl` of the `int` with these bytes.
abbrev pub host_word : Bytes → Word
host_word (a ∷ b ∷ c ∷ d ∷ _) = a * 0x100_0000 + b * 0x1_0000 + c * 0x100 + d
host_word _ = 0

-- What arrives lies over what the buffer held.
abbrev pub overlay : Bytes → Bytes → Bytes
overlay [] stale = stale
overlay (b ∷ bytes) [] = b ∷ bytes
overlay (b ∷ bytes) (_ ∷ stale) = b ∷ overlay bytes stale

abbrev pub fd_message : Word → Word → Message
fd_message sendfd port = record {
  payload = network_bytes port;
  control =
      some (record { len = cmsg_len_int; level = sol_socket; kind = scm_rights; fd = sendfd });
}

-- What `dsu_read_fd` returns and stores: its result, `*recvfd` and `*port`.
pub record Received : Type 0 where
  pub result : Word
  pub recvfd : Word
  pub port : Word

-- The part of `dsu_read_fd` behind `recvmsg`; `old` holds what the pointers held.
unfoldable pub take_message : Bytes → Received → Word → Message → Received
take_message stale old n msg =
    let nport = host_word (overlay msg.payload stale) in
    elim msg.control [
      | none ↦ record { result = n; recvfd = minus_one; port = nport }
      | some c ↦
          if not (c.len == cmsg_len_int)
          then record { result = n; recvfd = minus_one; port = nport }
          else if not (c.level == sol_socket)
          then record old { result = minus_one; recvfd = minus_one }
          else if not (c.kind == scm_rights)
          then record old { result = minus_one; recvfd = minus_one }
          else record { result = n; recvfd = c.fd; port = nport }
    ]

-- What happened to a request: the peer closed, another process had read it, or it was answered.
pub data Outcome : Type 0 where
  peer_closed already_read answered : Outcome

-- A connection that its peer has closed is forgotten.
abbrev pub settle : Outcome → Word → Socket → Socket
settle peer_closed c s = socket_remove_fds s c internal_fd
settle _ c s = s

module _ (os : Os) where
  open os use {World}

  unfoldable pub write_fd : Word → Word → Word → Cmd World Word
  write_fd fd sendfd port = do
    checked ← os.getsockopt sendfd sol_socket so_error
    if lt_int checked.0 0 then pure minus_one else os.sendmsg fd (fd_message sendfd port) 0

  -- `stale` is the memory of `nport` before the call.
  unfoldable pub read_fd : Bytes → Received → Word → Cmd World Received
  unfolding take_message
  read_fd stale old fd = do
    got ← os.recvmsg fd 0
    if not (lt_int 0 got.0)
        then pure (record old { result = got.0 })
        else pure (take_message stale old got.0 got.1)

  -- The first answer of a process in an update counts it in `status[DSU_TRANSFER]`.
  unfoldable pub count_transfer : Socket → Cmd World Socket
  count_transfer s =
      if s.transfer == 0
      then (do
        t ← get (os.load s.status dsu_transfer)
        put (os.store s.status dsu_transfer (incr t))
        pure (record s { transfer = 1 }))
      else pure s

  -- The request on the internal connection `conn` of `s`. What a handler does where the peer has
  -- closed comes behind this.
  unfoldable pub answer : Socket → Word → Cmd World (Outcome × Socket)
  unfolding count_transfer
  answer s conn = do
    got ← os.recv conn 4 msg_dontwait
    e ← get os.errno
    let r = got.0
    if r == 0
        then (do os.close conn; pure (peer_closed, s))
        else if (r == minus_one) && (e == eagain)
        then pure (already_read, s)
        else (do
          let port = if r == minus_one then minus_one else s.port
          s' ←
              (if port == minus_one then pure s else (do
                os.sem_wait s.status_sem
                s'' ← count_transfer s
                os.sem_post s.status_sem
                pure s''))
          write_fd conn s'.shadowfd port
          write_fd conn s'.comfd port
          pure (answered, s'))

  -- A connection request on the communication socket.
  unfoldable pub accept_conn : Socket → Cmd World Socket
  accept_conn s = do
    acc ← os.accept4 s.comfd o_nonblock
    pure (
        if acc.0 == minus_one
        then record s { comfd_addr = acc.1 }
        else socket_add_fds (record s { comfd_addr = acc.1 }) acc.0 internal_fd)
