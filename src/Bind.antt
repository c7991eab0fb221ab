-- ===== src/Bind.antt =====
-- `bind` of src/core.c, with `dsu_monitor_init` and `dsu_inherit_fd`: a socket becomes a public one,
-- new or inherited from the running version.
pub mod Moves
pub mod Inherit
pub mod Locks
pub mod Semaphores
use Prim.Native.Nat.{bit_or}
use open_dsu.Prelude.{
  ℕ, zero, suc, ◌+◌, ◌*◌, ◌/◌, ◌%◌, Bool, true, false, ◌&&◌, Option, none, some, List, [], ◌∷◌,
  ◌++◌, ◌==◌, ltb, if◌then◌else◌,
}
use open_dsu.Prelude.Words.{Word, Ptr, null, minus_one, lt_int, incr}
use open_dsu.Prelude.Monad.{Cmd, pure, ◌>>=◌, ◌>>◌, get, put}
use open_dsu.Os.{Os, Bytes}
use open_dsu.State.{Socket, Program, sockets_search_fd, sockets_transfer_fd}
use open_dsu.Core.{dsu_pgid, dsu_version, dsu_transfer, f_getfl, o_nonblock, Run, returns, exits}
use open_dsu.Messages.{Received, read_fd}

abbrev pub ebadf : Word
ebadf = 9

abbrev pub eaddrinuse : Word
eaddrinuse = 98

abbrev pub af_unix : Word
af_unix = 1

abbrev pub sock_stream : Word
sock_stream = 1

abbrev pub f_setfl : Word
f_setfl = 4

abbrev pub o_creat : Word
o_creat = 0o100

abbrev pub o_excl : Word
o_excl = 0o200

abbrev pub o_rdwr : Word
o_rdwr = 2

abbrev pub dsu_maxnumofproc : Word
dsu_maxnumofproc = 5

-- `%d` of a number with at most `digits` digits.
decimal : ℕ → ℕ → Bytes
decimal zero n = []
decimal (suc digits) n =
    let front = decimal digits (n / 10) in (if ltb n 10 then [] else front) ++ (48 + n % 10) ∷ []

-- `"%s_%d"` with `DSU_COMM` and a number that is not negative: an `int` has at most ten digits.
unfoldable pub dsu_name : Word → Bytes
unfolding decimal
dsu_name port = (b'd' ∷ b's' ∷ b'u' ∷ b'_' ∷ b'c' ∷ b'o' ∷ b'm' ∷ b'_' ∷ []) ++ decimal 10 port

-- The path of the shared memory, of the abstract Unix socket, and of both semaphores.
abbrev pub shm_name : Word → Bytes
shm_name port = b'/' ∷ dsu_name port

abbrev pub unix_path : Word → Bytes
unix_path port = 0 ∷ dsu_name port ++ (b'.' ∷ b'u' ∷ b'n' ∷ b'i' ∷ b'x' ∷ [])

abbrev pub status_sem_name : Word → Bytes
status_sem_name port = dsu_name port

abbrev pub fd_sem_name : Word → Bytes
fd_sem_name port = dsu_name port

-- `ntohs(sin_port)` of a `sockaddr_in`.
abbrev pub sin_port : Bytes → Word
sin_port (_ ∷ _ ∷ hi ∷ lo ∷ _) = hi * 0x100 + lo
sin_port _ = 0

-- The bytes of an `int` in memory, lowest first.
abbrev pub int_bytes : Word → Bytes
int_bytes n = (n % 256) ∷ (n / 0x100 % 256) ∷ (n / 0x1_0000 % 256) ∷ (n / 0x100_0000 % 256) ∷ []

module _ (os : Os) where
  open os use {World}

  -- `flags_addr` is the address of the local `flags`, which is what the call hands to `fcntl`.
  unfoldable pub monitor_init : Ptr → Socket → Cmd World Word
  monitor_init flags_addr s = do
    b ← os.bind s.comfd s.comfd_addr
    if b == 0
        then (do
          l ← os.listen s.comfd dsu_maxnumofproc
          if l == 0
              then (do
                flags ← os.fcntl s.comfd f_getfl null
                put (os.store flags_addr 0 (bit_or flags o_nonblock))
                os.fcntl s.comfd f_setfl flags_addr
                pure 0)
              else pure minus_one)
        else pure minus_one

  -- The port that the running version sent or -1, and the socket with the descriptors it sent.
  unfoldable pub inherit_fd : Bytes → Socket → Cmd World (Word × Socket)
  inherit_fd stale s = do
    c ← os.connect s.comfd s.comfd_addr
    if c == minus_one then pure (minus_one, s) else (do
      n ← os.send s.comfd (int_bytes s.port) 0
      if lt_int 0 n
          then (do
            first ← read_fd os stale (record { result = 0; recvfd = s.shadowfd; port = 0 }) s.comfd
            second ← read_fd os stale (record { result = 0; recvfd = 0; port = first.port }) s.comfd
            os.close s.comfd
            pure (second.port, record s { shadowfd = first.recvfd; comfd = second.recvfd }))
          else pure (minus_one, s))

  -- The version that an inheriting process takes.
  unfoldable pub inherit_version : Socket → Cmd World Socket
  inherit_version s = do
    r ← os.sem_wait s.status_sem
    if r == 0
        then (do
          v ← get (os.load s.status dsu_version)
          owner ← get (os.load s.status dsu_pgid)
          own ← get os.process_group
          os.sem_post s.status_sem
          pure (record s { version = if owner == own then v else incr v }))
        else pure s

  -- A socket that came from the running version.
  unfoldable pub bind_inherited : Socket → Cmd World Socket
  unfolding inherit_version
  bind_inherited s = do
    status ← os.sem_open (status_sem_name s.port) o_creat
    fd ← os.sem_open (fd_sem_name s.port) o_creat
    inherit_version (record s { monitoring = 1; status_sem = status; fd_sem = fd })

  -- The status is reset under the lock.
  unfoldable pub reset_status : Socket → Cmd World Socket
  reset_status s = do
    r ← os.sem_wait s.status_sem
    if r == 0
        then (do
          g ← get os.process_group
          put (os.store s.status dsu_pgid g)
          put (os.store s.status dsu_version 0)
          put (os.store s.status dsu_transfer 0)
          os.sem_post s.status_sem
          pure (record s { version = 0; transfer = 0 }))
        else pure s

  -- A socket where no other version runs.
  unfoldable pub bind_first : Socket → Cmd World Socket
  unfolding reset_status
  bind_first s = do
    os.sem_unlink (status_sem_name s.port)
    status ← os.sem_open (status_sem_name s.port) (o_creat + o_excl)
    os.sem_init status 1
    os.sem_unlink (fd_sem_name s.port)
    fd ← os.sem_open (fd_sem_name s.port) (o_creat + o_excl)
    os.sem_init fd 1
    reset_status (record s { status_sem = status; fd_sem = fd; monitoring = 1 })

  -- The node leaves the sockets and joins the bound ones.
  abbrev pub moved : Program → Socket → Program
  moved p s =
      let lists = sockets_transfer_fd p.binds p.sockets s in
      record p { binds = lists.0; sockets = lists.1 }

  -- Behind the shared memory: inherit the socket, or be the first version.
  unfoldable pub bind_mapped :
      Ptr → Bytes → Word → Bytes → Program → Socket → Cmd World (Word × Program)
  bind_mapped flags_addr stale sockfd addr p s = do
    r ← monitor_init flags_addr s
    e ← get os.errno
    if (r == minus_one) && (e == eaddrinuse)
        then (do
          (port, s') ← inherit_fd stale s
          if lt_int 0 port
              then (do s'' ← bind_inherited s'; pure (0, moved p s''))
              else (do s'' ← bind_first s'; b ← os.bind sockfd addr; pure (b, moved p s'')))
        else (do s'' ← bind_first s; b ← os.bind sockfd addr; pure (b, moved p s''))

  -- `flags_addr` and `stale` are stack memory of the calls. The process exits where the shared
  -- memory cannot be made.
  unfoldable pub bind : Ptr → Bytes → Word → Bytes → Program → World → Run World (Word × Program)
  unfolding bind_mapped
  bind flags_addr stale sockfd addr p w = elim (sockets_search_fd p.sockets sockfd) [
    | none ↦ returns (minus_one, p) (os.set_errno ebadf w)
    | some s ↦
        let port : Word = sin_port addr in
        let (comfd, w1) = os.socket af_unix sock_stream 0 w in
        let (shfd, w2) = os.shm_open (shm_name port) (o_creat + o_rdwr) w1 in
        let (sized, w3) = os.ftruncate shfd 12 w2 in
        let (status, w4) = os.mmap 12 shfd w3 in
        let s1 : Socket = record s {
          port = port;
          comfd_addr = unix_path port;
          comfd = comfd;
          status = status;
        } in
        let (r, w5) = bind_mapped flags_addr stale sockfd addr p s1 w4 in
        if shfd == minus_one
        then exits 1 w2
        else if sized == minus_one
        then exits 1 w3
        else if status == 0xffff_ffff_ffff_ffff
        then exits 1 w4
        else returns r w5
  ]
