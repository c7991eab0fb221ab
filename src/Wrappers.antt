-- ===== src/Wrappers.antt =====
-- The wrappers that hand a call on with the shadow descriptor (src/core.c and src/utils.c).
pub mod Transparent
use open_dsu.Prelude.{ℕ}
use open_dsu.Prelude.Words.{Word, Ptr}
use open_dsu.Prelude.Monad.{Cmd}
use open_dsu.Os.{Os, Bytes, Message}
use open_dsu.State.{Program, shadowfd}

module _ (os : Os) (p : Program) where
  open os use {World}

  unfoldable pub dup : Word → Cmd World Word
  dup oldfd = os.dup (shadowfd p oldfd)

  unfoldable pub dup2 : Word → Word → Cmd World Word
  dup2 oldfd newfd = os.dup2 (shadowfd p oldfd) (shadowfd p newfd)

  unfoldable pub dup3 : Word → Word → Word → Cmd World Word
  dup3 oldfd newfd flags = os.dup3 (shadowfd p oldfd) (shadowfd p newfd) flags

  unfoldable pub creat : Bytes → Word → Cmd World Word
  creat pathname mode = os.creat pathname mode

  unfoldable pub read : Word → ℕ → Cmd World (Word × Bytes)
  read fd size = os.read (shadowfd p fd) size

  unfoldable pub recv : Word → ℕ → Word → Cmd World (Word × Bytes)
  recv sockfd len flags = os.recv (shadowfd p sockfd) len flags

  unfoldable pub recvfrom : Word → ℕ → Word → Cmd World (Word × Bytes × Bytes)
  recvfrom sockfd len flags = os.recvfrom (shadowfd p sockfd) len flags

  unfoldable pub recvmsg : Word → Word → Cmd World (Word × Message)
  recvmsg sockfd flags = os.recvmsg (shadowfd p sockfd) flags

  unfoldable pub write : Word → Bytes → Cmd World Word
  write fd buf = os.write (shadowfd p fd) buf

  unfoldable pub send : Word → Bytes → Word → Cmd World Word
  send sockfd buf flags = os.send (shadowfd p sockfd) buf flags

  unfoldable pub sendto : Word → Bytes → Word → Bytes → Cmd World Word
  sendto sockfd buf flags dest = os.sendto (shadowfd p sockfd) buf flags dest

  unfoldable pub sendmsg : Word → Message → Word → Cmd World Word
  sendmsg sockfd msg flags = os.sendmsg (shadowfd p sockfd) msg flags

  unfoldable pub listen : Word → Word → Cmd World Word
  listen sockfd backlog = os.listen (shadowfd p sockfd) backlog

  unfoldable pub shutdown : Word → Word → Cmd World Word
  shutdown sockfd how = os.shutdown (shadowfd p sockfd) how

  unfoldable pub getsockopt : Word → Word → Word → Cmd World (Word × Bytes)
  getsockopt sockfd level optname = os.getsockopt (shadowfd p sockfd) level optname

  unfoldable pub setsockopt : Word → Word → Word → Bytes → Cmd World Word
  setsockopt sockfd level optname optval = os.setsockopt (shadowfd p sockfd) level optname optval

  unfoldable pub getsockname : Word → Cmd World (Word × Bytes)
  getsockname sockfd = os.getsockname (shadowfd p sockfd)

  unfoldable pub getpeername : Word → Cmd World (Word × Bytes)
  getpeername sockfd = os.getpeername (shadowfd p sockfd)

  unfoldable pub fcntl : Word → Word → Ptr → Cmd World Word
  fcntl fd cmd argp = os.fcntl (shadowfd p fd) cmd argp

  unfoldable pub ioctl : Word → ℕ → Ptr → Cmd World Word
  ioctl fd request argp = os.ioctl (shadowfd p fd) request argp
