-- ===== src/Wrappers/Transparent.antt =====
-- Until a version inherits a socket, the wrappers of src/core.c and src/utils.c are the plain calls.
use open_dsu.Prelude.{ℕ, ◌≡◌, refl, Option, none, some, List, [], ◌∷◌, arith, All}
use open_dsu.Prelude.Words.{Word, Ptr}
use open_dsu.Prelude.Monad.{Cmd}
use open_dsu.Os.{Os, Bytes, Message}
use open_dsu.State.{Socket, Program, shadowfd, search, sockets_search_fd}
use open_dsu.Wrappers

-- A call of one of the wrappers.
pub data Request : Type 0 where
  dup : Word → Request
  dup2 : Word → Word → Request
  dup3 : Word → Word → Word → Request
  creat : Bytes → Word → Request
  read : Word → ℕ → Request
  recv : Word → ℕ → Word → Request
  recvfrom : Word → ℕ → Word → Request
  recvmsg : Word → Word → Request
  write : Word → Bytes → Request
  send : Word → Bytes → Word → Request
  sendto : Word → Bytes → Word → Bytes → Request
  sendmsg : Word → Message → Word → Request
  listen : Word → Word → Request
  shutdown : Word → Word → Request
  getsockopt : Word → Word → Word → Request
  setsockopt : Word → Word → Word → Bytes → Request
  getsockname : Word → Request
  getpeername : Word → Request
  fcntl : Word → Word → Ptr → Request
  ioctl : Word → ℕ → Ptr → Request

-- What a call answers; an answer has the parts that the call fills in.
pub record Reply : Type 0 where
  pub result : Word
  pub buffer : Bytes
  pub address : Bytes
  pub message : Option Message

abbrev number : {W : Type 0} → Cmd W Word → Cmd W Reply
number m w = (record { result = (m w).0; buffer = []; address = []; message = none }, (m w).1)

abbrev bytes : {W : Type 0} → Cmd W (Word × Bytes) → Cmd W Reply
bytes m w =
    (record { result = (m w).0.0; buffer = (m w).0.1; address = []; message = none }, (m w).1)

module _ (os : Os) where
  open os use {World}

  abbrev pub wrapped : Program → Request → Cmd World Reply
  wrapped p (dup a) = number (Wrappers.dup os p a)
  wrapped p (dup2 a b) = number (Wrappers.dup2 os p a b)
  wrapped p (dup3 a b f) = number (Wrappers.dup3 os p a b f)
  wrapped p (creat n m) = number (Wrappers.creat os p n m)
  wrapped p (read a n) = bytes (Wrappers.read os p a n)
  wrapped p (recv a n f) = bytes (Wrappers.recv os p a n f)
  wrapped p (recvfrom a n f) = λ w.
      let ((r, b, d), w') = Wrappers.recvfrom os p a n f w in
      (record { result = r; buffer = b; address = d; message = none }, w')
  wrapped p (recvmsg a f) = λ w.
      let ((r, m), w') = Wrappers.recvmsg os p a f w in
      (record { result = r; buffer = []; address = []; message = some m }, w')
  wrapped p (write a b) = number (Wrappers.write os p a b)
  wrapped p (send a b f) = number (Wrappers.send os p a b f)
  wrapped p (sendto a b f d) = number (Wrappers.sendto os p a b f d)
  wrapped p (sendmsg a m f) = number (Wrappers.sendmsg os p a m f)
  wrapped p (listen a n) = number (Wrappers.listen os p a n)
  wrapped p (shutdown a h) = number (Wrappers.shutdown os p a h)
  wrapped p (getsockopt a l n) = bytes (Wrappers.getsockopt os p a l n)
  wrapped p (setsockopt a l n v) = number (Wrappers.setsockopt os p a l n v)
  wrapped p (getsockname a) = bytes (Wrappers.getsockname os p a)
  wrapped p (getpeername a) = bytes (Wrappers.getpeername os p a)
  wrapped p (fcntl a c g) = number (Wrappers.fcntl os p a c g)
  wrapped p (ioctl a r g) = number (Wrappers.ioctl os p a r g)

  abbrev pub plain : Request → Cmd World Reply
  plain (dup a) = number (os.dup a)
  plain (dup2 a b) = number (os.dup2 a b)
  plain (dup3 a b f) = number (os.dup3 a b f)
  plain (creat n m) = number (os.creat n m)
  plain (read a n) = bytes (os.read a n)
  plain (recv a n f) = bytes (os.recv a n f)
  plain (recvfrom a n f) = λ w.
      let ((r, b, d), w') = os.recvfrom a n f w in
      (record { result = r; buffer = b; address = d; message = none }, w')
  plain (recvmsg a f) = λ w.
      let ((r, m), w') = os.recvmsg a f w in
      (record { result = r; buffer = []; address = []; message = some m }, w')
  plain (write a b) = number (os.write a b)
  plain (send a b f) = number (os.send a b f)
  plain (sendto a b f d) = number (os.sendto a b f d)
  plain (sendmsg a m f) = number (os.sendmsg a m f)
  plain (listen a n) = number (os.listen a n)
  plain (shutdown a h) = number (os.shutdown a h)
  plain (getsockopt a l n) = bytes (os.getsockopt a l n)
  plain (setsockopt a l n v) = number (os.setsockopt a l n v)
  plain (getsockname a) = bytes (os.getsockname a)
  plain (getpeername a) = bytes (os.getpeername a)
  plain (fcntl a c g) = number (os.fcntl a c g)
  plain (ioctl a r g) = number (os.ioctl a r g)

ruleset wrappers = (
  Wrappers.dup, Wrappers.dup2, Wrappers.dup3, Wrappers.creat, Wrappers.read, Wrappers.recv,
  Wrappers.recvfrom, Wrappers.recvmsg, Wrappers.write, Wrappers.send, Wrappers.sendto,
  Wrappers.sendmsg, Wrappers.listen, Wrappers.shutdown, Wrappers.getsockopt, Wrappers.setsockopt,
  Wrappers.getsockname, Wrappers.getpeername, Wrappers.fcntl, Wrappers.ioctl,
)

-- No bound socket stands for another descriptor.
abbrev pub IsOriginal : Program → Type 0
IsOriginal p = All (λ s. s.shadowfd ≡ s.fd) p.binds

search-original :
    (l : List Socket) (fd : Word)
    → All (λ s. s.shadowfd ≡ s.fd) l
    → elim (sockets_search_fd l fd) [ none ↦ fd | some s ↦ s.shadowfd ] ≡ fd
unfolding search
search-original [] fd h = refl
search-original (x ∷ l) fd h = ground (arith, search-original l fd h.1)

shadowfd-original : (p : Program) (fd : Word) → IsOriginal p → shadowfd p fd ≡ fd
unfolding shadowfd
shadowfd-original p fd h = ground (arith, search-original p.binds fd h)

module _ (os : Os) where
  -- While every bound socket is the process's own, each wrapper is the plain system call, in its
  -- answer and in its effect on the world.
  pub wrapped-plain :
      (p : Program) (r : Request) (w : os.World) → IsOriginal p → wrapped os p r w ≡ plain os r w
  unfolding Wrappers.dup Wrappers.dup2 Wrappers.dup3 Wrappers.creat Wrappers.read Wrappers.recv
      Wrappers.recvfrom Wrappers.recvmsg Wrappers.write Wrappers.send Wrappers.sendto
      Wrappers.sendmsg Wrappers.listen Wrappers.shutdown Wrappers.getsockopt Wrappers.setsockopt
      Wrappers.getsockname Wrappers.getpeername Wrappers.fcntl Wrappers.ioctl
  wrapped-plain p (creat n m) w h = refl
  wrapped-plain p _ w h = simp (shadowfd-original, h, wrappers)
