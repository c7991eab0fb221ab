-- ===== src/Bind/Moves.antt =====
-- `bind` (src/core.c) moves one socket from the unbound ones to the bound ones, on every path.
use open_dsu.Prelude.{
  ◌+◌, ◌≡◌, refl, Bool, true, false, ◌&&◌, some, [], ◌∷◌, ◌++◌, arith, ◌==◌, if◌then◌else◌,
  Bool-cases, inl, inr, subst,
}
use open_dsu.Prelude.Words.{Word, Ptr, minus_one, lt_int, truth}
use open_dsu.Os.{Os, Bytes}
use open_dsu.State.{
  Socket, Program, sockets_search_fd, sockets_remove_fd, sockets_transfer_fd, has_fd,
}
use open_dsu.State.Remove.{sockets_add-append}
use open_dsu.State.Search.{search-some}
use open_dsu.Core.{Run, returns, exits}
use open_dsu.Bind.{
  eaddrinuse, af_unix, sock_stream, shm_name, unix_path, o_creat, o_rdwr, sin_port, monitor_init,
  inherit_fd, bind_inherited, bind_first, moved, bind_mapped, bind,
}

-- The bound socket stands for the descriptor and the port of the call, and is monitored.
abbrev pub IsPublic : Word → Word → Socket → Type 0
IsPublic fd port s = (s.fd ≡ fd) × (s.port ≡ port) × (truth s.monitoring ≡ true)

-- The descriptor's node has left the sockets, and one public socket is bound behind the others.
abbrev pub Moved : Word → Word → Program → Program → Type 0
Moved fd port p p' =
    (s : Socket) × IsPublic fd port s
    × (p'.binds ≡ p.binds ++ s ∷ [])
    × (p'.sockets ≡ sockets_remove_fd p.sockets fd)

-- A process that cannot map the status exits; every other call ends in a move.
abbrev pub Binds : {W : Type 0} → Word → Word → Program → Run W (Word × Program) → Type 0
Binds fd port p (returns (r, p') w) = Moved fd port p p'
Binds fd port p (exits code w) = code ≡ 1

module _ (os : Os) where
  pub bind_first-IsPublic : (s : Socket) (w : os.World) → IsPublic s.fd s.port (bind_first os s w).0
  unfolding bind_first
  bind_first-IsPublic s w = ground arith

  pub bind_inherited-IsPublic :
      (s : Socket) (w : os.World) → IsPublic s.fd s.port (bind_inherited os s w).0
  unfolding bind_inherited
  bind_inherited-IsPublic s w = ground arith

  pub inherit_fd-keeps :
      (stale : Bytes) (s : Socket) (w : os.World)
      → ((inherit_fd os stale s w).0.1.fd ≡ s.fd) × ((inherit_fd os stale s w).0.1.port ≡ s.port)
  unfolding inherit_fd
  inherit_fd-keeps stale s w = ground arith

  moved-Moved :
      (fd port : Word) (p : Program) (s : Socket)
      → IsPublic fd port s
      → Moved fd port p (moved os p s)
  unfolding sockets_transfer_fd
  moved-Moved fd port p s h = (s, h, sockets_add-append p.binds s, ground arith)

  bind_mapped-Moved :
      (flags_addr : Ptr) (stale : Bytes) (sockfd : Word) (addr : Bytes) (p : Program) (s : Socket)
      (w : os.World)
      → Moved s.fd s.port p (bind_mapped os flags_addr stale sockfd addr p s w).0.1
  unfolding bind_mapped
  bind_mapped-Moved flags_addr stale sockfd addr p s w =
      let (r, w1) = monitor_init os flags_addr s w in
      let ((port, s'), w2) = inherit_fd os stale s w1 in
      let kept = inherit_fd-keeps stale s w1 in
      elim (Bool-cases ((r == minus_one) && (os.errno w1 == eaddrinuse))) [
        | inr alone ↦
            rw (alone, bind_mapped)
              (moved-Moved s.fd s.port p (bind_first os s w1).0 (bind_first-IsPublic s w1))
        | inl busy ↦ elim (Bool-cases (lt_int 0 port)) [
          | inl sent ↦
              rw (busy, bind_mapped)
                (rw (sent, bind_mapped)
                  (moved-Moved s.fd s.port p (bind_inherited os s' w2).0
                    (ground (arith, kept, bind_inherited-IsPublic s' w2))))
          | inr refused ↦
              rw (busy, bind_mapped)
                (rw (refused, bind_mapped)
                  (moved-Moved s.fd s.port p (bind_first os s' w2).0
                    (ground (arith, kept, bind_first-IsPublic s' w2))))
        ]
      ]

  guarded :
      (fd port : Word) (p : Program) (a b c : Bool) (w2 w3 w4 w5 : os.World) (r : Word × Program)
      → Moved fd port p r.1
      → Binds fd port p (
          if a
          then exits 1 w2
          else if b
          then exits 1 w3
          else if c
          then exits 1 w4
          else returns r w5)
  guarded fd port p true b c w2 w3 w4 w5 r h = refl
  guarded fd port p false true c w2 w3 w4 w5 r h = refl
  guarded fd port p false false true w2 w3 w4 w5 r h = refl
  guarded fd port p false false false w2 w3 w4 w5 r h = h

  -- Whatever the world answers, and on the path of a first version as on that of an inheriting one:
  -- `bind` on a known socket takes its node out of the sockets and puts one for the descriptor
  -- behind the bound ones, with the port of the address and monitored, or the process exits with 1.
  pub bind-Binds :
      (flags_addr : Ptr) (stale : Bytes) (sockfd : Word) (addr : Bytes) (p : Program) {s : Socket}
      (w : os.World)
      → sockets_search_fd p.sockets sockfd ≡ some s
      → Binds sockfd (sin_port addr) p (bind os flags_addr stale sockfd addr p w)
  unfolding bind
  bind-Binds flags_addr stale sockfd addr p {s} w found =
      let port : Word = sin_port addr in
      let (comfd, w1) = os.socket af_unix sock_stream 0 w in
      let (shfd, w2) = os.shm_open (shm_name port) (o_creat + o_rdwr) w1 in
      let (sized, w3) = os.ftruncate shfd 12 w2 in
      let (status, w4) = os.mmap 12 shfd w3 in
      let s1 : Socket = record s {
        port = port;
        comfd_addr = unix_path port;
        comfd = comfd;
        status = status;
      } in
      let own : s.fd ≡ sockfd = ground (arith, search-some (has_fd sockfd) p.sockets found) in
      let done = bind_mapped-Moved flags_addr stale sockfd addr p s1 w4 in
      rw (found, bind)
        (guarded sockfd port p _ _ _ w2 w3 w4 _ _ (
          subst (λ fd. Moved fd port p (bind_mapped os flags_addr stale sockfd addr p s1 w4).0.1)
            own done))
