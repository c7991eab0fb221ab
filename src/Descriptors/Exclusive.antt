-- ===== src/Descriptors/Exclusive.antt =====
-- Every wrapped call of src/core.c that changes the program state keeps it exclusive.
use open_dsu.Prelude.{
  ◌+◌, ◌≤◌, ◌<◌, ◌≡◌, ◌≢◌, refl, Bool, true, false, some, arith, ◌==◌, if◌then◌else◌, Bool-cases,
  Option-cases, inl, inr, All, subst, sym,
}
use open_dsu.Prelude.Words.{Word, Ptr, minus_one}
use open_dsu.Os.{Os, Bytes}
use open_dsu.State.{
  Socket, Program, has_fd, sockets_search_fd, sockets_transfer_fd, socket_list_init, shadowfd,
}
use open_dsu.State.Search.{search-some}
use open_dsu.Core.{Run, returns, exits}
use open_dsu.Calls.{socket, accept, accept4, close, forget}
use open_dsu.Calls.Roles.{roles}
use open_dsu.Calls.Close.{Forgets-roles, forget-Forgets}
use open_dsu.Bind.{
  af_unix, sock_stream, shm_name, unix_path, sin_port, o_creat, o_rdwr, moved, bind_mapped, bind,
}
use open_dsu.Descriptors.{HasDescriptors, IsExclusive}
use open_dsu.Descriptors.Binding.{Carries, bind_mapped-MovesTo}
use open_dsu.Descriptors.Roles.{
  count-add, add_session-roles, add_session-sockets, IsPlain, IsPlain-add, IsPlain-remove,
  IsPlain-search, roles-moved, IsPlain-Forgets, forget-others,
}

module _ (os : Os) (d : HasDescriptors os) where
  open d use {opened}

  -- A call leaves an exclusive state, if it returns.
  abbrev pub LeavesExclusive : {A : Type 0} → (A → Program) → Run os.World A → Type 0
  LeavesExclusive program_of (returns a w) = IsExclusive d (program_of a) w
  LeavesExclusive program_of (exits code w) = Unit {0}

  pub socket-IsExclusive :
      (domain type protocol : Word) (stale : Socket) (p : Program) (w : os.World)
      → IsExclusive d p w
      → let ((_, p'), w') = socket os domain type protocol stale p w in IsExclusive d p' w'
  unfolding socket socket_list_init
  socket-IsExclusive domain type protocol stale p w e =
      let (r, w') = os.socket domain type protocol w in
      let t : Socket = record (socket_list_init stale) { shadowfd = r; fd = r } in
      record {
        known = λ b low nb. ground (
          arith,
          count-add p.sockets t b,
          d.socket_opens domain type protocol b w,
          e.known b low nb,
        );
        plain = ground (arith, IsPlain-add p.sockets t e.plain (refl, refl), e.plain);
      }

  pub close-IsExclusive :
      (fd : Word) (p : Program) (w : os.World)
      → IsExclusive d p w
      → let ((_, p'), w') = close os fd p w in IsExclusive d p' w'
  unfolding close
  close-IsExclusive fd p w e =
      let q : Program = forget fd p in
      record {
        known = λ b low nb. elim (Bool-cases (fd == b)) [
          | inl same ↦ ground (
            arith,
            (Forgets-roles fd b p q (forget-Forgets fd p) (ground arith)).0 (ground arith),
            e.known b low nb,
            d.at_most_one b w,
          )
          | inr other ↦
              ground (arith, forget-others fd b p, e.known b low nb, d.close_closes fd b w)
        ];
        plain = IsPlain-Forgets fd p q (forget-Forgets fd p) e.plain;
      }

  pub accept-IsExclusive :
      (fd : Word) (p : Program) (w : os.World)
      → IsExclusive d p w
      → let ((_, p'), w') = accept os fd p w in IsExclusive d p' w'
  unfolding accept
  accept-IsExclusive fd p w e =
      let (c, w') = os.accept (shadowfd p fd) w in
      record {
        known = λ b low nb. ground (
          arith,
          add_session-roles fd c.0 b p,
          d.accept_opens (shadowfd p fd) b w,
          e.known b low nb,
        );
        plain = ground (arith, add_session-sockets fd c.0 p, e.plain);
      }

  pub accept4-IsExclusive :
      (fd flags : Word) (p : Program) (w : os.World)
      → IsExclusive d p w
      → let ((_, p'), w') = accept4 os fd flags p w in IsExclusive d p' w'
  unfolding accept4
  accept4-IsExclusive fd flags p w e =
      let (c, w') = os.accept4 (shadowfd p fd) flags w in
      record {
        known = λ b low nb. ground (
          arith,
          add_session-roles fd c.0 b p,
          d.accept4_opens (shadowfd p fd) flags b w,
          e.known b low nb,
        );
        plain = ground (arith, add_session-sockets fd c.0 p, e.plain);
      }

  pub leaves :
      {A : Type 0} (program_of : A → Program) (a b c : Bool) (w2 w3 w4 w5 : os.World) (r : A)
      → IsExclusive d (program_of r) w5
      → LeavesExclusive program_of (
          if a
          then exits 1 w2
          else if b
          then exits 1 w3
          else if c
          then exits 1 w4
          else returns r w5)
  leaves program_of true b c w2 w3 w4 w5 r h = tt
  leaves program_of false true c w2 w3 w4 w5 r h = tt
  leaves program_of false false true w2 w3 w4 w5 r h = tt
  leaves program_of false false false w2 w3 w4 w5 r h = h

  -- A plain node that moves brings the role of its communication socket.
  moved-IsExclusive :
      (p : Program) (s t : Socket) (w w' : os.World) {n : Socket}
      → sockets_search_fd p.sockets s.fd ≡ some n
      → IsPlain s
      → t.fd ≡ s.fd
      → Carries os d s w t w'
      → ((b : Word)
          → 2 < b
          → b ≢ minus_one
          → (if s.comfd == b then 1 else 0) + roles b p ≤ opened b w)
      → All IsPlain p.sockets
      → IsExclusive d (moved os p t) w'
  unfolding sockets_transfer_fd
  moved-IsExclusive p s t w w' {n} found plain same (a, b, f) before rest = record {
    known = λ c low nb. ground (
      arith,
      roles-moved os p t c {s = n}
          (subst (λ fd. sockets_search_fd p.sockets fd ≡ some n) (sym same) found),
      f c low nb,
      before c low nb,
      a,
      b,
      plain,
    );
    plain = ground (arith, IsPlain-remove p.sockets t.fd rest);
  }

  pub bind-IsExclusive :
      (flags_addr : Ptr) (stale : Bytes) (sockfd : Word) (addr : Bytes) (p : Program) (w : os.World)
      → IsExclusive d p w
      → LeavesExclusive (λ r. r.1) (bind os flags_addr stale sockfd addr p w)
  unfolding bind
  bind-IsExclusive flags_addr stale sockfd addr p w e =
      elim (Option-cases (sockets_search_fd p.sockets sockfd)) [
        | inl free ↦
            rw (free, bind)
              (record {
                known = λ b low nb. omega (arith, e.known b low nb, d.set_errno_keeps 9 b w);
                plain = e.plain;
              })
        | inr (s, found) ↦
            let port : Word = sin_port addr in
            let (comfd, w1) = os.socket af_unix sock_stream 0 w in
            let (shfd, w2) = os.shm_open (shm_name port) (o_creat + o_rdwr) w1 in
            let (sized, w3) = os.ftruncate shfd 12 w2 in
            let (status, w4) = os.mmap 12 shfd w3 in
            let s1 : Socket = record s {
              port = port;
              comfd_addr = unix_path port;
              comfd = comfd;
              status = status;
            } in
            let ((r, p'), w5) = bind_mapped os flags_addr stale sockfd addr p s1 w4 in
            let (t, carried, public, eq) =
              bind_mapped-MovesTo os d flags_addr stale sockfd addr p s1 w4 in
            let own : s.fd ≡ sockfd = ground (arith, search-some (has_fd sockfd) p.sockets found) in
            let here : sockets_search_fd p.sockets s1.fd ≡ some s =
              subst (λ fd. sockets_search_fd p.sockets fd ≡ some s) (sym own) found in
            let done : IsExclusive d p' w5 = rw eq (
              moved-IsExclusive p s1 t w4 w5 here (IsPlain-search p.sockets sockfd e.plain found)
                public.0 carried
                (λ b low nb. ground (
                  arith,
                  e.known b low nb,
                  d.socket_opens af_unix sock_stream 0 b w,
                  d.shm_open_keeps (shm_name port) (o_creat + o_rdwr) b w1,
                  d.ftruncate_keeps shfd 12 b w2,
                  d.mmap_keeps 12 shfd b w3,
                ))
                e.plain) in
            rw (found, bind) (leaves {A = Word × Program} (λ x. x.1) _ _ _ w2 w3 w4 w5 (r, p') done)
      ]
