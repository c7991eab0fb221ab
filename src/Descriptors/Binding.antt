-- ===== src/Descriptors/Binding.antt =====
-- `bind` (src/core.c) keeps to the open descriptors: what it inherits is what was sent.
use open_dsu.Prelude.{
  ◌+◌, ◌≤◌, ◌<◌, ◌≡◌, ◌≢◌, refl, ◌∙◌, ◌&&◌, arith, ◌==◌, if◌then◌else◌, Bool-cases, inl, inr,
}
use open_dsu.Prelude.Words.{Word, Ptr, minus_one, lt_int}
use open_dsu.Os.{Os, Bytes}
use open_dsu.State.{Socket, Program}
use open_dsu.Messages.{Received, read_fd, take_message}
use open_dsu.Bind.{
  eaddrinuse, int_bytes, monitor_init, inherit_fd, inherit_version, bind_inherited, reset_status,
  bind_first, moved, bind_mapped,
}
use open_dsu.Bind.Moves.{IsPublic, inherit_fd-keeps, bind_first-IsPublic, bind_inherited-IsPublic}
use open_dsu.Descriptors.{HasDescriptors}

module _ (os : Os) (d : HasDescriptors os) where
  open d use {opened}

  -- The connections stay, and the communication socket is the same or one that was opened.
  abbrev pub Carries : Socket → os.World → Socket → os.World → Type 0
  Carries s w s' w' =
      (s'.fds ≡ s.fds)
      × (s'.comfds ≡ s.comfds)
      × ((b : Word)
          → 2 < b
          → b ≢ minus_one
          → (if s'.comfd == b then 1 else 0) + opened b w
            ≤ (if s.comfd == b then 1 else 0) + opened b w')

  monitor_init-Keeps :
      (flags_addr : Ptr) (s : Socket) (b : Word) (w : os.World)
      → opened b w ≤ opened b (monitor_init os flags_addr s w).1
  unfolding monitor_init
  monitor_init-Keeps flags_addr s b w =
      grind (arith, d.bind_keeps, d.listen_keeps, d.fcntl_keeps, d.store_keeps)

  -- A descriptor beyond the standard ones that `dsu_read_fd` stores was sent with the message.
  read_fd-opens :
      (stale : Bytes) (old : Received) (fd b : Word) (w : os.World)
      → b ≢ minus_one
      → let (got, w') = read_fd os stale old fd w in
        (if got.recvfd == b then 1 else 0) + opened b w
        ≤ (if old.recvfd == b then 1 else 0) + opened b w'
  unfolding read_fd take_message
  read_fd-opens stale old fd b w nb = grind (arith, d.recvmsg_opens)

  read_fd-Keeps :
      (stale : Bytes) (old : Received) (fd b : Word) (w : os.World)
      → opened b w ≤ opened b (read_fd os stale old fd w).1
  unfolding read_fd
  read_fd-Keeps stale old fd b w = grind (arith, d.recvmsg_opens)

  inherit_fd-Carries :
      (stale : Bytes) (s : Socket) (w : os.World)
      → let ((_, s'), w') = inherit_fd os stale s w in Carries s w s' w'
  unfolding inherit_fd
  inherit_fd-Carries stale s w =
      let (c, w1) = os.connect s.comfd s.comfd_addr w in
      let (n, w2) = os.send s.comfd (int_bytes s.port) 0 w1 in
      let old : Received = record { result = 0; recvfd = s.shadowfd; port = 0 } in
      let (first, w3) = read_fd os stale old s.comfd w2 in
      let old' : Received = record { result = 0; recvfd = 0; port = first.port } in
      let (second, w4) = read_fd os stale old' s.comfd w3 in
      (
        ground arith,
        ground arith,
        λ b low nb. ground (
          arith,
          d.connect_keeps s.comfd s.comfd_addr b w,
          d.send_keeps s.comfd (int_bytes s.port) 0 b w1,
          read_fd-Keeps stale old s.comfd b w2,
          read_fd-opens stale old' s.comfd b w3 nb,
          d.close_closes s.comfd b w4,
        ),
      )

  bind_inherited-Carries :
      (s : Socket) (w : os.World) → let (s', w') = bind_inherited os s w in Carries s w s' w'
  unfolding bind_inherited inherit_version
  bind_inherited-Carries s w = (
    ground arith,
    ground arith,
    λ b low nb. grind (arith, d.sem_wait_keeps, d.sem_post_keeps, d.sem_open_keeps),
  )

  bind_first-Carries :
      (s : Socket) (w : os.World) → let (s', w') = bind_first os s w in Carries s w s' w'
  unfolding bind_first reset_status
  bind_first-Carries s w = (
    ground arith,
    ground arith,
    λ b low nb. grind (
      arith, d.sem_wait_keeps, d.sem_post_keeps, d.sem_open_keeps, d.sem_unlink_keeps,
      d.sem_init_keeps, d.store_keeps,
    ),
  )

  Carries-trans :
      (s t u : Socket) (w w' w'' : os.World)
      → Carries s w t w'
      → Carries t w' u w''
      → Carries s w u w''
  Carries-trans s t u w w' w'' (a, b, f) (a', b', g) =
      (a' ∙ a, b' ∙ b, λ c low nb. omega (arith, f c low nb, g c low nb))

  Carries-after :
      (s t : Socket) (w w' w'' : os.World)
      → ((b : Word) → opened b w ≤ opened b w')
      → Carries s w' t w''
      → Carries s w t w''
  Carries-after s t w w' w'' k (a, b, f) = (a, b, λ c low nb. omega (arith, f c low nb, k c))

  Carries-before :
      (s t : Socket) (w w' w'' : os.World)
      → ((b : Word) → opened b w' ≤ opened b w'')
      → Carries s w t w'
      → Carries s w t w''
  Carries-before s t w w' w'' k (a, b, f) = (a, b, λ c low nb. omega (arith, f c low nb, k c))

  -- The node that moves is public, and carries the communication socket.
  abbrev pub MovesTo : Program → Socket → os.World → Program → os.World → Type 0
  MovesTo p s w p' w' =
      (t : Socket) × Carries s w t w' × IsPublic s.fd s.port t × (p' ≡ moved os p t)

  pub bind_mapped-MovesTo :
      (flags_addr : Ptr) (stale : Bytes) (sockfd : Word) (addr : Bytes) (p : Program) (s : Socket)
      (w : os.World)
      → let ((_, p'), w') = bind_mapped os flags_addr stale sockfd addr p s w in MovesTo p s w p' w'
  unfolding bind_mapped
  bind_mapped-MovesTo flags_addr stale sockfd addr p s w =
      let (r, w1) = monitor_init os flags_addr s w in
      let ((port, s'), w2) = inherit_fd os stale s w1 in
      let kept = inherit_fd-keeps os stale s w1 in
      let begun = λ (b : Word). monitor_init-Keeps flags_addr s b w in
      elim (Bool-cases ((r == minus_one) && (os.errno w1 == eaddrinuse))) [
        | inr alone ↦
            let (t, w3) = bind_first os s w1 in
            rw (alone, bind_mapped)
              (
                t,
                Carries-after s t w w1 _ begun (
                    Carries-before s t w1 w3 _ (λ b. d.bind_keeps sockfd addr b w3)
                      (bind_first-Carries s w1)),
                bind_first-IsPublic os s w1,
                refl,
              )
        | inl busy ↦ elim (Bool-cases (lt_int 0 port)) [
          | inl sent ↦
              let (t, w3) = bind_inherited os s' w2 in
              rw (busy, bind_mapped)
                (rw (sent, bind_mapped)
                  (
                    t,
                    Carries-after s t w w1 w3 begun (
                        Carries-trans s s' t w1 w2 w3 (inherit_fd-Carries stale s w1)
                          (bind_inherited-Carries s' w2)),
                    ground (arith, kept, bind_inherited-IsPublic os s' w2),
                    refl,
                  ))
          | inr refused ↦
              let (t, w3) = bind_first os s' w2 in
              rw (busy, bind_mapped)
                (rw (refused, bind_mapped)
                  (
                    t,
                    Carries-after s t w w1 _ begun (
                        Carries-before s t w1 w3 _ (λ b. d.bind_keeps sockfd addr b w3)
                          (Carries-trans s s' t w1 w2 w3 (inherit_fd-Carries stale s w1)
                            (bind_first-Carries s' w2))),
                    ground (arith, kept, bind_first-IsPublic os s' w2),
                    refl,
                  ))
        ]
      ]
