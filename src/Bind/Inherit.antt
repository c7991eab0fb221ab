-- ===== src/Bind/Inherit.antt =====
-- A new version takes a bound socket over from the running one: `dsu_inherit_fd` and `bind` of
-- src/core.c, against the answer of the handlers of src/event_handlers.
use open_dsu.Prelude.{
  sym, some, none, ◌≢◌, ◌<◌, ◌≡◌, ◌≢◌, ◌∙◌, refl, true, [], ◌∷◌, ◌++◌, List, arith, ◌==◌, ◌&&◌, ap,
}
use open_dsu.Prelude.Words.{Word, Ptr, minus_one, lt_int, truth}
use open_dsu.Os.{Os, Bytes, Message}
use open_dsu.State.{Socket, Program}
use open_dsu.Messages.{answer, read_fd, Received, fd_message}
use open_dsu.Messages.RoundTrip.{read_fd-fd_message}
use open_dsu.Messages.Channel.{IsChannel, answer-queue}
use open_dsu.Bind.{
  inherit_fd, bind_inherited, moved, bind_mapped, monitor_init, int_bytes, eaddrinuse,
}

-- The world in which the new version has sent its request.
abbrev pub requested : (os : Os) → Socket → os.World → os.World
requested os s w = (os.send s.comfd (int_bytes s.port) 0 (os.connect s.comfd s.comfd_addr w).1).1

-- The new version reaches the running one, and its request is sent.
abbrev pub Requests : (os : Os) → Socket → os.World → Type 0
Requests os s w =
    ((os.connect s.comfd s.comfd_addr w).0 ≢ minus_one)
    × (lt_int 0 (os.send s.comfd (int_bytes s.port) 0 (os.connect s.comfd s.comfd_addr w).1).0
        ≡ true)

module _ (os : Os) (conn fd : Word) (c : IsChannel os conn fd) where
  open c use {queue, number, is_valid}

  read_fd-queue :
      (stale : Bytes) (old : Received) (sendfd port : Word) (rest : List Message) (w : os.World)
      → port < 0x1_0000_0000
      → queue w ≡ fd_message sendfd port ∷ rest
      → let (got, w') = read_fd os stale old fd w in
        (got ≡ record { result = 4; recvfd = number w; port = port }) × (queue w' ≡ rest)
  unfolding read_fd
  read_fd-queue stale old sendfd port rest w h q =
      let (m, left, _) = c.receives sendfd port rest w q in
      (read_fd-fd_message os stale old fd (number w) port 4 w h refl m, ground (arith, left))

module _ (os : Os) (conn : Word) (s : Socket) (c : IsChannel os conn s.comfd) where
  open c use {queue, number, refers, file, is_valid}

  -- The world in which the first of two messages was read.
  abbrev pub first_read : os.World → os.World
  first_read w = (os.recvmsg s.comfd 0 w).1

  abbrev pub both_read : os.World → os.World
  both_read w = first_read (first_read w)

  read_fd-world :
      (stale : Bytes) (old : Received) (w : os.World)
      → (read_fd os stale old s.comfd w).1 ≡ first_read w
  unfolding read_fd
  read_fd-world stale old w = ground arith

  -- The descriptors of two messages stand for the files of those that were sent.
  both_read-refers :
      (a b port : Word) (w : os.World)
      → queue w ≡ fd_message a port ∷ fd_message b port ∷ []
      → (refers (number w) (both_read w) ≡ some (file a))
        × (refers (number (first_read w)) (both_read w) ≡ some (file b))
  both_read-refers a b port w q =
      let (_, left, first) = c.receives a port (fd_message b port ∷ []) w q in
      let (_, _, second) = c.receives b port [] (first_read w) left in
      let other : number w ≢ number (first_read w) = λ e.
        let open_twice : some (file a) ≡ none =
          sym first ∙ ap (λ d. refers d (first_read w)) e ∙ c.unused (first_read w) in
        cc in
      (c.refers-recvmsg (number w) (first_read w) other ∙ first, second)

  -- What two messages tell the new version.
  inherit_fd-queue :
      (stale : Bytes) (a b port : Word) (w : os.World)
      → Requests os s w
      → port < 0x1_0000_0000
      → queue (requested os s w) ≡ fd_message a port ∷ fd_message b port ∷ []
      → (inherit_fd os stale s w).0 ≡ (
        port,
        record s {
          shadowfd = number (requested os s w);
          comfd = number (first_read (requested os s w));
        },
      )
  unfolding inherit_fd
  inherit_fd-queue stale a b port w r h q =
      let w1 = requested os s w in
      let blank : Received = record { result = 0; recvfd = s.shadowfd; port = 0 } in
      let (got, w2) = read_fd os stale blank s.comfd w1 in
      let one =
        read_fd-queue os conn s.comfd c stale blank a port (fd_message b port ∷ []) w1 h q in
      let two =
        read_fd-queue os conn s.comfd c stale (record { result = 0; recvfd = 0; port = got.port }) b
          port [] w2 h one.1 in
      ground (arith, r, one.0, two.0, ap number (read_fd-world stale blank w1))

  answer-arrives :
      (old : Socket) (wa w : os.World)
      → lt_int 0 (os.recv conn 4 0x40 wa).0.0 ≡ true
      → old.port < 0x1_0000
      → queue wa ≡ []
      → is_valid old.shadowfd ≡ true
      → is_valid old.comfd ≡ true
      → queue w ≡ queue (answer os old conn wa).1
      → queue w ≡ fd_message old.shadowfd old.port ∷ fd_message old.comfd old.port ∷ []
  answer-arrives old wa w request port empty valid valid' arrived =
      arrived
      ∙ answer-queue os conn s.comfd c old wa request (omega (arith, port)) valid valid'
      ∙ ap (λ l. (l ++ fd_message old.shadowfd old.port ∷ []) ++ fd_message old.comfd old.port ∷ [])
          empty

  -- The two sides together, where the running version has answered when the new one reads.
  inherit_fd-answer :
      (stale : Bytes) (old : Socket) (wa w : os.World)
      → lt_int 0 (os.recv conn 4 0x40 wa).0.0 ≡ true
      → old.port < 0x1_0000
      → queue wa ≡ []
      → is_valid old.shadowfd ≡ true
      → is_valid old.comfd ≡ true
      → Requests os s w
      → queue (requested os s w) ≡ queue (answer os old conn wa).1
      → (inherit_fd os stale s w).0 ≡ (
        old.port,
        record s {
          shadowfd = number (requested os s w);
          comfd = number (first_read (requested os s w));
        },
      )
  inherit_fd-answer stale old wa w request port empty valid valid' r arrived =
      inherit_fd-queue stale old.shadowfd old.comfd old.port w r (omega (arith, port))
        (answer-arrives old wa (requested os s w) request port empty valid valid' arrived)

  bind_inherited-fields :
      (t : Socket) (w : os.World)
      → let t' = (bind_inherited os t w).0 in
        (t'.fd ≡ t.fd)
        × (t'.shadowfd ≡ t.shadowfd)
        × (t'.comfd ≡ t.comfd)
        × (truth t'.monitoring ≡ true)
  unfolding bind_inherited
  bind_inherited-fields t w = ground arith

  -- The name of the communication socket is in use, the running version answers the request of the
  -- new one for its port, its two descriptors are valid, and messages and their descriptors arrive as
  -- the kernel documents. Then `bind` gives 0, and the node of the user's descriptor joins the bound
  -- sockets and monitors the port. When both messages are read, its shadow stands for the socket of
  -- the running version, and its communication socket for that of the running version.
  pub bind_mapped-takes_over :
      (flags_addr : Ptr) (stale : Bytes) (sockfd : Word) (addr : Bytes) (p : Program) (old : Socket)
      (wa w : os.World)
      → lt_int 0 (os.recv conn 4 0x40 wa).0.0 ≡ true
      → 0 < old.port
      → old.port < 0x1_0000
      → queue wa ≡ []
      → is_valid old.shadowfd ≡ true
      → is_valid old.comfd ≡ true
      → (monitor_init os flags_addr s w).0 ≡ minus_one
      → os.errno (monitor_init os flags_addr s w).1 ≡ eaddrinuse
      → Requests os s (monitor_init os flags_addr s w).1
      → queue (requested os s (monitor_init os flags_addr s w).1) ≡ queue (answer os old conn wa).1
      → let (result, p') = (bind_mapped os flags_addr stale sockfd addr p s w).0 in
        (result ≡ 0)
        × ((t : Socket) × (p' ≡ moved os p t)
            × (t.fd ≡ s.fd)
            × (refers t.shadowfd (both_read (requested os s (monitor_init os flags_addr s w).1))
                ≡ some (file old.shadowfd))
            × (refers t.comfd (both_read (requested os s (monitor_init os flags_addr s w).1))
                ≡ some (file old.comfd))
            × (truth t.monitoring ≡ true))
  unfolding bind_mapped
  bind_mapped-takes_over flags_addr stale sockfd addr p old wa w request pos port empty valid valid'
        failed used r arrived =
      let (failure, w1) = monitor_init os flags_addr s w in
      let ((port', s'), w2) = inherit_fd os stale s w1 in
      let got = inherit_fd-answer stale old wa w1 request port empty valid valid' r arrived in
      let asked = requested os s w1 in
      let (one, two) =
        both_read-refers old.shadowfd old.comfd old.port asked
          (answer-arrives old wa asked request port empty valid valid' arrived) in
      let busy : ((failure == minus_one) && (os.errno w1 == eaddrinuse)) ≡ true =
        ground (arith, failed, used) in
      let told : lt_int 0 port' ≡ true = ground (arith, ap (λ x. x.0) got) in
      let (same, shadow, talk, monitors) = bind_inherited-fields s' w2 in
      rw (busy, bind_mapped)
        (rw (told, bind_mapped)
          (
            refl,
            (
              (bind_inherited os s' w2).0,
              refl,
              same ∙ ap (λ x. x.1.fd) got,
              ap (λ d. refers d (both_read asked)) (shadow ∙ ap (λ x. x.1.shadowfd) got) ∙ one,
              ap (λ d. refers d (both_read asked)) (talk ∙ ap (λ x. x.1.comfd) got) ∙ two,
              monitors,
            ),
          ))
