-- ===== src/Descriptors/Protocol.antt =====
-- The protocol of src/core.c and the answers of the event handlers keep to the open descriptors.
use open_dsu.Prelude.{ℕ, ◌+◌, ◌≤◌, ◌≡◌, ◌≢◌, refl, arith, ◌==◌, if◌then◌else◌}
use open_dsu.Prelude.Words.{Word, minus_one}
use open_dsu.Os.{Os}
use open_dsu.State.{Socket}
use open_dsu.Core.{
  monitor_locked, monitor_fd, quit_monitoring, increase_version, configure_socket, observed_version,
}
use open_dsu.Messages.{answer, write_fd, count_transfer, Outcome, peer_closed}
use open_dsu.Calls.Roles.{roles_at}
use open_dsu.Descriptors.{HasDescriptors}

-- Whether the handler of a request has closed this descriptor.
abbrev pub closed : Outcome → Word → Word → ℕ
closed peer_closed c b = if c == b then 1 else 0
closed _ c b = 0

module _ (os : Os) (d : HasDescriptors os) where
  open d use {opened}

  -- The roles of a node grow by no more than what is open.
  abbrev pub Conserves : (Socket → os.World → Socket → os.World → Type 0)
  Conserves s w s' w' =
      (s'.fd ≡ s.fd)
      × ((b : Word) → b ≢ minus_one → roles_at b s' + opened b w ≤ roles_at b s + opened b w')

  quit_monitoring-Conserves :
      (s : Socket) (w : os.World) → let (s', w') = quit_monitoring os s w in Conserves s w s' w'
  unfolding quit_monitoring
  quit_monitoring-Conserves s w =
      (ground arith, λ b h. grind (arith, d.close_closes, d.store_keeps))

  increase_version-Keeps :
      (s : Socket) (b : Word) (w : os.World) → opened b w ≤ opened b (increase_version os s w).1
  unfolding increase_version
  increase_version-Keeps s b w = grind (arith, d.store_keeps)

  pub monitor_fd-Conserves :
      (s : Socket) (w : os.World) → let (s', w') = monitor_fd os s w in Conserves s w s' w'
  unfolding monitor_fd monitor_locked
  monitor_fd-Conserves s w = (
    grind (arith, quit_monitoring-Conserves),
    λ b h. grind (
      arith, quit_monitoring-Conserves, increase_version-Keeps, d.sem_wait_keeps, d.sem_post_keeps,
    ),
  )

  pub configure_socket-Conserves :
      (s : Socket) (w : os.World) → let (s', w') = configure_socket os s w in Conserves s w s' w'
  unfolding configure_socket
  configure_socket-Conserves s w = (refl, λ b h. grind (arith, d.fcntl_keeps))

  pub observed_version-Keeps :
      (s : Socket) (b : Word) (w : os.World) → opened b w ≤ opened b (observed_version os s w).1
  unfolding observed_version
  observed_version-Keeps s b w = grind (arith, d.sem_wait_keeps, d.sem_post_keeps)

  write_fd-Keeps :
      (fd sendfd port b : Word) (w : os.World)
      → opened b w ≤ opened b (write_fd os fd sendfd port w).1
  unfolding write_fd
  write_fd-Keeps fd sendfd port b w = grind (arith, d.getsockopt_keeps, d.sendmsg_keeps)

  count_transfer-Keeps :
      (s : Socket) (b : Word) (w : os.World) → opened b w ≤ opened b (count_transfer os s w).1
  unfolding count_transfer
  count_transfer-Keeps s b w = grind (arith, d.store_keeps)

  -- A request closes the connection exactly where it reports so.
  pub answer-Keeps :
      (s : Socket) (c b : Word) (w : os.World)
      → let ((o, s'), w') = answer os s c w in
        (s' ≡ record s { transfer = s'.transfer }) × (opened b w ≤ opened b w' + closed o c b)
  unfolding answer
  answer-Keeps s c b w = grind (
    arith, count_transfer-Keeps, write_fd-Keeps, d.recv_keeps, d.close_closes, d.sem_wait_keeps,
    d.sem_post_keeps,
  )
