-- ===== src/Messages/RoundTrip.antt =====
-- What `dsu_write_fd` sends, `dsu_read_fd` gives back (src/communication.c).
use open_dsu.Prelude.{◌<◌, ◌≡◌, true, [], ◌∷◌, arith}
use open_dsu.Prelude.Words.{Word, lt_int}
use open_dsu.Os.{Os, Bytes}
use open_dsu.Messages.{network_bytes, host_word, overlay, fd_message, Received, read_fd}

overlay-network_bytes :
    (stale : Bytes) (n : Word) → n < 0x1_0000_0000 → host_word (overlay (network_bytes n) stale) ≡ n
overlay-network_bytes [] n h = omega arith
overlay-network_bytes (a ∷ []) n h = omega arith
overlay-network_bytes (a ∷ b ∷ []) n h = omega arith
overlay-network_bytes (a ∷ b ∷ c ∷ []) n h = omega arith
overlay-network_bytes (a ∷ b ∷ c ∷ d ∷ stale) n h = omega arith

module _ (os : Os) where
  -- A message as `dsu_write_fd` builds it, when it arrives, gives the receiver the descriptor and
  -- the port that were sent, whatever its buffers held.
  pub read_fd-fd_message :
      (stale : Bytes) (old : Received) (fd sendfd port n : Word) (w : os.World)
      → port < 0x1_0000_0000
      → lt_int 0 n ≡ true
      → (os.recvmsg fd 0 w).0 ≡ (n, fd_message sendfd port)
      → (read_fd os stale old fd w).0 ≡ record { result = n; recvfd = sendfd; port = port }
  unfolding read_fd
  read_fd-fd_message stale old fd sendfd port n w h k e =
      ground (arith, overlay-network_bytes stale port h)
