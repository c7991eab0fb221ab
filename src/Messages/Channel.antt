-- ===== src/Messages/Channel.antt =====
-- What the answer to a request sends over an internal connection (`dsu_write_fd` and the handlers of
-- src/event_handlers), and what arrives at the other end.
use open_dsu.Prelude.{
  Option, Bool, ap, ◌∙◌, ℕ, ◌≡◌, true, false, none, some, List, [], ◌∷◌, ◌++◌, arith, ◌≢◌,
}
use open_dsu.Prelude.Words.{Word, Ptr, minus_one, lt_int, incr}
use open_dsu.Os.{Os, Message}
use open_dsu.State.{Socket}
use open_dsu.Messages.{fd_message, sol_socket, write_fd, answer, count_transfer}

-- The kernel gives the receiver a descriptor of its own for the one that was sent.
abbrev pub arriving : Word → Message → Message
arriving number m = record m {
  control = elim m.control [ none ↦ none | some c ↦ some (record c { fd = number }) ];
}

-- The connection whose end `conn` belongs to the process that answers and whose end `fd` to the one
-- that asked, which are told apart by their numbers. `queue` holds the messages on the way to `fd`.
-- A message with a descriptor arrives with a number that the kernel chooses then: `number w`, which
-- the process that asked does not have open. `refers d w` is the file that `d` stands for in that
-- process, and `file d` the one that `d` stands for in the process that answers.
-- `is_valid` names descriptors that are open all the while. No other call of an answer writes to the
-- connection, or reads from the end `fd`.
pub record IsChannel (os : Os) (conn fd : Word) : Type 0 where
  pub apart : conn ≢ fd
  pub queue : os.World → List Message
  pub number : os.World → Word
  pub refers : Word → os.World → Option ℕ
  pub file : Word → ℕ
  pub is_valid : Word → Bool
  pub unused : (w : os.World) → refers (number w) w ≡ none
  pub sends :
      (sendfd port : Word) (w : os.World)
      → is_valid sendfd ≡ true
      → queue (os.sendmsg conn (fd_message sendfd port) 0 w).1
        ≡ queue w ++ fd_message sendfd port ∷ []
  pub receives :
      (sendfd port : Word) (rest : List Message) (w : os.World)
      → queue w ≡ fd_message sendfd port ∷ rest
      → ((os.recvmsg fd 0 w).0 ≡ (4, arriving (number w) (fd_message sendfd port)))
        × (queue (os.recvmsg fd 0 w).1 ≡ rest)
        × (refers (number w) (os.recvmsg fd 0 w).1 ≡ some (file sendfd))
  pub refers-recvmsg :
      (d : Word) (w : os.World) → d ≢ number w → refers d (os.recvmsg fd 0 w).1 ≡ refers d w
  pub passes_check :
      (sendfd : Word) (w : os.World)
      → is_valid sendfd ≡ true
      → lt_int (os.getsockopt sendfd sol_socket 4 w).0.0 0 ≡ false
  pub queue-getsockopt :
      (sendfd : Word) (w : os.World) → queue (os.getsockopt sendfd sol_socket 4 w).1 ≡ queue w
  pub queue-recv : (n : ℕ) (f : Word) (w : os.World) → queue (os.recv conn n f w).1 ≡ queue w
  pub queue-sem_wait : (p : Ptr) (w : os.World) → queue (os.sem_wait p w).1 ≡ queue w
  pub queue-sem_post : (p : Ptr) (w : os.World) → queue (os.sem_post p w).1 ≡ queue w
  pub queue-store : (p : Ptr) (i : ℕ) (v : Word) (w : os.World) → queue (os.store p i v w) ≡ queue w

module _ (os : Os) (conn fd : Word) (c : IsChannel os conn fd) where
  open c use {queue, is_valid}

  write_fd-queue :
      (sendfd port : Word) (w : os.World)
      → is_valid sendfd ≡ true
      → queue (write_fd os conn sendfd port w).1 ≡ queue w ++ fd_message sendfd port ∷ []
  unfolding write_fd
  write_fd-queue sendfd port w valid =
      let w1 = (os.getsockopt sendfd sol_socket 4 w).1 in
      ground (
        arith,
        c.passes_check sendfd w valid,
        c.queue-getsockopt sendfd w,
        c.sends sendfd port w1 valid,
      )

  count_transfer-queue :
      (s : Socket) (w : os.World)
      → let (s', w') = count_transfer os s w in
        (queue w' ≡ queue w)
        × (s'.shadowfd ≡ s.shadowfd)
        × (s'.comfd ≡ s.comfd)
        × (s'.port ≡ s.port)
  unfolding count_transfer
  count_transfer-queue s w =
      ground (arith, c.queue-store s.status 2 (incr (os.load s.status 2 w)) w)

  -- A request for a port is answered by the descriptor that stands for the socket and by that of the
  -- communication socket, in this order.
  pub answer-queue :
      (s : Socket) (w : os.World)
      → lt_int 0 (os.recv conn 4 0x40 w).0.0 ≡ true
      → s.port ≢ minus_one
      → is_valid s.shadowfd ≡ true
      → is_valid s.comfd ≡ true
      → queue (answer os s conn w).1
        ≡ (queue w ++ fd_message s.shadowfd s.port ∷ []) ++ fd_message s.comfd s.port ∷ []
  unfolding answer
  answer-queue s w request port valid valid' =
      let w1 = (os.recv conn 4 0x40 w).1 in
      let w2 = (os.sem_wait s.status_sem w1).1 in
      let (s', w3) = count_transfer os s w2 in
      let w4 = (os.sem_post s.status_sem w3).1 in
      let w5 = (write_fd os conn s'.shadowfd s.port w4).1 in
      let (counted, first, second, _) = count_transfer-queue s w2 in
      ground (
        arith,
        c.queue-recv 4 0x40 w,
        c.queue-sem_wait s.status_sem w1,
        counted,
        first,
        second,
        c.queue-sem_post s.status_sem w3,
        write_fd-queue s'.shadowfd s.port w4 (ap is_valid first ∙ valid),
        write_fd-queue s'.comfd s.port w5 (ap is_valid second ∙ valid'),
      )
