-- ===== src/Messages/Answer.antt =====
-- What answering a request does to the socket and the shared status (the handlers of
-- src/event_handlers).
use open_dsu.Prelude.{◌≡◌, ◌||◌, not, arith, ◌==◌, if◌then◌else◌}
use open_dsu.Prelude.Words.{Word, minus_one, incr}
use open_dsu.Os.{Os, IsMemory}
use open_dsu.State.{Socket}
use open_dsu.Core.{dsu_pgid, dsu_version, dsu_transfer}
use open_dsu.Core.Monitor.{Status, status_of}
use open_dsu.Messages.{answer, count_transfer, peer_closed}

-- A process counts itself in `transfer` at its first answer.
unfoldable pub count_answer : Socket → Status → Socket × Status
count_answer s st =
    if s.transfer == 0
    then (record s { transfer = 1 }, record st { transfer = incr st.transfer })
    else (s, st)

module _ (os : Os) where
  -- Where shared memory behaves as memory does, the code under the lock does the specified step on
  -- the socket and on `status`.
  pub count_transfer-count_answer :
      (m : IsMemory os) (s : Socket) (w : os.World)
      → let (s', w') = count_transfer os s w in
        ◌≡◌ {A = Socket × Status} (s', status_of os s w') (count_answer s (status_of os s w))
  unfolding count_transfer count_answer
  count_transfer-count_answer m s w =
      let v : Word = incr (os.load s.status dsu_transfer w) in
      ground (
        arith,
        m.load-store s.status dsu_transfer v w,
        m.load-store_ne s.status dsu_transfer dsu_pgid v w (omega arith),
        m.load-store_ne s.status dsu_transfer dsu_version v w (omega arith),
      )

  -- A request changes no field of the socket but `transfer`, which becomes 1 if it was 0, something
  -- was received and the port is not -1. The outcome is that the peer has closed if and only if
  -- the receive gave 0.
  pub answer-counted :
      (s : Socket) (conn : Word) (w : os.World)
      → let got = os.recv conn 4 0x40 w in
        let r : Word = got.0.0 in
        let (o, s') = (answer os s conn w).0 in
        (s' ≡ record s { transfer = s'.transfer })
        × (s'.transfer ≡ (
            if r == 0 || r == minus_one || s.port == minus_one || not (s.transfer == 0)
            then s.transfer
            else 1))
        × ((o ≡ peer_closed → r ≡ 0) × (r ≡ 0 → o ≡ peer_closed))
  unfolding answer
  answer-counted s conn w = ground arith
