-- ===== src/Core/Monitor.antt =====
-- `dsu_monitor_fd` (src/core.c) against a specification: one step on a process's socket and the
-- status that all processes share.
use open_dsu.Prelude.{◌≡◌, Bool, true, false, ◌&&◌, not, arith, if◌then◌else◌, Bool-cases, inl, inr}
use open_dsu.Prelude.Words.{Word, lt_int, incr, decr, truth}
use open_dsu.Os.{Os, IsMemory}
use open_dsu.State.{Socket}
use open_dsu.Core.{
  dsu_pgid, dsu_version, dsu_transfer, monitor_locked, quit_monitoring, increase_version,
}

-- The array `status` of one port.
pub record Status : Type 0 where
  pub pgid : Word
  pub version : Word
  pub transfer : Word

-- The socket belongs to an older version that has to stop monitoring.
abbrev pub is_behind : Socket → Status → Bool
is_behind s st = lt_int s.version st.version && truth s.monitoring && not (truth s.locked)

abbrev pub is_ahead : Socket → Status → Bool
is_ahead s st = lt_int st.version s.version && truth s.monitoring

-- One step of the protocol by a process of group `g`.
unfoldable pub observe : Word → Socket → Status → Socket × Status
observe g s st =
    if is_behind s st
    then (record s { monitoring = 0; transfer = 0 }, record st { transfer = decr st.transfer })
    else if is_ahead s st
    then (s, record st { pgid = g; version = incr st.version })
    else (s, st)

module _ (os : Os) where
  abbrev pub status_of : Socket → os.World → Status
  status_of s w = record {
    pgid = os.load s.status dsu_pgid w;
    version = os.load s.status dsu_version w;
    transfer = os.load s.status dsu_transfer w;
  }

  module _ (m : IsMemory os) where
    quit_behind :
        (s : Socket) (w : os.World)
        → is_behind s (status_of s w) ≡ true
        → let w1 = (os.close s.comfd w).1 in
          quit_monitoring os s w ≡ (
            record s { monitoring = 0; transfer = 0 },
            os.store s.status dsu_transfer (decr (os.load s.status dsu_transfer w)) w1,
          )
    unfolding quit_monitoring
    quit_behind s w h = ground (arith, m.load-close s.status dsu_transfer s.comfd w)

    quit_not_behind :
        (s : Socket) (w : os.World)
        → is_behind s (status_of s w) ≡ false
        → quit_monitoring os s w ≡ (s, w)
    unfolding quit_monitoring
    quit_not_behind s w h = ground arith

    increase_ahead :
        (s : Socket) (w : os.World)
        → is_ahead s (status_of s w) ≡ true
        → let w1 = os.store s.status dsu_pgid (os.process_group w) w in
          (increase_version os s w).1
          ≡ os.store s.status dsu_version (incr (os.load s.status dsu_version w)) w1
    unfolding increase_version
    increase_ahead s w h =
        ground (
          arith,
          m.load-store_ne s.status dsu_pgid dsu_version (os.process_group w) w (omega arith),
        )

    increase_not_ahead :
        (s : Socket) (w : os.World)
        → is_ahead s (status_of s w) ≡ false
        → (increase_version os s w).1 ≡ w
    unfolding increase_version
    increase_not_ahead s w h = ground arith

    status-stored_transfer :
        (s : Socket) (v : Word) (w : os.World)
        → status_of s (os.store s.status dsu_transfer v w) ≡ record (status_of s w) { transfer = v }
    status-stored_transfer s v w = ground (
      arith,
      m.load-store s.status dsu_transfer v w,
      m.load-store_ne s.status dsu_transfer dsu_pgid v w (omega arith),
      m.load-store_ne s.status dsu_transfer dsu_version v w (omega arith),
    )

    status-stored_version :
        (s : Socket) (g v : Word) (w : os.World)
        → status_of s (os.store s.status dsu_version v (os.store s.status dsu_pgid g w))
          ≡ record (status_of s w) { pgid = g; version = v }
    status-stored_version s g v w =
        let w1 = os.store s.status dsu_pgid g w in
        ground (
          arith,
          m.load-store s.status dsu_pgid g w,
          m.load-store s.status dsu_version v w1,
          m.load-store_ne s.status dsu_pgid dsu_transfer g w (omega arith),
          m.load-store_ne s.status dsu_version dsu_pgid v w1 (omega arith),
          m.load-store_ne s.status dsu_version dsu_transfer v w1 (omega arith),
        )

    status-closed :
        (s : Socket) (fd : Word) (w : os.World) → status_of s (os.close fd w).1 ≡ status_of s w
    status-closed s fd w = ground (
      arith,
      m.load-close s.status dsu_pgid fd w,
      m.load-close s.status dsu_version fd w,
      m.load-close s.status dsu_transfer fd w,
    )

    -- Where shared memory behaves as memory does, the code under the lock does exactly the specified
    -- step on the socket and on `status`: quitting and raising the version exclude each other.
    pub monitor_locked-observe :
        (s : Socket) (w : os.World)
        → let (s', w') = monitor_locked os s w in
          ◌≡◌ {A = Socket × Status}
            (s', status_of s w')
            (observe (os.process_group w) s (status_of s w))
    unfolding monitor_locked observe
    monitor_locked-observe s w = elim (Bool-cases (is_behind s (status_of s w))) [
      | inl behind ↦
          let s' : Socket = record s { monitoring = 0; transfer = 0 } in
          let t : Word = decr (os.load s.status dsu_transfer w) in
          let w1 : os.World = (os.close s.comfd w).1 in
          let w2 : os.World = os.store s.status dsu_transfer t w1 in
          rw (quit_behind s w behind, monitor_locked)
            (rw (increase_not_ahead s' w2 (ground arith))
              (rw (status-stored_transfer s t w1) (ground (arith, status-closed s s.comfd w))))
      | inr current ↦
          rw (quit_not_behind s w current, monitor_locked)
            (elim (Bool-cases (is_ahead s (status_of s w))) [
              | inl ahead ↦
                  rw (increase_ahead s w ahead, monitor_locked)
                    (rw (status-stored_version s (os.process_group w) _ w) (ground arith))
              | inr same ↦ rw (increase_not_ahead s w same, monitor_locked) (ground arith)
            ])
    ]
