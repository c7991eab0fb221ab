-- ===== src/Select/Convert.antt =====
-- `dsu_pre_select` and `dsu_post_select` (src/event_handlers/select.c): the user's descriptor and
-- its shadow change places in the set.
use open_dsu.Prelude.{◌≡◌, ◌≢◌, refl, ◌⊎◌, true, false, ◌&&◌, not, some, arith, ◌==◌, if◌then◌else◌}
use open_dsu.Prelude.Words.{Word, truth}
use open_dsu.Os.{Os, FdSet}
use open_dsu.State.{Socket}
use open_dsu.Select.{fd_set, fd_clr, Globals, pre_select, post_select}

module _ (os : Os) where
  -- Other descriptors are not touched, and the user's own is no longer watched under its number
  -- unless it is its own shadow.
  pre_select-set :
      (s : Socket) (set : FdSet) (g : Globals) (w : os.World) (x : Word)
      → x ≢ s.shadowfd
      → (pre_select os s set g w).0.1 x ≡ (set x && not (x == s.fd))
  unfolding pre_select
  pre_select-set s set g w x h = ground arith

  -- A shadow descriptor that was not in the set comes into it only if the user watches the socket
  -- and it is monitored, and during a transfer, if the socket is blocking, only with its lock.
  pre_select-guard :
      (s : Socket) (set : FdSet) (g : Globals) (w : os.World)
      → set s.shadowfd ≡ false
      → (pre_select os s set g w).0.1 s.shadowfd ≡ true
      → let (s', set', g') = (pre_select os s set g w).0 in
        (set s.fd ≡ true)
        × (truth s.monitoring ≡ true)
        × ((s'.locked ≡ 1) ⊎ (truth g'.transfer ≡ false) ⊎ (truth s.blocking ≡ false))
  unfolding pre_select
  pre_select-guard s set g w h k = ground arith

  -- What `select` found ready is told to the user under the user's descriptor, where that was not
  -- watched itself; other descriptors stay, and no lock is kept.
  pub post_select-set :
      (s : Socket) (ready : FdSet) (w : os.World) (x : Word)
      → ready s.fd ≡ false
      → let (s', readfds) = (post_select os s (some ready) w).0 in
        (s'.locked ≢ 1)
        × ((set' : FdSet) × (readfds ≡ some set')
            × (set' x ≡ (if x == s.fd then ready s.shadowfd else ready x && not (x == s.shadowfd))))
  unfolding post_select
  post_select-set s ready w x h = (
    ground arith,
    (
      (if ready s.shadowfd then fd_set s.fd (fd_clr s.shadowfd ready) else ready),
      refl,
      ground arith,
    ),
  )
