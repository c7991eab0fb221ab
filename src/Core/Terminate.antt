-- ===== src/Core/Terminate.antt =====
-- `dsu_termination_detection` and `dsu_terminate` (src/core.c): when a version ends.
use open_dsu.Prelude.{◌≡◌, refl, Bool, true, ◌&&◌, List, [], ◌∷◌, arith, if◌then◌else◌, All, ◌==◌}
use open_dsu.Prelude.Words.{truth, lt_int}
use open_dsu.Os.{Os, IsQuiet}
use open_dsu.State.{Socket}
use open_dsu.Core.{dsu_version, is_empty, observed_version, termination_detection}

-- No process, version or client needs the socket.
pub record IsIdle (s : Socket) : Type 0 where
  pub not_monitoring : s.monitoring ≡ 0
  pub no_internal : s.comfds ≡ []
  pub no_clients : s.fds ≡ []

module _ (os : Os) where
  -- Whatever the other processes do in the meantime and whether or not the locks can be taken: if
  -- detection says that the version may end, no bound socket is monitored and none has an open
  -- connection, internal or to a client.
  pub termination_detection-IsIdle :
      (l : List Socket) (w : os.World)
      → truth (termination_detection os l w).0 ≡ true
      → All IsIdle l
  unfolding termination_detection
  termination_detection-IsIdle [] w h = tt
  termination_detection-IsIdle (s ∷ l) w h =
      ground (arith, termination_detection-IsIdle l (observed_version os s w).1)

  -- Every bound socket is idle, and a newer version has taken it over.
  abbrev pub all_superseded : List Socket → os.World → Bool
  all_superseded [] w = true
  all_superseded (s ∷ rest) w =
      lt_int s.version (os.load s.status dsu_version w)
      && s.monitoring == 0
      && is_empty s.comfds
      && is_empty s.fds
      && all_superseded rest w

  module _ (q : IsQuiet os) where
    observed_version_quiet :
        (s : Socket) (w : os.World) → (observed_version os s w).0 ≡ os.load s.status dsu_version w
    unfolding observed_version
    observed_version_quiet s w =
        ground
          (arith, q.wait_succeeds s.status_sem w, q.load-wait s.status_sem s.status dsu_version w)

    all_superseded-observed :
        (s : Socket) (l : List Socket) (w : os.World)
        → all_superseded l (observed_version os s w).1 ≡ all_superseded l w
    unfolding observed_version
    all_superseded-observed s [] w = refl
    all_superseded-observed s (x ∷ l) w =
        let w1 : os.World = (os.sem_wait s.status_sem w).1 in
        ground (
          arith,
          all_superseded-observed s l w,
          q.wait_succeeds s.status_sem w,
          q.load-wait s.status_sem x.status dsu_version w,
          q.load-post s.status_sem x.status dsu_version w1,
        )

    -- Detection is exact where the locks can be taken and nobody changes the status meanwhile: it
    -- answers 1 if every bound socket was taken over by a newer version and is neither monitored
    -- nor connected, and otherwise 0.
    pub termination_detection-all_superseded :
        (l : List Socket) (w : os.World)
        → (termination_detection os l w).0 ≡ (if all_superseded l w then 1 else 0)
    unfolding termination_detection
    termination_detection-all_superseded [] w = refl
    termination_detection-all_superseded (s ∷ l) w = ground (
      arith,
      observed_version_quiet s w,
      all_superseded-observed s l w,
      termination_detection-all_superseded l (observed_version os s w).1,
    )
