-- ===== src/Examples/Workers.antt =====
-- The theorems on the workers of a version, at a run of the small world.
use open_dsu.Prelude.{◌≡◌, refl, ◌&&◌, [], ◌∷◌, arith, ◌==◌, if◌then◌else◌}
use open_dsu.State.{Program}
use open_dsu.Core.{start_worker, leave_workers, terminate, sigkill}
use open_dsu.Start.{init}
use open_dsu.Workers.{Crew, live_count, begins, forks, Crews, started, then_duty, IsApart}
use open_dsu.Workers.Count.{reachable-IsCounted, terminate_last, terminate_forked}
use open_dsu.Examples.World.{State, small, small-IsMemory, small-IsQuiet, start}

small-IsApart : IsApart small
small-IsApart = record {
  load-fcntl = λ p i fd c a w. refl;
  load-killpg = λ p i g s w. refl;
  load-sem_unlink = λ p i n w. refl;
  load-sem_open = λ p i n f w. refl;
  load-sem_init = λ p i q v w. refl;
}

-- `dsu_init`, a fork, and both processes come to their first event.
abbrev fresh : Program
fresh = record { sockets = []; binds = []; live = 0; workers = 0x1000; lock = 0x2000 }

abbrev begun : State
begun = record start { memory = λ p i. if (0x1000 == p) && (0 == i) then 0 else start.memory p i }

abbrev first : Program × State
first = start_worker small fresh begun

abbrev second : Program × State
second = start_worker small fresh first.1

abbrev one : Crew small
one = record { members = first.0 ∷ []; world = first.1 }

one-Crews : Crews small 0x1000 one
unfolding init
one-Crews = then_duty (started start refl refl) (begins [] [] fresh refl refl refl refl)

abbrev two : Crew small
two = record { members = first.0 ∷ second.0 ∷ []; world = second.1 }

two-Crews : Crews small 0x1000 two
unfolding init
two-Crews =
    then_duty
      (then_duty
        (then_duty {z = record { members = fresh ∷ fresh ∷ []; world = begun }}
          (started start refl refl) (forks [] [] fresh refl refl refl refl))
        (begins [] (fresh ∷ []) fresh refl refl refl refl))
      (begins (first.0 ∷ []) [] fresh refl refl refl refl)

reachable-IsCounted_example : small.load 0x1000 0 second.1 ≡ 2
unfolding start_worker
reachable-IsCounted_example =
    reachable-IsCounted small small-IsMemory small-IsQuiet small-IsApart 0x1000 two-Crews

terminate_last_example :
    (terminate small first.0 second.1).1 ≡ (leave_workers small first.0 second.1).1
unfolding start_worker
terminate_last_example =
    terminate_last small small-IsMemory small-IsQuiet small-IsApart 0x1000 [] (second.0 ∷ [])
      first.0 two-Crews refl refl refl (omega arith)

abbrev copied : Crew small
copied = record { members = first.0 ∷ first.0 ∷ []; world = first.1 }

terminate_forked_example :
    let w1 = (leave_workers small first.0 copied.world).1 in
    ((terminate small first.0 copied.world).1
      ≡ (small.killpg (small.process_group w1) sigkill w1).1)
    × (live_count copied.members ≡ 2)
unfolding start_worker
terminate_forked_example =
    terminate_forked small small-IsMemory small-IsQuiet small-IsApart {z = copied} 0x1000 first.0
      one-Crews refl refl refl refl refl
