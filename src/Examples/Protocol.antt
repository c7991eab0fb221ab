-- ===== src/Examples/Protocol.antt =====
-- The theorems on the update protocol and on `bind`, at the small world.
use open_dsu.Prelude.{
  some, List, ◌≢◌, ◌+◌, if◌then◌else◌, ◌≡◌, refl, inr, true, false, [], ◌∷◌, arith, All, ◌==◌,
}
use open_dsu.Prelude.Words.{lt_int, truth}
use open_dsu.Os.{Os, FdSet}
use open_dsu.State.{Socket, search}
use open_dsu.Core.{monitor_locked, observed_version, termination_detection}
use open_dsu.Core.Monitor.{Status, observe, status_of, monitor_locked-observe}
use open_dsu.Core.Terminate.{
  IsIdle, termination_detection-IsIdle, termination_detection-all_superseded,
}
use open_dsu.Messages.Answer.{count_answer}
use open_dsu.Protocol.{Process}
use open_dsu.Protocol.Interleave.{
  System, Move, Reaches, here, later, looks, ends, is_served, reachable-is_served,
}
use open_dsu.Protocol.Runs.{Host, AreOn, monitors, passes, Acts, none_yet, then_acts, seen}
use open_dsu.Protocol.Refines.{Acts-Reaches}
use open_dsu.Protocol.Transfer.{IsBalanced, Move-IsBalanced, quit_unanswered}
use open_dsu.Bind.{bind, bind_first, bind_inherited, o_creat}
use open_dsu.Bind.Moves.{Binds, bind-Binds}
use open_dsu.Prelude.Arrays.{get_elem?}
use open_dsu.Protocol.Schedule.{Turn, run}
use open_dsu.Protocol.Liveness.{handover_any_order}
use open_dsu.Bind.Locks.{SharesNames, inherited-other_lock}
use open_dsu.Bind.Semaphores.{inherited, inherited_starves}
use open_dsu.Select.{pre_select}
use open_dsu.Examples.World.{
  State, small, small-IsMemory, small-IsQuiet, small-HasNamedSemaphores, start, web, server,
}

abbrev st : Status
st = record { pgid = 100; version = 0; transfer = 1 }

abbrev newer : Process
newer = record { group = 200; socket = record web { version = 1; transfer = 0 } }

abbrev older : Process
older = record { group = 100; socket = web }

monitor_locked-observe_example :
    let (s', w') = monitor_locked small newer.socket start in
    ◌≡◌ {A = Socket × Status}
      (s', status_of small newer.socket w')
      (observe 200 newer.socket (status_of small newer.socket start))
monitor_locked-observe_example = monitor_locked-observe small small-IsMemory newer.socket start

-- The newer version looks at the status, then the older one, which stops and ends.
abbrev versions : System
versions = record { processes = older ∷ newer ∷ []; status = st }

abbrev raised : Status
raised = record { pgid = 200; version = 1; transfer = 1 }

abbrev stopped : Process
stopped = record older { socket = record web { monitoring = 0; transfer = 0 } }

abbrev handed_over : System
handed_over = record { processes = newer ∷ []; status = record raised { transfer = 0 } }

update : Reaches versions handed_over
unfolding observe
update =
    later {z = record handed_over { processes = stopped ∷ newer ∷ [] }}
      (later {z = record versions { status = raised }}
        (later here (looks (older ∷ []) [] newer refl refl refl))
        (looks [] (newer ∷ []) older refl refl refl))
      (ends [] (newer ∷ []) stopped refl refl refl refl)

reachable-is_served_example : is_served handed_over.status handed_over.processes ≡ true
reachable-is_served_example = reachable-is_served update refl

-- The same update by the code: each process runs `dsu_monitor_fd` in the world that the last one
-- left, where its own group is the current one.
abbrev first_run : Socket × State
first_run = monitor_locked small newer.socket start

abbrev switched : State
switched = record first_run.1 { group = 100 }

abbrev second_run : Socket × State
second_run = monitor_locked small web switched

abbrev host : Host small
host = record { processes = older ∷ newer ∷ []; world = start }

abbrev done : Host small
done = record {
  processes = record older { socket = second_run.0 } ∷ record newer { socket = first_run.0 } ∷ [];
  world = second_run.1;
}

acts : Acts small 0x1000 host done
acts =
    then_acts
      {z = record {
        processes = older ∷ record newer { socket = first_run.0 } ∷ [];
        world = switched;
      }}
      (then_acts
        {z = record {
          processes = older ∷ record newer { socket = first_run.0 } ∷ [];
          world = first_run.1;
        }}
        (then_acts none_yet (monitors (older ∷ []) [] newer refl refl refl refl))
        (passes refl (λ i. refl)))
      (monitors [] (record newer { socket = first_run.0 } ∷ []) older refl refl refl refl)

Acts-Reaches_example :
    Reaches (seen small 0x1000 host) (seen small 0x1000 done) × AreOn 0x1000 done.processes
Acts-Reaches_example =
    Acts-Reaches small 0x1000 small-IsMemory small-IsQuiet (refl, (refl, tt)) acts

-- The older version, which has answered, sees that it is superseded.
abbrev quits :
    Move
      (record versions { status = raised })
      (record handed_over { processes = stopped ∷ newer ∷ [] })
unfolding observe
quits = looks [] (newer ∷ []) older refl refl refl

Move-IsBalanced_example : IsBalanced (stopped ∷ newer ∷ []) handed_over.status
unfolding quits
Move-IsBalanced_example = Move-IsBalanced quits (inr refl) (refl, omega arith)

abbrev silent : Process
silent = record { group = 100; socket = record web { transfer = 0 } }

quit_unanswered_example :
    let (_, st') = observe 100 silent.socket (record st { version = 1; transfer = 0 }) in
    let (_, st'') = count_answer newer.socket st' in
    (lt_int st'.transfer 0 ≡ true) × (lt_int 0 st''.transfer ≡ false)
quit_unanswered_example =
    quit_unanswered silent newer (record st { version = 1; transfer = 0 }) refl refl refl

termination_detection-all_superseded_example : (termination_detection small (web ∷ []) start).0 ≡ 0
termination_detection-all_superseded_example =
    termination_detection-all_superseded small small-IsQuiet (web ∷ []) start

abbrev idle : Socket
idle = record web { fds = []; comfds = []; monitoring = 0 }

-- The status already names version 1.
abbrev updated : State
updated = record start { memory = λ p i. 1 }

termination_detection-IsIdle_example : All IsIdle (idle ∷ [])
unfolding termination_detection observed_version
termination_detection-IsIdle_example = termination_detection-IsIdle small (idle ∷ []) updated refl

bind-Binds_example : Binds 6 80 server (bind small 0 [] 6 (2 ∷ 0 ∷ 0 ∷ 80 ∷ []) server start)
unfolding search
bind-Binds_example = bind-Binds small 0 [] 6 (2 ∷ 0 ∷ 0 ∷ 80 ∷ []) server start refl

abbrev watching : FdSet
watching fd = fd == 5

inherited_starves_example :
    (pre_select small
        (inherited small web start)
        watching
        (record { max_fds = 6; transfer = 0 })
        start).0.1
      (inherited small web start).shadowfd
    ≡ false
unfolding bind_inherited
inherited_starves_example =
    inherited_starves small small-HasNamedSemaphores web start start watching
      (record { max_fds = 6; transfer = 0 }) refl refl refl

-- Each name that is made gets a new semaphore, and opening gives the last.
abbrev naming : Os
naming = record small {
  sem_open = λ n f w.
      if f == o_creat then (w.fresh, w) else (w.fresh + 1, record w { fresh = w.fresh + 1 });
}

naming-SharesNames : SharesNames naming
naming-SharesNames = record {
  named = λ n w. w.fresh;
  opens = λ n w. refl;
  makes = λ n w. (refl, omega arith);
  named-sem_init = λ n p v w. refl;
  named-sem_wait = λ n p w. refl;
  named-sem_post = λ n p w. refl;
  named-store = λ n p i v w. refl;
}

inherited-other_lock_example :
    let locked = (bind_first naming web start).0 in
    let other = (bind_inherited naming web (bind_first naming web start).1).0 in
    (other.status_sem ≡ locked.fd_sem) × (other.status_sem ≢ locked.status_sem)
unfolding bind_first naming-SharesNames
inherited-other_lock_example =
    inherited-other_lock naming naming-SharesNames web web start (bind_first naming web start).1
      refl refl

-- The new version looks, the older one answers a request, the new one looks again, and then the
-- older one.
abbrev schedule : List Turn
schedule =
    record { is_look = false; who = 0 }
    ∷ record { is_look = true; who = 1 }
    ∷ record { is_look = true; who = 0 }
    ∷ []

handover_any_order_example :
    let (l', st') = run (record { is_look = true; who = 1 } ∷ schedule) (older ∷ newer ∷ []) st in
    (st'.version ≡ 1)
    × (st'.pgid ≡ 200)
    × ((q : Process) × (get_elem? l' 1 ≡ some q)
        × (q.socket.version ≡ 1)
        × (truth q.socket.monitoring ≡ true))
    × ((q : Process) × (get_elem? l' 0 ≡ some q) × (truth q.socket.monitoring ≡ false))
handover_any_order_example =
    handover_any_order schedule (older ∷ newer ∷ []) st 1 0 newer older refl refl (omega arith) refl
      ((omega arith, refl), ((omega arith, refl), tt)) refl (omega arith) refl
