-- ===== src/Examples/Handlers.antt =====
-- The theorems on the event handlers and on messages, at the small world.
use open_dsu.Prelude.{◌≡◌, refl, inl, ◌&&◌, ◌||◌, not, some, none, List, [], ◌∷◌, arith, ◌==◌, has}
use open_dsu.Os.{FdSet, EpollEvent, Timeout}
use open_dsu.Select.{sniff_all, handle_conn, Globals}
use open_dsu.Select.Sniff.{IsWatched, sniff_all-IsWatched}
use open_dsu.Select.Handle.{joined, handle_conn-hides}
use open_dsu.Select.Loop.{select_round, select}
use open_dsu.Select.Rounds.{Answers, select_timed}
use open_dsu.Examples.World.{small, start, web, server}

-- A request on an internal connection, and one on the shadow descriptor.
abbrev reported : List EpollEvent
reported = record { events = 1; payload = 14 } ∷ record { events = 1; payload = 7 } ∷ []

-- The shadow descriptor, the communication socket and the internal connection are ready.
abbrev ready : FdSet
ready fd = (fd == 7) || (fd == 8) || (fd == 14)

sniff_all-IsWatched_example : IsWatched 14 (sniff_all (web ∷ []) (ready, 8))
sniff_all-IsWatched_example =
    sniff_all-IsWatched 14 (web ∷ []) (ready, 8) ((omega arith, (omega arith, tt)), tt)
      (omega arith) (inl refl)

handle_conn-hides_example :
    (handle_conn small web ready 0 start).0.1 14
    ≡ (ready 14 && not (14 == 8 || has 14 (joined small web ready start).comfds))
handle_conn-hides_example = handle_conn-hides small web ready 0 start 14

abbrev watched : FdSet
watched fd = fd == 5

abbrev globals : Globals
globals = record { max_fds = 6; transfer = 0 }

select_timed_example :
    let t : Timeout = record { sec = 1; rest = 0 } in
    let first = select_round small server 6 (some watched) none none (some t) 0 start in
    (select small 3 server 6 (some watched) none none (some t) 0 start ≡ some first) × Answers first
select_timed_example =
    select_timed small 2 server 6 (some watched) none none (record { sec = 1; rest = 0 }) 0 start
