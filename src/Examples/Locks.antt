-- ===== src/Examples/Locks.antt =====
-- The lock on a descriptor is noted and held, and is given back; and an answer of `select`.
use open_dsu.Prelude.{inl, ◌≡◌, refl, false, ◌||◌, none, some, [], ◌∷◌, arith, ◌==◌, All}
use open_dsu.Os.{Os, FdSet}
use open_dsu.State.{Socket, Program}
use open_dsu.Core.{
  Run, returns, exits, initialize_event, termination_detection, forall_sockets, start_worker,
  monitor_fd, monitor_locked, observed_version,
}
use open_dsu.Core.Locks.{HasLocks, IsUnlocked}
use open_dsu.Epoll.Handlers.{post_epoll}
use open_dsu.Epoll.Locks.{post_epoll-releases}
use open_dsu.Poll.Handlers.{post_poll}
use open_dsu.Poll.Locks.{post_poll-releases}
use open_dsu.Select.{pass, pre_select, post_select}
use open_dsu.Select.Locks.{post_pass-releases}
use open_dsu.Select.Loop.{Round, select_round}
use open_dsu.Select.Answer.{AnswersSize, select_round-AnswersSize}
use open_dsu.Examples.World.{State, small, start, web, server}

small-HasLocks : HasLocks small
small-HasLocks = record {
  held = λ q w. w.held q;
  held-sem_post = λ p q w. ground arith;
  held-epoll_ctl = λ e o fd ev q w. refl;
}

abbrev holder : Socket
holder = record web { locked = 1 }

abbrev holding : State
holding = record start { held = λ q. q == 0x4000 }

abbrev held_server : Program
held_server = record server { binds = holder ∷ [] }

post_epoll-releases_example :
    let ((p', told), w') = post_epoll small held_server 11 0 [] holding in
    All IsUnlocked p'.binds × (w'.held 0x4000 ≡ false)
unfolding small-HasLocks
post_epoll-releases_example =
    post_epoll-releases small small-HasLocks held_server 11 0 [] 0x4000 holding refl

post_poll-releases_example :
    let ((p', told), w') = post_poll small held_server [] [] holding in
    All IsUnlocked p'.binds × (w'.held 0x4000 ≡ false)
unfolding small-HasLocks
post_poll-releases_example =
    post_poll-releases small small-HasLocks held_server [] [] 0x4000 holding

post_pass-releases_example :
    let ((l', readfds'), w') = pass (post_select small) (holder ∷ []) none holding in
    All IsUnlocked l' × (w'.held 0x4000 ≡ false)
unfolding small-HasLocks
post_pass-releases_example =
    post_pass-releases small small-HasLocks 0x4000 (holder ∷ []) none holding

-- The shadow descriptor and the communication socket are ready.
abbrev two_ready : FdSet
two_ready fd = (fd == 7) || (fd == 8)

abbrev answering : Os
answering = record small { select = λ n r wr ex t w. ((2, some two_ready, wr, ex), w) }

abbrev program_of : Run State Program → Program
program_of (returns p w) = p
program_of (exits code w) = server

abbrev world_of : Run State Program → State
world_of (returns p w) = w
world_of (exits code w) = start

select_round-AnswersSize_example :
    (round : Round) × (w' : State) × (select_round answering server 6
        (some two_ready)
        none
        none
        none
        0
        start
      ≡ returns round w')
    × AnswersSize (5 ∷ 7 ∷ 8 ∷ []) 0 none none none round
unfolding initialize_event termination_detection forall_sockets start_worker monitor_fd
    monitor_locked observed_version pass pre_select
select_round-AnswersSize_example =
    select_round-AnswersSize answering server (program_of (initialize_event answering server start))
      6 (some two_ready) none none none start (world_of (initialize_event answering server start))
      (5 ∷ 7 ∷ 8 ∷ []) two_ready 0 refl refl (omega arith) (refl, (refl, (refl, tt)))
      (λ x h. ground arith) (refl, tt) (inl refl, refl, tt) refl (omega arith)
