-- ===== src/Epoll/Correct.antt =====
-- `dsu_epoll_correct_events` (src/event_handlers/epoll.c) against its specification.
use open_dsu.Prelude.{List, [], ◌∷◌, if◌then◌else◌}
use open_dsu.Os.{EpollEvent}
use open_dsu.State.{Program, is_internal_conn}
use open_dsu.Epoll.{data_fd, restore_event}

-- What the user is told: the events that are no internal connection, with the user's own data.
abbrev pub user_events : Program → List EpollEvent → List EpollEvent
user_events p [] = []
user_events p (e ∷ rest) =
    let told = user_events p rest in
    if is_internal_conn p (data_fd e) then told else restore_event p e ∷ told
