-- ===== src/Examples/Poll.antt =====
-- The theorems on poll, at the small world.
use open_dsu.Prelude.{◌≡◌, refl, some, none, List, [], ◌∷◌, ◌++◌, map, arith, length}
use open_dsu.Prelude.Words.{Word, minus_one}
use open_dsu.Os.{PollFd}
use open_dsu.State.{originalfd, search}
use open_dsu.Poll.{nfds_max, padded, compress_fds, sniff_all_poll, set_revents}
use open_dsu.Poll.Compress.{asked, requests, compress_fds-requests}
use open_dsu.Poll.Bounds.{
  Adds, internal_fds, sniff_all_poll-Adds, set_revents_leaves, length-padded,
}
use open_dsu.Poll.Marks.{
  marked, ready_fds, IsAligned, rest_idle, left_out, polled_as, set_revents-marked,
}
use open_dsu.Examples.World.{web, server}

abbrev entry : Word → Word → PollFd
entry fd revents = record { fd = fd; events = 1; revents = revents }

-- The second entry was taken out.
abbrev entries : List PollFd
entries = entry 3 0 ∷ entry minus_one 0 ∷ entry 4 0 ∷ []

compress_fds-requests_example :
    (fds' : List PollFd) × (rest : List (Word × Word)) × (compress_fds 3 (entries ++ entry 0 0 ∷ [])
      ≡ some (length (requests entries), fds'))
    × (map asked fds' ≡ requests entries ++ rest)
compress_fds-requests_example = compress_fds-requests entries [] (entry 0 0)

abbrev watched : List PollFd
watched = entry 7 0 ∷ []

sniff_all_poll-Adds_example :
    Adds
      (internal_fds (web ∷ []))
      (padded nfds_max watched)
      1
      (sniff_all_poll (web ∷ []) (padded nfds_max watched, 1))
sniff_all_poll-Adds_example =
    sniff_all_poll-Adds (web ∷ []) (padded nfds_max watched) 1 (omega arith)
      (length-padded nfds_max watched (omega arith))

-- The user watches the bound socket; a request arrives on an internal connection.
set_revents_leaves_example :
    set_revents server (entry 5 0 ∷ []) 0 ((entry 7 0 ∷ []) ++ entry 14 1 ∷ []) ≡ none
unfolding originalfd search
set_revents_leaves_example =
    set_revents_leaves server (entry 5 0 ∷ []) (entry 7 0 ∷ []) [] (entry 14 1) 0 refl refl

-- The user watches 3, the bound socket and 4; 3 was left out, and behind them nothing is ready.
abbrev mine : List PollFd
mine = entry 3 0 ∷ entry 5 0 ∷ entry 4 0 ∷ []

abbrev theirs : List PollFd
theirs = entry 7 1 ∷ entry 4 0 ∷ entry 14 0 ∷ []

theirs-IsAligned : IsAligned server mine theirs
unfolding originalfd search
theirs-IsAligned = left_out (polled_as refl (polled_as refl (rest_idle refl)))

set_revents-marked_example :
    set_revents server mine 0 theirs ≡ some (marked (ready_fds server theirs) mine)
set_revents-marked_example = set_revents-marked server theirs-IsAligned (refl, (refl, (refl, tt)))
