-- ===== src/Calls.antt =====
-- The wrappers of src/core.c and src/utils.c around the system calls on sockets, other than `bind`.
pub mod Roles
pub mod Close
pub mod Accept
use open_dsu.Prelude.{ℕ, Bool, true, false, ◌||◌, Option, none, some, ◌==◌, if◌then◌else◌}
use open_dsu.Prelude.Words.{Word, minus_one, lt_int}
use open_dsu.Prelude.Monad.{Cmd, pure, ◌>>=◌}
use open_dsu.Os.{Os, Bytes}
use open_dsu.State.{
  Socket, Program, non_internal_fd, internal_fd, monitor_fd, socket_list_init, sockets_add,
  sockets_remove_fd, sockets_search_fd, sockets_search_fds, socket_add_fds, socket_remove_fds,
  modify, has_fd, has_fds, shadowfd,
}

-- How `close` forgets a descriptor: by the first role in which it is known.
unfoldable pub forget : Word → Program → Program
forget sockfd p =
    if sockfd == 0 || sockfd == 1 || sockfd == 2
    then p
    else elim (sockets_search_fd p.sockets sockfd) [
      | some _ ↦ record p { sockets = sockets_remove_fd p.sockets sockfd }
      | none ↦ elim (sockets_search_fd p.binds sockfd) [
        | some _ ↦ record p { binds = sockets_remove_fd p.binds sockfd }
        | none ↦ elim (sockets_search_fds p.binds sockfd monitor_fd) [
          | some _ ↦ record p {
            binds = modify (has_fds sockfd monitor_fd) (λ s. record s { monitoring = 0 }) p.binds;
          }
          | none ↦ elim (sockets_search_fds p.binds sockfd internal_fd) [
            | some _ ↦ record p {
              binds =
                  modify (has_fds sockfd internal_fd) (λ s. socket_remove_fds s sockfd internal_fd)
                    p.binds;
            }
            | none ↦ elim (sockets_search_fds p.binds sockfd non_internal_fd) [
              | some _ ↦ record p {
                binds =
                    modify (has_fds sockfd non_internal_fd)
                      (λ s. socket_remove_fds s sockfd non_internal_fd) p.binds;
              }
              | none ↦ p
            ]
          ]
        ]
      ]
    ]

-- What a successful `accept` records.
unfoldable pub add_session : Word → Word → Program → Program
add_session sockfd sessionfd p = record p {
  binds = modify (has_fd sockfd) (λ s. socket_add_fds s sessionfd non_internal_fd) p.binds;
}

module _ (os : Os) where
  open os use {World}

  -- Each call gives its result and the new program state. `stale` is the stack memory of the new
  -- structure before it is initialised.
  unfoldable pub socket : Word → Word → Word → Socket → Program → Cmd World (Word × Program)
  socket domain type protocol stale p = do
    sockfd ← os.socket domain type protocol
    pure (
      sockfd,
      if lt_int 0 sockfd
          then record p {
            sockets =
                sockets_add p.sockets
                  (record (socket_list_init stale) { shadowfd = sockfd; fd = sockfd });
          }
          else p,
    )

  unfoldable pub accept : Word → Program → Cmd World ((Word × Bytes) × Program)
  accept sockfd p = do
    session ← os.accept (shadowfd p sockfd)
    pure (session, if session.0 == minus_one then p else add_session sockfd session.0 p)

  unfoldable pub accept4 : Word → Word → Program → Cmd World ((Word × Bytes) × Program)
  accept4 sockfd flags p = do
    session ← os.accept4 (shadowfd p sockfd) flags
    pure (session, if session.0 == minus_one then p else add_session sockfd session.0 p)

  unfoldable pub close : Word → Program → Cmd World (Word × Program)
  close sockfd p = do r ← os.close sockfd; pure (r, forget sockfd p)
