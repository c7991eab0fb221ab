-- ===== src/Calls/Close.antt =====
-- `close` (src/core.c): after it the library knows the descriptor in no role.
use open_dsu.Prelude.{
  ◌+◌, ◌-◌, ◌≤◌, ◌<◌, ◌≡◌, ◌≢◌, refl, inl, inr, true, ◌||◌, none, some, List, [], ◌∷◌, arith, ◌==◌,
  if◌then◌else◌, count, count_of_not_has, Option-cases, Bool-cases,
}
use open_dsu.Prelude.Words.{Word}
use open_dsu.State.{
  Socket, Program, Flag, non_internal_fd, internal_fd, monitor_fd, sockets_remove_fd,
  sockets_search_fd, sockets_search_fds, search, socket_remove_fds, modify, has_fds,
}
use open_dsu.State.Remove.{fds_of}
use open_dsu.State.Search.{search-some}
use open_dsu.State.Connections.{count-remove_fds}
use open_dsu.Calls.{forget, close}
use open_dsu.Calls.Roles.{
  roles_at, sum_of, roles, sum-modify, sum-remove_le, count-remove, count-modify,
}
use open_dsu.Os.{Os}

abbrev quit : Socket → Socket
quit s = record s { monitoring = 0 }

abbrev drop_fds : Word → Flag → Socket → Socket
drop_fds fd flag s = socket_remove_fds s fd flag

-- The ways in which `close` can find a descriptor, and what it changes in each.
pub data Forgets (fd : Word) (p q : Program) : Type 0 where
  standard : fd ≤ 2 → q ≡ p → Forgets fd p q
  unbound :
      (s : Socket)
      → sockets_search_fd p.sockets fd ≡ some s
      → q ≡ record p { sockets = sockets_remove_fd p.sockets fd }
      → Forgets fd p q
  bound :
      (s : Socket)
      → sockets_search_fd p.sockets fd ≡ none
      → sockets_search_fd p.binds fd ≡ some s
      → q ≡ record p { binds = sockets_remove_fd p.binds fd }
      → Forgets fd p q
  monitored :
      (s : Socket)
      → sockets_search_fds p.binds fd monitor_fd ≡ some s
      → q ≡ record p { binds = modify (has_fds fd monitor_fd) quit p.binds }
      → Forgets fd p q
  connected :
      (s : Socket) (flag : Flag)
      → flag ≢ monitor_fd
      → sockets_search_fds p.binds fd flag ≡ some s
      → q ≡ record p { binds = modify (has_fds fd flag) (drop_fds fd flag) p.binds }
      → Forgets fd p q
  unknown :
      sockets_search_fd p.sockets fd ≡ none
      → sockets_search_fd p.binds fd ≡ none
      → ((flag : Flag) → sockets_search_fds p.binds fd flag ≡ none)
      → q ≡ p
      → Forgets fd p q

pub forget-Forgets : (fd : Word) (p : Program) → Forgets fd p (forget fd p)
unfolding forget
forget-Forgets fd p = elim (Bool-cases (fd == 0 || fd == 1 || fd == 2)) [
  | inl low ↦ standard (ground arith) (rw (low, forget))
  | inr high ↦ elim (Option-cases (sockets_search_fd p.sockets fd)) [
    | inr (s, e) ↦ unbound s e (rw (high, e, forget))
    | inl free ↦ elim (Option-cases (sockets_search_fd p.binds fd)) [
      | inr (s, e) ↦ bound s free e (rw (high, free, e, forget))
      | inl no_bind ↦ elim (Option-cases (sockets_search_fds p.binds fd monitor_fd)) [
        | inr (s, e) ↦ monitored s e (rw (high, free, no_bind, e, forget))
        | inl no_monitor ↦ elim (Option-cases (sockets_search_fds p.binds fd internal_fd)) [
          | inr (s, e) ↦
              connected s internal_fd (λ c. cc) e (rw (high, free, no_bind, no_monitor, e, forget))
          | inl no_internal ↦ elim (Option-cases (sockets_search_fds p.binds fd non_internal_fd)) [
            | inr (s, e) ↦
                connected s non_internal_fd (λ c. cc) e
                  (rw (high, free, no_bind, no_monitor, no_internal, e, forget))
            | inl no_client ↦
                unknown free no_bind
                  (elim [
                    | non_internal_fd ↦ no_client
                    | internal_fd ↦ no_internal
                    | monitor_fd ↦ no_monitor
                  ])
                  (rw (high, free, no_bind, no_monitor, no_internal, no_client, forget))
          ]
        ]
      ]
    ]
  ]
]

quit-roles :
    (fd b : Word) (s : Socket)
    → has_fds fd monitor_fd s ≡ true
    → roles_at b (quit s) + (if fd == b then 1 else 0) ≡ roles_at b s
quit-roles fd b s h = ground arith

drop-roles :
    (fd b : Word) (s : Socket) (flag : Flag)
    → flag ≢ monitor_fd
    → has_fds fd flag s ≡ true
    → roles_at b (drop_fds fd flag s) + (if fd == b then 1 else 0) ≡ roles_at b s
unfolding socket_remove_fds
drop-roles fd b s internal_fd h e = ground (arith, count-remove_fds s fd b internal_fd h e)
drop-roles fd b s non_internal_fd h e = ground (arith, count-remove_fds s fd b non_internal_fd h e)
drop-roles fd b s monitor_fd h e = absurd (h refl)

drop-fd : (fd : Word) (flag : Flag) (s : Socket) → (drop_fds fd flag s).fd ≡ s.fd
unfolding socket_remove_fds
drop-fd fd internal_fd s = refl
drop-fd fd non_internal_fd s = refl
drop-fd fd monitor_fd s = refl

count-absent :
    (l : List Socket) (fd : Word) → sockets_search_fd l fd ≡ none → count fd (fds_of l) ≡ 0
unfolding search
count-absent [] fd h = refl
count-absent (x ∷ l) fd h = ground (arith, count-absent l fd)

roles_at-absent :
    (l : List Socket) (fd : Word)
    → sockets_search_fds l fd non_internal_fd ≡ none
    → sockets_search_fds l fd internal_fd ≡ none
    → sockets_search_fds l fd monitor_fd ≡ none
    → sum_of (roles_at fd) l ≡ 0
unfolding search
roles_at-absent [] fd a b c = refl
roles_at-absent (x ∷ l) fd a b c =
    ground (arith, roles_at-absent l fd, count_of_not_has fd x.fds, count_of_not_has fd x.comfds)

module _ (fd b : Word) (p q : Program) where
  -- Every branch takes one role away from the closed descriptor, if it has any. Another one keeps
  -- its roles, but for the connections of a bound socket that is closed.
  pub Forgets-roles :
      Forgets fd p q
      → 2 < fd
      → ((b ≡ fd) → roles b q ≤ roles b p - 1)
        × ((b ≢ fd) → roles b q ≤ roles b p)
        × ((b ≢ fd) → sockets_search_fd p.binds fd ≡ none → roles b q ≡ roles b p)
  Forgets-roles (standard low e) h = absurd (omega arith)
  Forgets-roles (unbound s e eq) h = ground (arith, count-remove p.sockets fd b e)
  Forgets-roles (bound s free e eq) h =
      ground (arith, count-remove p.binds fd b e, sum-remove_le (roles_at b) p.binds fd)
  Forgets-roles (monitored s e eq) h = ground (
    arith,
    sum-modify (roles_at b) (has_fds fd monitor_fd) quit p.binds e,
    quit-roles fd b s (search-some (has_fds fd monitor_fd) p.binds e),
    count-modify (has_fds fd monitor_fd) quit p.binds b λ _. refl,
  )
  Forgets-roles (connected s flag f e eq) h = ground (
    arith,
    sum-modify (roles_at b) (has_fds fd flag) (drop_fds fd flag) p.binds e,
    drop-roles fd b s flag f (search-some (has_fds fd flag) p.binds e),
    count-modify (has_fds fd flag) (drop_fds fd flag) p.binds b (drop-fd fd flag),
  )
  Forgets-roles (unknown free no_bind none_left eq) h = ground (
    arith,
    count-absent p.sockets fd free,
    count-absent p.binds fd no_bind,
    roles_at-absent p.binds fd (none_left non_internal_fd) (none_left internal_fd)
        (none_left monitor_fd),
  )

module _ (os : Os) where
  -- A descriptor beyond the standard ones that the state knows in at most one role is unknown
  -- after `close`, by whichever of the lists it was known.
  pub close_forgets :
      (fd : Word) (p : Program) (w : os.World)
      → 2 < fd
      → roles fd p ≤ 1
      → roles fd (close os fd p w).0.1 ≡ 0
  unfolding close
  close_forgets fd p w h k =
      omega (arith, (Forgets-roles fd fd p (forget fd p) (forget-Forgets fd p) h).0 refl)

  -- Closing a descriptor beyond the standard ones that is no bound socket leaves every other
  -- descriptor in its roles.
  pub close_keeps :
      (fd b : Word) (p : Program) (w : os.World)
      → 2 < fd
      → b ≢ fd
      → sockets_search_fd p.binds fd ≡ none
      → roles b (close os fd p w).0.1 ≡ roles b p
  unfolding close
  close_keeps fd b p w h k e = (Forgets-roles fd b p (forget fd p) (forget-Forgets fd p) h).2 k e
