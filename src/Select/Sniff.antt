-- ===== src/Select/Sniff.antt =====
-- `dsu_sniff_conn` (src/event_handlers/select.c) covers every internal connection.
use open_dsu.Prelude.{
  ℕ, ◌<◌, ◌≡◌, Bool, true, ◌&&◌, ◌||◌, List, [], ◌∷◌, arith, ◌==◌, if◌then◌else◌, has, All, ◌⊎◌,
  inl, inr, Bool-cases,
}
use open_dsu.Prelude.Words.{Word, truth}
use open_dsu.Os.{FdSet}
use open_dsu.State.{Socket}
use open_dsu.State.Search.{any_socket}
use open_dsu.Select.{fd_set, reach, sniff_conns, sniff_conn, sniff_all}

-- Descriptors below this are valid for `FD_SET`.
abbrev pub fd_setsize : ℕ
fd_setsize = 1024

-- The socket's internal descriptors can stand in an `fd_set`.
abbrev pub FitsSet : Socket → Type 0
FitsSet s = (s.comfd < fd_setsize) × All (λ c. c < fd_setsize) s.comfds

-- `fd` is watched: it is in the set and below the limit that `select` is given.
abbrev pub IsWatched : Word → FdSet × Word → Type 0
IsWatched fd st = (st.0 fd ≡ true) × (fd < st.1)

sniff_conns-keep :
    (fd : Word) (l : List Word) (st : FdSet × Word)
    → All (λ c. c < fd_setsize) l
    → st.1 < 0x8000_0000
    → IsWatched fd st
    → IsWatched fd (sniff_conns l st)
unfolding sniff_conns
sniff_conns-keep fd [] st a b h = h
sniff_conns-keep fd (c ∷ l) (set, m) a b h =
    sniff_conns-keep fd l (fd_set c set, reach m c) a.1 (ground arith) (ground arith)

sniff_conns-watches :
    (fd : Word) (l : List Word) (st : FdSet × Word)
    → All (λ c. c < fd_setsize) l
    → st.1 < 0x8000_0000
    → has fd l ≡ true
    → IsWatched fd (sniff_conns l st)
unfolding sniff_conns
sniff_conns-watches fd [] st a b h = ground arith
sniff_conns-watches fd (c ∷ l) (set, m) a b h = ground (
  arith,
  sniff_conns-watches fd l (fd_set c set, reach m c) a.1,
  sniff_conns-keep fd l (fd_set c set, reach m c) a.1,
)

-- Monitored on its communication socket, or one of the internal connections.
abbrev pub is_internal_at : Word → Socket → Bool
is_internal_at fd s = ((s.comfd == fd) && truth s.monitoring) || has fd s.comfds

sniff_conns-set :
    (fd : Word) (l : List Word) (st : FdSet × Word)
    → (sniff_conns l st).0 fd ≡ (st.0 fd || has fd l)
unfolding sniff_conns
sniff_conns-set fd [] (set, m) = ground arith
sniff_conns-set fd (c ∷ l) (set, m) = ground (arith, sniff_conns-set fd l (fd_set c set, reach m c))

sniff_conn-set :
    (fd : Word) (s : Socket) (st : FdSet × Word)
    → (sniff_conn s st).0 fd ≡ (st.0 fd || is_internal_at fd s)
unfolding sniff_conn
sniff_conn-set fd s (set, m) = elim (Bool-cases (truth s.monitoring)) [
  | inl on ↦ ground (arith, sniff_conns-set fd s.comfds (fd_set s.comfd set, reach m s.comfd))
  | inr off ↦ ground (arith, sniff_conns-set fd s.comfds (set, m))
]

-- The set that `select` watches holds the user's descriptors and exactly the internal connections
-- of the bound sockets besides.
sniff_all-set :
    (fd : Word) (l : List Socket) (st : FdSet × Word)
    → (sniff_all l st).0 fd ≡ (st.0 fd || any_socket (is_internal_at fd) l)
unfolding sniff_all
sniff_all-set fd [] st = ground arith
sniff_all-set fd (s ∷ l) st =
    ground (arith, sniff_all-set fd l (sniff_conn s st), sniff_conn-set fd s st)

sniff_conns-limit :
    (l : List Word) (st : FdSet × Word)
    → All (λ c. c < fd_setsize) l
    → st.1 < 0x8000_0000
    → (sniff_conns l st).1 < 0x8000_0000
unfolding sniff_conns
sniff_conns-limit [] (set, m) a b = b
sniff_conns-limit (c ∷ l) (set, m) a b =
    sniff_conns-limit l (fd_set c set, reach m c) a.1 (ground arith)

sniff_conn-watches :
    (fd : Word) (s : Socket) (st : FdSet × Word)
    → FitsSet s
    → st.1 < 0x8000_0000
    → (is_internal_at fd s ≡ true) ⊎ IsWatched fd st
    → IsWatched fd (sniff_conn s st)
unfolding sniff_conn
sniff_conn-watches fd s (set, m) a b h = elim (Bool-cases (truth s.monitoring)) [
  | inl on ↦
      let st : FdSet × Word = (fd_set s.comfd set, reach m s.comfd) in
      ground (
        arith,
        sniff_conns-keep fd s.comfds st a.1,
        sniff_conns-watches fd s.comfds st a.1,
        sniff_conns-limit s.comfds st a.1,
      )
  | inr off ↦
      let st : FdSet × Word = (set, m) in
      ground (
        arith,
        sniff_conns-keep fd s.comfds st a.1,
        sniff_conns-watches fd s.comfds st a.1,
        sniff_conns-limit s.comfds st a.1,
      )
]

sniff_conn-limit :
    (s : Socket) (st : FdSet × Word)
    → FitsSet s
    → st.1 < 0x8000_0000
    → (sniff_conn s st).1 < 0x8000_0000
unfolding sniff_conn
sniff_conn-limit s (set, m) a b =
    sniff_conns-limit s.comfds
      (if truth s.monitoring then (fd_set s.comfd set, reach m s.comfd) else (set, m)) a.1
      (ground arith)

-- With descriptors that fit an `fd_set`, a descriptor that is watched below the limit, or is an
-- internal connection of a bound socket, is watched afterwards and lies below the limit.
pub sniff_all-IsWatched :
    (fd : Word) (l : List Socket) (st : FdSet × Word)
    → All FitsSet l
    → st.1 < 0x8000_0000
    → (any_socket (is_internal_at fd) l ≡ true) ⊎ IsWatched fd st
    → IsWatched fd (sniff_all l st)
unfolding sniff_all
sniff_all-IsWatched fd [] st a b h = ground arith
sniff_all-IsWatched fd (s ∷ l) st a b h =
    let next = sniff_all-IsWatched fd l (sniff_conn s st) a.1 (sniff_conn-limit s st a.0 b) in
    let here = sniff_conn-watches fd s st a.0 b in
    elim h [
      | inr watched ↦ next (inr (here (inr watched)))
      | inl internal ↦ elim (Bool-cases (is_internal_at fd s)) [
        | inl at ↦ next (inr (here (inl at)))
        | inr away ↦ next (inl (ground arith))
      ]
    ]
