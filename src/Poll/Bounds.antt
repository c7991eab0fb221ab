-- ===== src/Poll/Bounds.antt =====
-- The bounds of the arrays in src/event_handlers/poll.c: internal descriptors go behind the user's
-- as far as there is room, and the scan of `dsu_set_revents`.
use open_dsu.Prelude.{
  ℕ, zero, suc, ◌+◌, ◌≤◌, ◌≡◌, refl, true, false, Option, none, some, List, [], ◌∷◌, ◌++◌, arith,
  leb, ◌==◌, if◌then◌else◌, length, has, ap, sym, ◌∙◌, length-append, ltb, Option-cases, Bool-cases,
  inl, inr,
}
use open_dsu.Prelude.Words.{Word, truth}
use open_dsu.Prelude.Arrays.{set, take, length-set, get_elem?-inside}
use open_dsu.Os.{PollFd}
use open_dsu.State.{Socket, Program, originalfd}
use open_dsu.Poll.{
  nfds_max, padded, pollin, add_entry, add_entries, sniff_conn_poll, sniff_all_poll, find_from,
  mark, set_revents,
}

-- What the program asks for internal descriptors: whether they are readable.
abbrev pub entries_of : List Word → List PollFd
entries_of [] = []
entries_of (c ∷ rest) = record { fd = c; events = pollin; revents = 0 } ∷ entries_of rest

-- The array starts with the first `nfds` entries and those for the descriptors `ds` behind them, as
-- far as there is room, and as many are counted. It keeps its length.
abbrev pub Adds : List Word → List PollFd → ℕ → Option (List PollFd × ℕ) → Type 0
Adds ds fds nfds out =
    (fds' : List PollFd) × (nfds' : ℕ) × (out ≡ some (fds', nfds'))
    × (nfds' ≡ (if leb (nfds + length ds) nfds_max then nfds + length ds else nfds_max))
    × (length fds' ≡ nfds_max)
    × (take nfds' fds' ≡ take nfds_max (take nfds fds ++ entries_of ds))

-- The internal descriptors: of each socket the communication socket, if it is monitored, and the
-- internal connections.
abbrev pub internal_fds : List Socket → List Word
internal_fds [] = []
internal_fds (s ∷ rest) =
    (if truth s.monitoring then s.comfd ∷ s.comfds else s.comfds) ++ internal_fds rest

take-all : (n : ℕ) (l : List PollFd) → length l ≤ n → take n l ≡ l
take-all zero [] h = refl
take-all zero (x ∷ l) h = absurd (omega arith)
take-all (suc n) [] h = refl
take-all (suc n) (x ∷ l) h = ap (λ r. x ∷ r) (take-all n l (omega (arith, h)))

take-take_append : (n : ℕ) (l r : List PollFd) → take n (take n l ++ r) ≡ take n (l ++ r)
take-take_append zero l r = refl
take-take_append (suc n) [] r = refl
take-take_append (suc n) (x ∷ l) r = ap (λ k. x ∷ k) (take-take_append n l r)

take-append_nil : (n : ℕ) (l : List PollFd) → length l ≤ n → take n (l ++ []) ≡ l
take-append_nil zero [] h = refl
take-append_nil zero (x ∷ l) h = absurd (omega arith)
take-append_nil (suc n) [] h = refl
take-append_nil (suc n) (x ∷ l) h = ap (λ k. x ∷ k) (take-append_nil n l (omega (arith, h)))

take-append_full : (n : ℕ) (l r : List PollFd) → length l ≡ n → take n (l ++ r) ≡ l
take-append_full zero [] r h = refl
take-append_full zero (x ∷ l) r h = absurd (omega arith)
take-append_full (suc n) [] r h = absurd (omega arith)
take-append_full (suc n) (x ∷ l) r h = ap (λ k. x ∷ k) (take-append_full n l r (omega (arith, h)))

length-take : (n : ℕ) (l : List PollFd) → n ≤ length l → length (take n l) ≡ n
length-take zero l h = refl
length-take (suc n) [] h = absurd (omega arith)
length-take (suc n) (x ∷ l) h = omega (arith, length-take n l (omega arith))

take-set_next :
    (n : ℕ) (l : List PollFd) (x : PollFd)
    → suc n ≤ length l
    → take (suc n) (set l n x) ≡ take n l ++ x ∷ []
take-set_next n [] x h = absurd (omega arith)
take-set_next zero (y ∷ l) x h = refl
take-set_next (suc n) (y ∷ l) x h = ap (λ k. y ∷ k) (take-set_next n l x (omega arith))

entries_of-append : (a b : List Word) → entries_of (a ++ b) ≡ entries_of a ++ entries_of b
entries_of-append [] b = refl
entries_of-append (x ∷ a) b =
    ap (λ k. record { fd = x; events = pollin; revents = 0 } ∷ k) (entries_of-append a b)

append_assoc : (a b c : List PollFd) → (a ++ b) ++ c ≡ a ++ (b ++ c)
append_assoc [] b c = refl
append_assoc (x ∷ a) b c = ap (λ k. x ∷ k) (append_assoc a b c)

add_entry-Adds :
    (fd : Word) (fds : List PollFd) (nfds : ℕ)
    → nfds ≤ nfds_max
    → length fds ≡ nfds_max
    → Adds (fd ∷ []) fds nfds (add_entry fd (fds, nfds))
unfolding add_entry
add_entry-Adds fd fds nfds h full = elim (Bool-cases (ltb nfds nfds_max)) [
  | inl room ↦
      let added : PollFd = record { fd = fd; events = pollin; revents = 0 } in
      let (x, found) = get_elem?-inside fds nfds (ground arith) in
      let inside : suc nfds ≤ length fds = ground arith in
      let below : suc nfds ≤ nfds_max = ground arith in
      let short : length (take nfds fds ++ added ∷ []) ≤ nfds_max =
        omega
          (arith, length-append (take nfds fds) (added ∷ []), length-take nfds fds (omega arith)) in
      (
        set fds nfds added,
        suc nfds,
        rw (room, add_entry) (rw (found, add_entry) refl),
        ground arith,
        length-set fds nfds added ∙ full,
        take-set_next nfds fds added inside
            ∙ sym (take-all nfds_max (take nfds fds ++ added ∷ []) short),
      )
  | inr no_room ↦
      let same : nfds ≡ nfds_max = ground arith in
      (
        fds,
        nfds,
        rw (no_room, add_entry) refl,
        ground arith,
        full,
        sym (
            take-append_full nfds_max (take nfds fds) _
              (length-take nfds fds (omega arith) ∙ same)),
      )
]

-- What is added behind what was added.
Adds-append :
    (a b : List Word) (fds fds1 : List PollFd) (nfds nfds1 : ℕ) (out : Option (List PollFd × ℕ))
    → nfds1 ≡ (if leb (nfds + length a) nfds_max then nfds + length a else nfds_max)
    → take nfds1 fds1 ≡ take nfds_max (take nfds fds ++ entries_of a)
    → Adds b fds1 nfds1 out
    → Adds (a ++ b) fds nfds out
Adds-append a b fds fds1 nfds nfds1 out count kept (fds2, nfds2, done, count2, full, kept2) = (
  fds2,
  nfds2,
  done,
  ground (arith, length-append a b),
  full,
  kept2
      ∙ ap (λ k. take nfds_max (k ++ entries_of b)) kept
      ∙ take-take_append nfds_max (take nfds fds ++ entries_of a) (entries_of b)
      ∙ ap (take nfds_max) (
          append_assoc (take nfds fds) (entries_of a) (entries_of b)
          ∙ ap (λ k. take nfds fds ++ k) (sym (entries_of-append a b))),
)

Adds-none :
    (fds : List PollFd) (nfds : ℕ)
    → nfds ≤ nfds_max
    → length fds ≡ nfds_max
    → Adds [] fds nfds (some (fds, nfds))
Adds-none fds nfds h full = (
  fds,
  nfds,
  refl,
  ground arith,
  full,
  sym (
      take-append_nil nfds_max (take nfds fds) (omega (arith, length-take nfds fds (omega arith)))),
)

add_entries-Adds :
    (l : List Word) (fds : List PollFd) (nfds : ℕ)
    → nfds ≤ nfds_max
    → length fds ≡ nfds_max
    → Adds l fds nfds (add_entries l (fds, nfds))
unfolding add_entries
add_entries-Adds [] fds nfds h full = Adds-none fds nfds h full
add_entries-Adds (c ∷ l) fds nfds h full =
    let (fds1, nfds1, done, count, full1, kept) = add_entry-Adds c fds nfds h full in
    rw (done, add_entries)
      (Adds-append (c ∷ []) l fds fds1 nfds nfds1 _ count kept
        (add_entries-Adds l fds1 nfds1 (ground arith) full1))

-- With at most `nfds_max` entries in an array of that length: the entries stay, and an entry to read
-- for every internal descriptor of the bound sockets is added behind them, in their order, until the
-- array is full. No write leaves the array.
pub sniff_all_poll-Adds :
    (l : List Socket) (fds : List PollFd) (nfds : ℕ)
    → nfds ≤ nfds_max
    → length fds ≡ nfds_max
    → Adds (internal_fds l) fds nfds (sniff_all_poll l (fds, nfds))
unfolding sniff_all_poll sniff_conn_poll
sniff_all_poll-Adds [] fds nfds h full = Adds-none fds nfds h full
sniff_all_poll-Adds (s ∷ l) fds nfds h full =
    let internal : List Word = if truth s.monitoring then s.comfd ∷ s.comfds else s.comfds in
    let (fds1, nfds1, done, count, full1, kept) = add_entries-Adds internal fds nfds h full in
    rw (done, sniff_all_poll)
      (Adds-append internal (internal_fds l) fds fds1 nfds nfds1 _ count kept
        (sniff_all_poll-Adds l fds1 nfds1 (ground arith) full1))

-- The descriptors of an array.
abbrev pub fds_of_array : List PollFd → List Word
fds_of_array [] = []
fds_of_array (e ∷ fds) = e.fd ∷ fds_of_array fds

find_from-none :
    (fd : Word) (start : ℕ) (fds : List PollFd)
    → has fd (fds_of_array fds) ≡ false
    → find_from fd start fds ≡ none
unfolding find_from
find_from-none fd start [] h = refl
find_from-none fd zero (e ∷ fds) h = ground (arith, find_from-none fd 0 fds)
find_from-none fd (suc start) (e ∷ fds) h = ground (arith, find_from-none fd start fds)

fds_of_array-mark : (fds : List PollFd) (i : ℕ) → fds_of_array (mark fds i) ≡ fds_of_array fds
fds_of_array-mark [] i = refl
fds_of_array-mark (e ∷ fds) zero = refl
fds_of_array-mark (e ∷ fds) (suc i) = ap (λ r. e.fd ∷ r) (fds_of_array-mark fds i)

-- The bug: where a descriptor is ready whose original is not in the user's array, as an internal
-- one, the scan leaves the array, whatever stands in front of it and behind.
pub set_revents_leaves :
    (p : Program) (fds before after : List PollFd) (e : PollFd) (start : ℕ)
    → has (originalfd p e.fd) (fds_of_array fds) ≡ false
    → truth e.revents ≡ true
    → set_revents p fds start (before ++ e ∷ after) ≡ none
unfolding set_revents
set_revents_leaves p fds [] after e start h ready =
    ground (arith, find_from-none (originalfd p e.fd) start fds)
set_revents_leaves p fds (x ∷ before) after e start h ready = elim (Bool-cases (x.revents == 0)) [
  | inl idle ↦ rw (idle, set_revents) (set_revents_leaves p fds before after e (suc start) h ready)
  | inr busy ↦ elim (Option-cases (find_from (originalfd p x.fd) start fds)) [
    | inl missing ↦ rw (busy, set_revents) (rw (missing, set_revents) refl)
    | inr (i, found) ↦
        rw (busy, set_revents)
          (rw (found, set_revents)
            (set_revents_leaves p (mark fds i) before after e (suc i)
              (ground (arith, fds_of_array-mark fds i)) ready))
  ]
]

-- The array of `ppoll` has `nfds_max` entries, if the user's fit in it.
pub length-padded : (n : ℕ) (fds : List PollFd) → length fds ≤ n → length (padded n fds) ≡ n
length-padded zero [] h = refl
length-padded zero (e ∷ fds) h = absurd (omega arith)
length-padded (suc n) [] h = omega (arith, length-padded n [])
length-padded (suc n) (e ∷ fds) h = omega (arith, length-padded n fds)
