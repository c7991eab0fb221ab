-- ===== src/Poll/Compress.antt =====
-- `dsu_compress_fds` (src/event_handlers/poll.c) against a filter.
use open_dsu.Prelude.{
  ℕ, zero, suc, ◌+◌, ◌≡◌, refl, ap, some, List, [], ◌∷◌, ◌++◌, map, arith, ◌==◌, if◌then◌else◌,
  length, Bool-cases, inl, inr,
}
use open_dsu.Prelude.Words.{Word, minus_one}
use open_dsu.Prelude.Arrays.{
  shift, get_elem?-append, get_elem?-next, set-append, append-cons, length-snoc, last,
}
use open_dsu.Os.{PollFd}
use open_dsu.Poll.{move_entry, compress_loop, compress_fds}

abbrev pub asked : PollFd → Word × Word
asked e = (e.fd, e.events)

-- What is asked of the entries whose descriptor is not -1.
abbrev pub requests : List PollFd → List (Word × Word)
requests [] = []
requests (e ∷ fds) = let rest = requests fds in if e.fd == minus_one then rest else asked e ∷ rest

-- Each entry has taken over what is asked of the next one.
abbrev slide : PollFd → List PollFd → List PollFd
slide e [] = []
slide e (c ∷ cur) = move_entry e c ∷ slide c cur

length-slide : (e : PollFd) (cur : List PollFd) → length (slide e cur) ≡ length cur
length-slide e [] = refl
length-slide e (c ∷ cur) = ap suc (length-slide c cur)

requests-slide : (e : PollFd) (cur : List PollFd) → requests (slide e cur) ≡ requests cur
requests-slide e [] = refl
requests-slide e (c ∷ cur) = ground (arith, requests-slide c cur)

map-snoc :
    (pre : List PollFd) (e : PollFd) → map asked (pre ++ e ∷ []) ≡ map asked pre ++ asked e ∷ []
map-snoc [] e = refl
map-snoc (x ∷ pre) e = ap (λ r. asked x ∷ r) (map-snoc pre e)

map-append_tail :
    (pre junk : List PollFd) → map asked (pre ++ junk) ≡ map asked pre ++ map asked junk
map-append_tail [] junk = refl
map-append_tail (x ∷ pre) junk = ap (λ r. asked x ∷ r) (map-append_tail pre junk)

shift-slide :
    (pre cur junk : List PollFd) (e x : PollFd)
    → shift move_entry (suc (length cur)) (length pre) (pre ++ e ∷ (cur ++ x ∷ junk))
      ≡ some (pre ++ (slide e cur ++ move_entry (last e cur) x ∷ x ∷ junk))
unfolding shift
shift-slide pre [] junk e x =
    rw
      (
        get_elem?-append pre e (x ∷ junk),
        get_elem?-next pre e x junk,
        set-append pre e (move_entry e x) (x ∷ junk),
        shift,
      )
      refl
shift-slide pre (c ∷ cur) junk e x =
    let post : List PollFd = cur ++ x ∷ junk in
    let moved : PollFd = move_entry e c in
    rw
      (
        get_elem?-append pre e (c ∷ post),
        get_elem?-next pre e c post,
        set-append pre e moved (c ∷ post),
        shift,
      )
      (rw
        (
          append-cons pre moved (c ∷ post),
          length-snoc pre moved,
          append-cons pre moved (slide c cur ++ move_entry (last c cur) x ∷ x ∷ junk),
        )
        at (shift-slide (pre ++ moved ∷ []) cur junk c x))

compress_loop-requests :
    (n : ℕ) (pre cur junk : List PollFd) (x : PollFd)
    → length cur ≡ n
    → (fds' : List PollFd) × (rest : List (Word × Word)) × (compress_loop n
          (length pre)
          (pre ++ (cur ++ x ∷ junk))
        ≡ some (length pre + length (requests cur), fds'))
      × (map asked fds' ≡ map asked pre ++ (requests cur ++ rest))
unfolding compress_loop
compress_loop-requests zero pre [] junk x h = (
  pre ++ x ∷ junk,
  map asked (x ∷ junk),
  ap (λ n. some (n, pre ++ x ∷ junk)) (omega arith),
  map-append_tail pre (x ∷ junk),
)
compress_loop-requests zero pre (e ∷ cur) junk x h = absurd (omega arith)
compress_loop-requests (suc n) pre [] junk x h = absurd (omega arith)
compress_loop-requests (suc n) pre (e ∷ cur) junk x h =
    let here = get_elem?-append pre e (cur ++ x ∷ junk) in
    elim (Bool-cases (e.fd == minus_one)) [
      | inl unused ↦
          let next : PollFd = move_entry (last e cur) x in
          let (fds', rest, runs, told) =
            compress_loop-requests n pre (slide e cur) (x ∷ junk) next
              (ground (arith, length-slide e cur)) in
          (
            fds',
            rest,
            ground (arith, here, shift-slide pre cur junk e x, runs, requests-slide e cur),
            ground (arith, told, requests-slide e cur),
          )
      | inr used ↦
          let (fds', rest, runs, told) =
            compress_loop-requests n (pre ++ e ∷ []) cur junk x (omega arith) in
          (
            fds',
            rest,
            ground (arith, here, runs, append-cons pre e (cur ++ x ∷ junk), length-snoc pre e),
            ground (
              arith,
              told,
              map-snoc pre e,
              append-cons (map asked pre) (asked e) (requests cur ++ rest),
            ),
          )
    ]

-- With memory behind the first `nfds` entries, the loops end inside of it. The descriptor and the
-- events of each entry whose descriptor is not -1 are in front, in their order, and the new number
-- of entries is the number of these.
pub compress_fds-requests :
    (cur junk : List PollFd) (x : PollFd)
    → (fds' : List PollFd) × (rest : List (Word × Word)) × (compress_fds
          (length cur)
          (cur ++ x ∷ junk)
        ≡ some (length (requests cur), fds'))
      × (map asked fds' ≡ requests cur ++ rest)
unfolding compress_fds
compress_fds-requests cur junk x =
    let (fds', rest, runs, told) = compress_loop-requests (length cur) [] cur junk x refl in
    (fds', rest, ground (arith, runs), told)
