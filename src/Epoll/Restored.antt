-- ===== src/Epoll/Restored.antt =====
-- The passes over all bound sockets by which `epoll_wait` (src/event_handlers/epoll.c) puts the shadow
-- descriptors in the place of the user's, and the user's back.
use open_dsu.Prelude.{
  ◌≡◌, refl, ◌∙◌, ap, sym, subst, Bool, true, false, ◌&&◌, ◌||◌, not, Option, none, some, List, [],
  ◌∷◌, arith, ◌==◌, if◌then◌else◌, has, Bool-cases, inl, inr,
}
use open_dsu.Prelude.Words.{Word}
use open_dsu.Os.{Os, EpollEvent}
use open_dsu.State.{Socket}
use open_dsu.Core.{forall_sockets}
use open_dsu.Epoll.Handlers.{epoll_shadowfd, epoll_originalfd}
use open_dsu.Epoll.Interest.{
  HasInterest, or_else, epoll_shadowfd-watched, epoll_shadowfd-same, epoll_originalfd-watched,
}

-- The user's descriptor, its shadow, and the event that the user asked for, of each socket.
abbrev pub interests : List Socket → List (Word × Word × EpollEvent)
interests [] = []
interests (s ∷ rest) = (s.fd, s.shadowfd, s.ev) ∷ interests rest

abbrev pub names : List (Word × Word × EpollEvent) → List Word
names [] = []
names ((f, sh, e) ∷ rest) = f ∷ sh ∷ names rest

-- No two sockets share a descriptor.
abbrev pub IsSeparate : List (Word × Word × EpollEvent) → Type 0
IsSeparate [] = Unit
IsSeparate ((f, sh, e) ∷ rest) =
    (has f (names rest) ≡ false) × (has sh (names rest) ≡ false) × IsSeparate rest

-- What a descriptor is watched for, when it was watched for `old`: the user's for their events, the
-- shadows for none.
abbrev pub restored : List (Word × Word × EpollEvent) → Word → Option EpollEvent → Option EpollEvent
restored [] d old = old
restored ((f, sh, e) ∷ rest) d old =
    if e.events == 0
    then restored rest d old
    else if d == f
    then some e
    else if d == sh
    then none
    else restored rest d old

-- The same for the first pass, where a descriptor is no shadow.
abbrev taken : List (Word × Word × EpollEvent) → Word → Option EpollEvent → Option EpollEvent
taken [] d old = old
taken ((f, sh, e) ∷ rest) d old = if not (e.events == 0) && (d == f) then none else taken rest d old

abbrev is_live_shadow : List (Word × Word × EpollEvent) → Word → Bool
is_live_shadow [] d = false
is_live_shadow ((f, sh, e) ∷ rest) d = (not (e.events == 0) && (d == sh)) || is_live_shadow rest d

-- The same for the second pass.
abbrev put_back : List (Word × Word × EpollEvent) → Word → Option EpollEvent → Option EpollEvent
put_back [] d old = old
put_back ((f, sh, e) ∷ rest) d old =
    if e.events == 0
    then put_back rest d old
    else if d == f
    then (if f == sh then some e else or_else old e)
    else if d == sh
    then none
    else put_back rest d old

taken-none : (l : List (Word × Word × EpollEvent)) (d : Word) → taken l d none ≡ none
taken-none [] d = refl
taken-none ((f, sh, e) ∷ l) d = ground (arith, taken-none l d)

put_back-absent :
    (l : List (Word × Word × EpollEvent)) (d : Word) (old : Option EpollEvent)
    → has d (names l) ≡ false
    → put_back l d old ≡ old
put_back-absent [] d old h = refl
put_back-absent ((f, sh, e) ∷ l) d old h = ground (arith, put_back-absent l d old)

is_live_shadow-absent :
    (l : List (Word × Word × EpollEvent)) (d : Word)
    → has d (names l) ≡ false
    → is_live_shadow l d ≡ false
is_live_shadow-absent [] d h = refl
is_live_shadow-absent ((f, sh, e) ∷ l) d h = ground (arith, is_live_shadow-absent l d)

put_back-taken :
    (l : List (Word × Word × EpollEvent)) (d : Word) (old between : Option EpollEvent)
    → IsSeparate l
    → (is_live_shadow l d ≡ false → between ≡ taken l d old)
    → put_back l d between ≡ restored l d old
put_back-taken [] d old between apart h = h refl
put_back-taken ((f, sh, e) ∷ l) d old between (apart_f, apart_sh, apart) h =
    let alone : (d == f) ≡ true → is_live_shadow l d ≡ false =
      λ same. is_live_shadow-absent l d (ground (arith, same, apart_f)) in
    let rest : (e.events == 0) || not (d == f) && not (d == sh) ≡ true
        → put_back l d between ≡ restored l d old =
      λ other. put_back-taken l d old between apart (λ free. ground (arith, h, free, other)) in
    ground (arith, alone, rest, h)

module _ (os : Os) (epfd : Word) (h : HasInterest os epfd) where
  open h use {watched}

  pub pass_shadowfd-interests :
      (l : List Socket) (w : os.World)
      → interests (forall_sockets (epoll_shadowfd os epfd) l w).0 ≡ interests l
  unfolding forall_sockets
  pass_shadowfd-interests [] w = refl
  pass_shadowfd-interests (s ∷ l) w =
      let (s', w') = epoll_shadowfd os epfd s w in
      let (same_ev, same_fd, same_shadow) = epoll_shadowfd-same os epfd h s w in
      let rest = pass_shadowfd-interests l w' in cc

  epoll_shadowfd_idle :
      (s : Socket) (w : os.World) → (s.ev.events == 0) ≡ true → epoll_shadowfd os epfd s w ≡ (s, w)
  unfolding epoll_shadowfd
  epoll_shadowfd_idle s w idle = ground arith

  epoll_originalfd_idle :
      (s : Socket) (w : os.World)
      → (s.ev.events == 0) ≡ true
      → epoll_originalfd os epfd s w ≡ (s, w)
  unfolding epoll_originalfd
  epoll_originalfd_idle s w idle = ground arith

  pass_shadowfd-taken :
      (l : List Socket) (d : Word) (w : os.World)
      → is_live_shadow (interests l) d ≡ false
      → watched d (forall_sockets (epoll_shadowfd os epfd) l w).1
        ≡ taken (interests l) d (watched d w)
  unfolding forall_sockets
  pass_shadowfd-taken [] d w free = refl
  pass_shadowfd-taken (s ∷ l) d w free =
      let w' = (epoll_shadowfd os epfd s w).1 in
      let rest = pass_shadowfd-taken l d w' (ground arith) in
      elim (Bool-cases (s.ev.events == 0)) [
        | inl idle ↦
            let still =
              ap (λ (r : Socket × os.World). watched d r.1) (epoll_shadowfd_idle s w idle) in
            ground (arith, rest, still)
        | inr live ↦ ground (
          arith,
          rest,
          epoll_shadowfd-watched os epfd h s d w live (ground arith),
          taken-none (interests l) d,
        )
      ]

  pass_originalfd-put_back :
      (l : List Socket) (d : Word) (w : os.World)
      → IsSeparate (interests l)
      → watched d (forall_sockets (epoll_originalfd os epfd) l w).1
        ≡ put_back (interests l) d (watched d w)
  unfolding forall_sockets
  pass_originalfd-put_back [] d w apart = refl
  pass_originalfd-put_back (s ∷ l) d w (apart_f, apart_sh, apart) =
      let w' = (epoll_originalfd os epfd s w).1 in
      let rest = pass_originalfd-put_back l d w' apart in
      let skips = put_back-absent (interests l) d (watched d w') in
      elim (Bool-cases (s.ev.events == 0)) [
        | inl idle ↦
            let still =
              ap (λ (r : Socket × os.World). watched d r.1) (epoll_originalfd_idle s w idle) in
            ground (arith, rest, still)
        | inr live ↦
            ground
              (arith, rest, skips, epoll_originalfd-watched os epfd h s d w live, apart_f, apart_sh)
      ]

  -- Where an epoll instance keeps its list of interest as documented, and no two bound sockets share
  -- a descriptor: `epoll_wait` puts the shadows in the place of the user's descriptors, then does
  -- anything that leaves the sockets' descriptors and events, and how the instance watches `d`, as
  -- they are, and then puts the user's descriptors back. Then the instance watches `d`, if it is the
  -- descriptor of a socket that the user watches, for the event that the user asked for, not at all
  -- if it is the shadow of one, and otherwise as it did before `epoll_wait`.
  pub passes-restored :
      (l l2 : List Socket) (d : Word) (w w2 : os.World)
      → IsSeparate (interests l)
      → interests l2 ≡ interests l
      → watched d w2 ≡ watched d (forall_sockets (epoll_shadowfd os epfd) l w).1
      → watched d (forall_sockets (epoll_originalfd os epfd) l2 w2).1
        ≡ restored (interests l) d (watched d w)
  passes-restored l l2 d w w2 apart same still =
      pass_originalfd-put_back l2 d w2 (subst IsSeparate (sym same) apart)
      ∙ ap (λ i. put_back i d (watched d w2)) same
      ∙ put_back-taken (interests l) d (watched d w) (watched d w2) apart
          (λ free. still ∙ pass_shadowfd-taken l d w free)
