-- ===== src/Workers/Count.antt =====
-- The shared count is the number of live workers, and the last one ends the group (src/core.c).
use open_dsu.Prelude.{
  ◌+◌, ◌%◌, ◌<◌, ◌≡◌, true, List, [], ◌∷◌, ◌++◌, arith, ap, subst, sym, ◌∙◌, ◌==◌, if◌then◌else◌,
}
use open_dsu.Prelude.Words.{Ptr, truth}
use open_dsu.Os.{Os, IsMemory, IsQuiet}
use open_dsu.State.{Program}
use open_dsu.Core.{start_worker, leave_workers, terminate, sigkill, returns}
use open_dsu.Start.{init}
use open_dsu.Workers.{
  Crew, live_count, Duty, begins, leaves, forks, works, Crews, started, then_duty, IsApart,
}
use open_dsu.Workers.Load.{
  start_worker-load, leave_workers-load, terminate-load, IsFresh, init-IsFresh,
}

live_count-append : (l m : List Program) → live_count (l ++ m) ≡ live_count l + live_count m
live_count-append [] m = omega arith
live_count-append (p ∷ l) m = omega (arith, live_count-append l m)

module _ (os : Os) (m : IsMemory os) (q : IsQuiet os) (a : IsApart os) where
  -- The count is the number of live processes, as the counter of 32 bits shows it.
  abbrev pub IsCounted : Ptr → Crew os → Type 0
  IsCounted shared y = os.load shared 0 y.world ≡ live_count y.members % 0x1_0000_0000

  started-IsCounted :
      {p : Program} {w : os.World} (shared : Ptr) (w0 : os.World)
      → init os w0 ≡ returns p w
      → p.workers ≡ shared
      → IsCounted shared (record { members = p ∷ []; world = w })
  started-IsCounted {p} {w} shared w0 e on =
      let (zero_count, idle) = subst (IsFresh os m q a) e (init-IsFresh os m q a w0) in
      subst (λ (x : Ptr). IsCounted x (record { members = p ∷ []; world = w })) on
        (ground (arith, zero_count, idle))

  begins-IsCounted :
      (before after : List Program) (p : Program) (w : os.World)
      → os.load p.workers 0 w ≡ live_count (before ++ p ∷ after) % 0x1_0000_0000
      → let (p', w') = start_worker os p w in
        os.load p.workers 0 w' ≡ live_count (before ++ p' ∷ after) % 0x1_0000_0000
  begins-IsCounted before after p w h = ground (
    arith,
    start_worker-load os m q a p w,
    live_count-append before (p ∷ after),
    live_count-append before ((start_worker os p w).0 ∷ after),
  )

  leaves-IsCounted :
      (before after : List Program) (p : Program) (w : os.World)
      → truth p.live ≡ true
      → os.load p.workers 0 w ≡ live_count (before ++ p ∷ after) % 0x1_0000_0000
      → os.load p.workers 0 (terminate os p w).1
        ≡ live_count (if (leave_workers os p w).0 == 0 then [] else before ++ after) % 0x1_0000_0000
  leaves-IsCounted before after p w live h = ground (
    arith,
    terminate-load os m q a p w,
    leave_workers-load os m q a p w,
    live_count-append before (p ∷ after),
    live_count-append before after,
  )

  -- The invariant at a member's own pointer, and back.
  counted_at :
      {y : Crew os} {l : List Program} (shared : Ptr) (p : Program)
      → y.members ≡ l
      → p.workers ≡ shared
      → IsCounted shared y
      → os.load p.workers 0 y.world ≡ live_count l % 0x1_0000_0000
  counted_at {y} shared p e on h =
      ap (λ x. os.load x 0 y.world) on ∙ h ∙ ap (λ l. live_count l % 0x1_0000_0000) e

  IsCounted-from :
      {l : List Program} {w : os.World} (z : Crew os) (shared : Ptr) (p : Program)
      → z.members ≡ l
      → z.world ≡ w
      → p.workers ≡ shared
      → os.load p.workers 0 w ≡ live_count l % 0x1_0000_0000
      → IsCounted shared z
  IsCounted-from {l} {w} z shared p e f on h =
      ap (λ w. os.load shared 0 w) f
      ∙ sym (ap (λ x. os.load x 0 w) on)
      ∙ h
      ∙ sym (ap (λ l. live_count l % 0x1_0000_0000) e)

  Duty-IsCounted :
      {y z : Crew os} (shared : Ptr) → Duty os shared y z → IsCounted shared y → IsCounted shared z
  Duty-IsCounted {y} {z} shared (begins before after p e on e' f) h =
      IsCounted-from z shared p e' f on
        (begins-IsCounted before after p y.world (counted_at {y = y} shared p e on h))
  Duty-IsCounted {y} {z} shared (leaves before after p e on live e' f) h =
      IsCounted-from z shared p e' f on
        (leaves-IsCounted before after p y.world live (counted_at {y = y} shared p e on h))
  Duty-IsCounted {y} {z} shared (forks before after p e idle e' f) h =
      rw (e', f) (ground (arith, live_count-append y.members (p ∷ []), h))
  Duty-IsCounted {y} {z} shared (works before after p p' e same e' f) h =
      rw (e', f)
        (ground (
          arith,
          ap live_count e,
          same,
          live_count-append before (p ∷ after),
          live_count-append before (p' ∷ after),
          h,
        ))

  -- Where shared memory and the lock on the count behave as they should: in whatever order the
  -- processes of a version start to work, fork before they do, and end, from `dsu_init` on, the
  -- shared count is the number of processes that are working, modulo 2 ^ 32.
  pub reachable-IsCounted : (shared : Ptr) {y : Crew os} → Crews os shared y → IsCounted shared y
  reachable-IsCounted shared (started w0 e on) = started-IsCounted shared w0 e on
  reachable-IsCounted shared (then_duty r t) =
      Duty-IsCounted shared t (reachable-IsCounted shared r)

  -- Under the same conditions, with fewer than 2 ^ 32 processes: a working process that terminates
  -- kills the group if no other process works, and otherwise kills nothing.
  pub terminate_last :
      {y : Crew os} (shared : Ptr) (before after : List Program) (p : Program)
      → Crews os shared y
      → y.members ≡ before ++ p ∷ after
      → p.workers ≡ shared
      → truth p.live ≡ true
      → live_count y.members < 0x1_0000_0000
      → let w1 = (leave_workers os p y.world).1 in
        (terminate os p y.world).1 ≡ (
          if live_count (before ++ after) == 0
          then (os.killpg (os.process_group w1) sigkill w1).1
          else w1)
  unfolding terminate
  terminate_last {y} shared before after p r e on live few = ground (
    arith,
    counted_at {y = y} shared p e on (reachable-IsCounted shared r),
    ap live_count e,
    leave_workers-load os m q a p y.world,
    live_count-append before (p ∷ after),
    live_count-append before after,
  )

  -- The bug: a process that forks when it works already leaves a copy that works and is not
  -- counted. Where it was the only one, the first of the two that terminates kills the group, though
  -- two processes work.
  pub terminate_forked :
      {y z : Crew os} (shared : Ptr) (p : Program)
      → Crews os shared y
      → y.members ≡ p ∷ []
      → p.workers ≡ shared
      → truth p.live ≡ true
      → z.members ≡ y.members ++ p ∷ []
      → z.world ≡ y.world
      → let w1 = (leave_workers os p z.world).1 in
        ((terminate os p z.world).1 ≡ (os.killpg (os.process_group w1) sigkill w1).1)
        × (live_count z.members ≡ 2)
  unfolding terminate
  terminate_forked {y} {z} shared p r e on live e' f =
      let count = counted_at {y = y} shared p e on (reachable-IsCounted shared r) in
      (
        rw f (ground (arith, count, leave_workers-load os m q a p y.world)),
        ground (arith, ap live_count e', ap live_count e, live_count-append y.members (p ∷ [])),
      )
