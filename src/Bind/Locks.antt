-- ===== src/Bind/Locks.antt =====
-- Which semaphores the versions that share a port take as the lock on its status (`bind` of
-- src/core.c).
use open_dsu.Prelude.{ℕ, ◌+◌, ◌≡◌, ◌≢◌, arith, ap, sym, ◌∙◌}
use open_dsu.Prelude.Words.{Word, Ptr}
use open_dsu.Os.{Os, Bytes}
use open_dsu.State.{Socket}
use open_dsu.Bind.{bind_first, bind_inherited, reset_status, status_sem_name, o_creat, o_excl}
use open_dsu.Core.{dsu_pgid, dsu_version, dsu_transfer}

-- `named n w` is the semaphore that a name stands for. Opening a name gives it. A name that was
-- removed and is made again stands for the semaphore that was made, which is another than it stood for
-- before. Work with semaphores that are open, and with memory, changes no name.
pub record SharesNames (os : Os) : Type 0 where
  pub named : Bytes → os.World → Ptr
  pub opens : (n : Bytes) (w : os.World) → (os.sem_open n o_creat w).0 ≡ named n w
  pub makes :
      (n : Bytes) (w : os.World)
      → let (p, w') = os.sem_open n (o_creat + o_excl) (os.sem_unlink n w).1 in
        (named n w' ≡ p) × (p ≢ named n w)
  pub named-sem_init :
      (n : Bytes) (p : Ptr) (v : Word) (w : os.World) → named n (os.sem_init p v w).1 ≡ named n w
  pub named-sem_wait :
      (n : Bytes) (p : Ptr) (w : os.World) → named n (os.sem_wait p w).1 ≡ named n w
  pub named-sem_post :
      (n : Bytes) (p : Ptr) (w : os.World) → named n (os.sem_post p w).1 ≡ named n w
  pub named-store :
      (n : Bytes) (p : Ptr) (i : ℕ) (v : Word) (w : os.World)
      → named n (os.store p i v w) ≡ named n w

module _ (os : Os) (names : SharesNames os) where
  open names use {named}

  reset_status-named :
      (n : Bytes) (s : Socket) (w : os.World) → named n (reset_status os s w).1 ≡ named n w
  unfolding reset_status
  reset_status-named n s w =
      let w1 = (os.sem_wait s.status_sem w).1 in
      let w2 = os.store s.status dsu_pgid (os.process_group w1) w1 in
      let w3 = os.store s.status dsu_version 0 w2 in
      ground (
        arith,
        names.named-sem_wait n s.status_sem w,
        names.named-store n s.status dsu_pgid (os.process_group w1) w1,
        names.named-store n s.status dsu_version 0 w2,
        names.named-store n s.status dsu_transfer 0 w3,
        names.named-sem_post n s.status_sem (os.store s.status dsu_transfer 0 w3),
      )

  reset_status-sems :
      (s : Socket) (w : os.World)
      → ((reset_status os s w).0.status_sem ≡ s.status_sem)
        × ((reset_status os s w).0.fd_sem ≡ s.fd_sem)
  unfolding reset_status
  reset_status-sems s w = ground arith

  -- The first version removes the name of its first semaphore, and makes it again.
  bind_first-named :
      (s : Socket) (w : os.World)
      → let (s', w') = bind_first os s w in
        (named (status_sem_name s.port) w' ≡ s'.fd_sem) × (s'.fd_sem ≢ s'.status_sem)
  unfolding bind_first
  bind_first-named s w =
      let n = status_sem_name s.port in
      let (p, w1) = os.sem_open n (o_creat + o_excl) (os.sem_unlink n w).1 in
      let w2 = (os.sem_init p 1 w1).1 in
      let (q, w3) = os.sem_open n (o_creat + o_excl) (os.sem_unlink n w2).1 in
      let w4 = (os.sem_init q 1 w3).1 in
      let t : Socket = record s { status_sem = p; fd_sem = q; monitoring = 1 } in
      ground (
        arith,
        names.makes n w,
        names.named-sem_init n p 1 w1,
        names.makes n w2,
        names.named-sem_init n q 1 w3,
        reset_status-named n t w4,
        reset_status-sems t w4,
      )

  bind_inherited-named :
      (t : Socket) (w : os.World)
      → (bind_inherited os t w).0.status_sem ≡ named (status_sem_name t.port) w
  unfolding bind_inherited
  bind_inherited-named t w = ground (arith, names.opens (status_sem_name t.port) w)

  -- The bug, where names stand for semaphores as documented: a version is the first on a port, and
  -- nobody changes what the name of its lock stands for until another version inherits the socket.
  -- Then that version locks the status by the semaphore that the first version has for its
  -- descriptor, which is not the one that the first version locks the status by.
  pub inherited-other_lock :
      (s t : Socket) (w w' : os.World)
      → t.port ≡ s.port
      → named (status_sem_name s.port) w' ≡ named (status_sem_name s.port) (bind_first os s w).1
      → ((bind_inherited os t w').0.status_sem ≡ (bind_first os s w).0.fd_sem)
        × ((bind_inherited os t w').0.status_sem ≢ (bind_first os s w).0.status_sem)
  inherited-other_lock s t w w' port still =
      let (stands, other) = bind_first-named s w in
      let same =
        bind_inherited-named t w' ∙ ap (λ n. named (status_sem_name n) w') port ∙ still ∙ stands in
      (same, λ e. other (sym same ∙ e))
