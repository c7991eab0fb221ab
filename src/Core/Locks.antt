-- ===== src/Core/Locks.antt =====
-- The locks on descriptors that versions share: semaphores, and what the shadow data structure notes
-- of them (the passes of `dsu_forall_sockets` in src/event_handlers).
use open_dsu.Prelude.{
  ◌≡◌, refl, ◌≢◌, Bool, false, ◌&&◌, ◌||◌, Option, List, [], ◌∷◌, arith, ◌==◌, if◌then◌else◌,
}
use open_dsu.Prelude.Words.{Word, Ptr}
use open_dsu.Prelude.Monad.{Cmd}
use open_dsu.Os.{Os, EpollEvent}
use open_dsu.State.{Socket}
use open_dsu.Core.{forall_sockets}

-- `held q w`: the process has taken the semaphore `q` and not given it back. A post gives a semaphore
-- back and no other, and epoll does nothing to semaphores.
pub record HasLocks (os : Os) : Type 0 where
  pub held : Ptr → os.World → Bool
  pub held-sem_post :
      (p q : Ptr) (w : os.World) → held q (os.sem_post p w).1 ≡ (if q == p then false else held q w)
  pub held-epoll_ctl :
      (e o fd : Word) (ev : Option EpollEvent) (q : Ptr) (w : os.World)
      → held q (os.epoll_ctl e o fd ev w).1 ≡ held q w

-- No lock on the socket's descriptor is noted.
abbrev pub IsUnlocked : Socket → Type 0
IsUnlocked s = s.locked ≢ 1

-- Whether the semaphore is the lock of a socket that is noted as locked.
abbrev pub is_noted : Ptr → Socket → Bool
is_noted q s = (s.locked == 1) && (q == s.fd_sem)

abbrev pub is_noted_in : Ptr → List Socket → Bool
is_noted_in q [] = false
is_noted_in q (s ∷ l) = is_noted q s || is_noted_in q l

-- A pass that gives the noted lock of each socket back gives back the noted locks of all.
pub forall_sockets-held :
    {W : Type 0} (held : W → Bool) (q : Ptr) (y : Socket → Cmd W Socket)
    → ((s : Socket) (w : W) → held (y s w).1 ≡ (if is_noted q s then false else held w))
    → (l : List Socket) (w : W)
    → held (forall_sockets y l w).1 ≡ (if is_noted_in q l then false else held w)
unfolding forall_sockets
forall_sockets-held held q y each [] w = refl
forall_sockets-held held q y each (s ∷ l) w =
    ground (arith, each s w, forall_sockets-held held q y each l (y s w).1)

-- A pass that does nothing to a semaphore.
pub forall_sockets-held_same :
    {W : Type 0} (held : W → Bool) (y : Socket → Cmd W Socket)
    → ((s : Socket) (w : W) → held (y s w).1 ≡ held w)
    → (l : List Socket) (w : W) → held (forall_sockets y l w).1 ≡ held w
unfolding forall_sockets
forall_sockets-held_same held y each [] w = refl
forall_sockets-held_same held y each (s ∷ l) w =
    ground (arith, each s w, forall_sockets-held_same held y each l (y s w).1)
