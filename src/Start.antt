-- ===== src/Start.antt =====
-- `dsu_init` of src/core.c, which runs before the program: the state, the shared count of workers
-- and its semaphore. The C library's functions that it resolves are the fields of `os`.
use open_dsu.Prelude.{◌+◌, [], ◌∷◌, ◌++◌, ◌==◌, if◌then◌else◌}
use open_dsu.Prelude.Words.{Word, minus_one}
use open_dsu.Os.{Os, Bytes}
use open_dsu.State.{Program}
use open_dsu.Core.{Run, returns, exits}
use open_dsu.Bind.{o_creat, o_excl, o_rdwr, shm_name}

abbrev pub o_trunc : Word
o_trunc = 0o1000

-- The path of the shared count, and the name of its semaphore, with the number of the group.
abbrev pub state_path : Word → Bytes
state_path group = shm_name group ++ (b'.' ∷ b's' ∷ b't' ∷ b'a' ∷ b't' ∷ b'e' ∷ [])

abbrev pub lock_name : Word → Bytes
lock_name group = shm_name group ++ (b'.' ∷ b'l' ∷ b'o' ∷ b'c' ∷ b'k' ∷ [])

module _ (os : Os) where
  open os use {World}

  -- The process exits where the shared memory cannot be made.
  unfoldable pub init : World → Run World Program
  init w =
      let group : Word = os.process_group w in
      let (_, w1) = os.shm_unlink (state_path group) w in
      let (shfd, w2) = os.shm_open (state_path group) (o_creat + o_rdwr + o_trunc) w1 in
      let (sized, w3) = os.ftruncate shfd 4 w2 in
      let (workers, w4) = os.mmap 4 shfd w3 in
      let w5 = os.store workers 0 0 w4 in
      let group' : Word = os.process_group w5 in
      let (_, w6) = os.sem_unlink (lock_name group') w5 in
      let (lock, w7) = os.sem_open (lock_name group') (o_creat + o_excl) w6 in
      let (_, w8) = os.sem_init lock 1 w7 in
      if shfd == minus_one
      then exits 1 w2
      else if sized == minus_one
      then exits 1 w3
      else if workers == 0xffff_ffff_ffff_ffff
      then exits 1 w4
      else returns (record { sockets = []; binds = []; live = 0; workers = workers; lock = lock })
          w8
