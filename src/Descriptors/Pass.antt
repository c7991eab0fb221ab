-- ===== src/Descriptors/Pass.antt =====
-- A pass over the bound sockets (`dsu_forall_sockets` of src/state.h) keeps to the open descriptors
-- if every call does.
use open_dsu.Prelude.{◌+◌, ◌≤◌, ◌≡◌, ◌≢◌, refl, ◌∙◌, ap₂, List, [], ◌∷◌, arith}
use open_dsu.Prelude.Words.{Word, minus_one}
use open_dsu.Prelude.Monad.{Cmd}
use open_dsu.Os.{Os}
use open_dsu.State.{Socket}
use open_dsu.State.Remove.{fds_of}
use open_dsu.Core.{forall_sockets}
use open_dsu.Select.{pass}
use open_dsu.Calls.Roles.{roles_at, sum_of}
use open_dsu.Descriptors.{HasDescriptors}
use open_dsu.Descriptors.Protocol.{Conserves}

module _ (os : Os) (d : HasDescriptors os) where
  open d use {opened}

  abbrev pub ConservesAll : List Socket → os.World → List Socket → os.World → Type 0
  ConservesAll l w l' w' =
      (fds_of l' ≡ fds_of l)
      × ((b : Word)
          → b ≢ minus_one
          → sum_of (roles_at b) l' + opened b w ≤ sum_of (roles_at b) l + opened b w')

  pub ConservesAll-cons :
      (s s' : Socket) (l l' : List Socket) (w w' w'' : os.World)
      → Conserves os d s w s' w'
      → ConservesAll l w' l' w''
      → ConservesAll (s ∷ l) w (s' ∷ l') w''
  ConservesAll-cons s s' l l' w w' w'' (e, f) (g, k) =
      (ap₂ ◌∷◌ e g, λ b nb. omega (arith, f b nb, k b nb))

  pub ConservesAll-trans :
      (l m n : List Socket) (w w' w'' : os.World)
      → ConservesAll l w m w'
      → ConservesAll m w' n w''
      → ConservesAll l w n w''
  ConservesAll-trans l m n w w' w'' (e, f) (g, k) = (g ∙ e, λ b nb. omega (arith, f b nb, k b nb))

  pub forall_sockets-Conserves :
      (y : Socket → Cmd os.World Socket)
      → ((s : Socket) (w : os.World) → let (s', w') = y s w in Conserves os d s w s' w')
      → (l : List Socket) (w : os.World)
      → let (l', w') = forall_sockets y l w in ConservesAll l w l' w'
  unfolding forall_sockets
  forall_sockets-Conserves y each [] w = (refl, λ b nb. omega arith)
  forall_sockets-Conserves y each (s ∷ l) w =
      let (s', w') = y s w in
      let (l', w'') = forall_sockets y l w' in
      ConservesAll-cons s s' l l' w w' w'' (each s w) (forall_sockets-Conserves y each l w')

  pub pass-Conserves :
      {A : Type 0} (y : Socket → A → Cmd os.World (Socket × A))
      → ((s : Socket) (a : A) (w : os.World)
          → let ((s', _), w') = y s a w in Conserves os d s w s' w')
      → (l : List Socket) (a : A) (w : os.World)
      → let ((l', _), w') = pass y l a w in ConservesAll l w l' w'
  unfolding pass
  pass-Conserves y each [] a w = (refl, λ b nb. omega arith)
  pass-Conserves y each (s ∷ l) a w =
      let ((s', a'), w') = y s a w in
      let ((l', _), w'') = pass y l a' w' in
      ConservesAll-cons s s' l l' w w' w'' (each s a w) (pass-Conserves y each l a' w')
