-- ===== src/Select/Loop.antt =====
-- `select` of src/event_handlers/select.c, round by round.
use open_dsu.Prelude.{
  ℕ, zero, suc, ◌+◌, ◌-◌, ◌%◌, Bool, true, false, ◌&&◌, Option, none, some, List, ◌==◌,
  if◌then◌else◌,
}
use open_dsu.Prelude.Words.{Word, minus_one}
use open_dsu.Prelude.Monad.{Cmd, pure}
use open_dsu.Os.{Os, FdSet, Timeout}
use open_dsu.State.{Socket, Program}
use open_dsu.Core.{Run, returns, exits, initialize_event}
use open_dsu.Select.{pass, sniff_all, pre_select, post_select, handle_step, Globals}

-- What one round gives: `result` is `none` where the call starts over.
pub record Round : Type 0 where
  pub program : Program
  pub result : Option Word
  pub readfds : Option FdSet
  pub writefds : Option FdSet
  pub exceptfds : Option FdSet
  pub correction : Word

abbrev pub is_null : Option Timeout → Bool
is_null none = true
is_null (some _) = false

module _ (os : Os) where
  open os use {World}

  abbrev pub pre_step :
      Socket → Option FdSet × Globals → Cmd World (Socket × (Option FdSet × Globals))
  pre_step s (none, g) = pure (s, (none, g))
  pre_step s (some set, g) =
      λ w. let ((s', set', g'), w') = pre_select os s set g w in ((s', (some set', g')), w')

  abbrev pub sniff_sets : List Socket → Option FdSet → Word → Option FdSet × Word
  sniff_sets l none max_fds = (none, max_fds)
  sniff_sets l (some set) max_fds = let (set', m) = sniff_all l (set, max_fds) in (some set', m)

  -- One round of `select`, up to the call of itself.
  unfoldable pub select_round :
      Program
      → Word
      → Option FdSet
      → Option FdSet
      → Option FdSet
      → Option Timeout
      → Word
      → World
      → Run World Round
  select_round p nfds readfds writefds exceptfds timeout correction w =
      elim (initialize_event os p w) [
        | exits code w' ↦ exits code w'
        | returns p1 w1 ↦
            let globals : Globals = record { max_fds = nfds; transfer = 0 } in
            let ((binds1, (rd1, g)), w2) = pass pre_step p1.binds (readfds, globals) w1 in
            let (rd2, max_fds) = sniff_sets binds1 rd1 g.max_fds in
            let tv : Option Timeout =
              if g.transfer == 1 then some (record { sec = 0; rest = 100 }) else timeout in
            let ((r, rd3, wr3, ex3), w3) = os.select max_fds rd2 writefds exceptfds tv w2 in
            let ((binds2, (rd4, n)), w4) = pass (handle_step os) binds1 (rd3, correction) w3 in
            let ((binds3, rd5), w5) = pass (post_select os) binds2 rd4 w4 in
            let told : Word = (r + 0x1_0000_0000 - n) % 0x1_0000_0000 in
            if r == minus_one
            then returns
                (record {
                  program = record p1 { binds = binds1 };
                  result = some r;
                  readfds = rd3;
                  writefds = wr3;
                  exceptfds = ex3;
                  correction = correction;
                })
                w3
            else if (told == 0) && is_null timeout
            then returns
                (record {
                  program = record p1 { binds = binds3 };
                  result = none;
                  readfds = readfds;
                  writefds = writefds;
                  exceptfds = exceptfds;
                  correction = 0;
                })
                w5
            else returns
                (record {
                  program = record p1 { binds = binds3 };
                  result = some told;
                  readfds = rd5;
                  writefds = wr3;
                  exceptfds = ex3;
                  correction = 0;
                })
                w5
      ]

  -- `select`, with `rounds` for how often it may start over: `none` where they do not suffice.
  unfoldable pub select :
      ℕ
      → Program
      → Word
      → Option FdSet
      → Option FdSet
      → Option FdSet
      → Option Timeout
      → Word
      → World
      → Option (Run World Round)
  select zero p nfds readfds writefds exceptfds timeout correction w = none
  select (suc rounds) p nfds readfds writefds exceptfds timeout correction w =
      elim (select_round p nfds readfds writefds exceptfds timeout correction w) [
        | exits code w' ↦ some (exits code w')
        | returns r w' ↦ elim r.result [
          | some _ ↦ some (returns r w')
          | none ↦
              select rounds r.program nfds r.readfds r.writefds r.exceptfds none r.correction w'
        ]
      ]
