-- ===== src/Protocol.antt =====
-- The update protocol among the processes that share one port: each takes the steps of
-- `dsu_monitor_fd` (src/core.c) and of the event handlers on the status, one at a time under its
-- lock.
pub mod Handover
pub mod Interleave
pub mod Schedule
pub mod Liveness
pub mod Runs
pub mod Refines
pub mod Transfer
use open_dsu.Prelude.{ℕ, ◌+◌, List, [], ◌∷◌, if◌then◌else◌}
use open_dsu.Prelude.Words.{Word, truth}
use open_dsu.State.{Socket}
use open_dsu.Core.Monitor.{Status, observe}
use open_dsu.Messages.Answer.{count_answer}

pub record Process : Type 0 where
  pub group : Word
  pub socket : Socket

-- Every process looks at the status once, in the order of the list.
unfoldable pub observe_all : List Process → Status → List Process × Status
observe_all [] st = ([], st)
observe_all (p ∷ rest) st =
    let (s, st') = observe p.group p.socket st in
    let (rest', st'') = observe_all rest st' in (record p { socket = s } ∷ rest', st'')

-- The processes that count themselves in `transfer`.
abbrev pub answering : List Process → ℕ
answering [] = 0
answering (p ∷ rest) = (if truth p.socket.transfer then 1 else 0) + answering rest
