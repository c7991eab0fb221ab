-- ===== src/Protocol/Transfer.antt =====
-- What `status[DSU_TRANSFER]` counts (src/core.c and the handlers of src/event_handlers).
use open_dsu.Prelude.{◌+◌, ◌<◌, ◌≡◌, ◌⊎◌, true, false, List, [], ◌∷◌, ◌++◌, arith, subst}
use open_dsu.Prelude.Words.{lt_int, truth}
use open_dsu.Core.Monitor.{Status, observe, is_behind}
use open_dsu.Messages.Answer.{count_answer}
use open_dsu.Protocol.{Process, answering}
use open_dsu.Protocol.Interleave.{System, Move, looks, answers, locks, inherits, forks, ends}

-- The count is the number of processes that are answering, in the range of an `int`.
abbrev pub IsBalanced : List Process → Status → Type 0
IsBalanced l st = (st.transfer ≡ answering l) × (answering l < 0x7fff_ffff)

answering-append : (l m : List Process) → answering (l ++ m) ≡ answering l + answering m
answering-append [] m = omega arith
answering-append (p ∷ l) m = omega (arith, answering-append l m)

-- A look of one process among others at the status keeps the count equal to the number of
-- processes that are answering, if the process does not quit or had answered.
observe-IsBalanced :
    (before after : List Process) (p : Process) (st : Status)
    → IsBalanced (before ++ p ∷ after) st
    → (is_behind p.socket st ≡ false) ⊎ (truth p.socket.transfer ≡ true)
    → let (s, st') = observe p.group p.socket st in
      IsBalanced (before ++ record p { socket = s } ∷ after) st'
unfolding observe
observe-IsBalanced before after p st b h =
    let (s, st') = observe p.group p.socket st in
    ground (
      arith,
      answering-append before (p ∷ after),
      answering-append before (record p { socket = s } ∷ after),
    )

-- An answer of one process among others keeps the count equal to the number of processes that are
-- answering, while it is below the largest `int`.
count_answer-IsBalanced :
    (before after : List Process) (p : Process) (st : Status)
    → IsBalanced (before ++ p ∷ after) st
    → st.transfer < 0x7fff_fffe
    → let (s, st') = count_answer p.socket st in
      IsBalanced (before ++ record p { socket = s } ∷ after) st'
unfolding count_answer
count_answer-IsBalanced before after p st b h =
    let (s, st') = count_answer p.socket st in
    ground (
      arith,
      answering-append before (p ∷ after),
      answering-append before (record p { socket = s } ∷ after),
    )

-- A process that is not answering: it has not answered a request since the last update.
abbrev pub IsSilent : Process → Type 0
IsSilent p = truth p.socket.transfer ≡ false

-- The steps that the count allows for: a process that quits has answered, one that joins, forks or
-- ends is not answering, and an answer leaves the count in range.
abbrev pub IsCounted : {y z : System} → Move y z → Type 0
IsCounted {y} (looks before after p e e' f) =
    (is_behind p.socket y.status ≡ false) ⊎ (truth p.socket.transfer ≡ true)
IsCounted {y} (answers before after p e e' f) = y.status.transfer < 0x7fff_fffe
IsCounted (locks before after p locked e e' f) = Unit {0}
IsCounted (inherits p m v e f) = IsSilent p
IsCounted (forks before after p e e' f) = IsSilent p
IsCounted (ends before after p e m e' f) = IsSilent p

add-IsBalanced :
    (l : List Process) (p : Process) (st : Status)
    → IsSilent p
    → IsBalanced l st
    → IsBalanced (l ++ p ∷ []) st
add-IsBalanced l p st h b = ground (arith, answering-append l (p ∷ []))

-- A step of any process, in any order with the others, keeps the count of a status equal to the
-- number of processes that are answering, if it is one that the count allows for.
pub Move-IsBalanced :
    {y z : System} (m : Move y z)
    → IsCounted m
    → IsBalanced y.processes y.status
    → IsBalanced z.processes z.status
Move-IsBalanced {y} {z} (looks before after p e e' f) c b =
    rw (e', f)
      (observe-IsBalanced before after p y.status (subst (λ l. IsBalanced l y.status) e b) c)
Move-IsBalanced {y} {z} (answers before after p e e' f) c b =
    rw (e', f)
      (count_answer-IsBalanced before after p y.status (subst (λ l. IsBalanced l y.status) e b) c)
Move-IsBalanced {y} {z} (locks before after p locked e e' f) c b =
    rw (e', f)
      (ground (
        arith,
        subst (λ l. IsBalanced l y.status) e b,
        answering-append before (p ∷ after),
        answering-append before (record p { socket = record p.socket { locked = locked } } ∷ after),
      ))
Move-IsBalanced {y} {z} (inherits p m v e f) c b =
    rw (e, f) (add-IsBalanced y.processes p y.status c b)
Move-IsBalanced {y} {z} (forks before after p e e' f) c b =
    rw (e', f) (add-IsBalanced y.processes p y.status c b)
Move-IsBalanced {y} {z} (ends before after p e m e' f) c b =
    rw (e', f)
      (ground (
        arith,
        subst (λ l. IsBalanced l y.status) e b,
        answering-append before (p ∷ after),
        answering-append before after,
      ))

-- The bug: no request was counted and a process quits, so that the count is below 0. Then the next
-- answer, of a process that had not answered, does not bring it above 0, where the handlers lock.
pub quit_unanswered :
    (old next : Process) (st : Status)
    → st.transfer ≡ 0
    → is_behind old.socket st ≡ true
    → next.socket.transfer ≡ 0
    → let (_, st') = observe old.group old.socket st in
      let (_, st'') = count_answer next.socket st' in
      (lt_int st'.transfer 0 ≡ true) × (lt_int 0 st''.transfer ≡ false)
unfolding observe count_answer
quit_unanswered old next st t b n = ground arith
