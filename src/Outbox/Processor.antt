-- ===== src/Outbox/Processor.antt =====
-- src/outbox/outbox.processor.ts: the loop that drains one outbox table.
--
-- What the loop is given from outside is an argument: what `publish` does, whether a write of the
-- store is rejected, the clocks and the random number. An error is `Thrown`.
pub mod Laws
use iveri_nest_sdk.Common.{
  ℕ, ◌+◌, Bool, true, false, ◌||◌, Option, none, some, List, [], ◌∷◌, ◌++◌, leb, ◌==◌, select, not,
  length, if◌then◌else◌,
}
use iveri_nest_sdk.Common.Text.{Text, codes}
use iveri_nest_sdk.Outbox.Event.{
  OutboxEvent, OutboxEventStatus, processing, status_eq, Table, Claim,
}
use iveri_nest_sdk.Outbox.Retry.{Fraction, next_outbox_attempt_at}
use iveri_nest_sdk.Outbox.Repository.{
  ClaimInput, Failure, claim_due_batch, mark_published, record_failure,
}

pub record OutboxProcessorConfig : Type 0 where
  pub is_enabled : Bool
  pub poll_interval_ms : ℕ
  pub batch_size : ℕ
  pub claim_timeout_ms : ℕ
  pub max_attempts : ℕ
  pub backoff_base_ms : ℕ
  pub backoff_max_ms : ℕ

-- What was thrown: the message of an `Error`, and the service's judgement of it.
pub record Thrown : Type 0 where
  pub message : Option Text
  pub is_permanent : Bool

-- What the world does to one event: `some` is a rejection.
pub record Attempt : Type 0 where
  pub publish : Option Thrown
  pub mark_published : Option Thrown
  pub record_failure : Option Thrown
  pub now : ℕ
  pub random : Fraction

-- The table after an event, what escaped, and whether a dead letter was logged.
pub record Processed : Type 0 where
  pub table : Table
  pub escaped : Option Thrown
  pub dead_letter_logged : Bool

abbrev pub reason_of : Text → Thrown → Text
reason_of name error = elim error.message [
  | some message ↦ message
  | none ↦ codes "Unknown " ++ (name ++ codes " publish failure")
]

unfoldable pub failure_of : Text → OutboxProcessorConfig → Attempt → OutboxEvent → Thrown → Failure
failure_of name config w event error =
    let attempt_count = event.attempt_count + 1 in
    let is_dead_letter = error.is_permanent || leb config.max_attempts attempt_count in
    record {
      attempt_count = attempt_count;
      next_attempt_at =
          if is_dead_letter
          then none
          else some (
              next_outbox_attempt_at w.now w.random attempt_count config.backoff_base_ms
                config.backoff_max_ms);
      is_dead_letter = is_dead_letter;
      last_error = reason_of name error;
    }

-- The `catch` of an attempt.
unfoldable pub fail :
    Text → OutboxProcessorConfig → Attempt → OutboxEvent → Claim → Thrown → Table → Processed
unfolding failure_of
fail name config w event claim error table =
    let f = failure_of name config w event error in
    elim w.record_failure [
      | none ↦ record {
        table = (record_failure claim f table).0;
        escaped = none;
        dead_letter_logged = f.is_dead_letter;
      }
      | some e ↦ record { table = table; escaped = some e; dead_letter_logged = false }
    ]

-- The `try` of an attempt: an error of `markPublished` is caught like one of `publish`.
unfoldable pub attempt :
    Text → OutboxProcessorConfig → Attempt → OutboxEvent → Claim → Table → Processed
unfolding fail
attempt name config w event claim table = elim w.publish [
  | some error ↦ fail name config w event claim error table
  | none ↦ elim w.mark_published [
    | some error ↦ fail name config w event claim error table
    | none ↦ record {
      table = (mark_published w.now claim table).0;
      escaped = none;
      dead_letter_logged = false;
    }
  ]
]

abbrev pub claim_of : OutboxEvent → ℕ → Claim
claim_of event claim_token = record {
  id = event.id;
  tenant_id = event.tenant_id;
  claim_token = claim_token;
}

abbrev pub refused : Table → Processed
refused table = record { table = table; escaped = none; dead_letter_logged = false }

-- An event without a lease is refused.
unfoldable pub process : Text → OutboxProcessorConfig → Attempt → OutboxEvent → Table → Processed
unfolding attempt
process name config w event table = elim event.claim_token [
  | none ↦ refused table
  | some claim_token ↦
      if status_eq event.status processing
      then attempt name config w event (claim_of event claim_token) table
      else refused table
]

-- One turn of the loop: what other processes do to the table before it, and what the world does.
pub record Turn : Type 0 where
  pub others : Table → Table
  pub attempt : Attempt

-- The `for` loop of a cycle, from turn `i` on: an error that escapes ends it.
unfoldable pub process_all :
    Text → OutboxProcessorConfig → (ℕ → Turn) → ℕ → List OutboxEvent → Table → Processed
unfolding process
process_all name config turns i [] table = refused table
process_all name config turns i (event ∷ batch) table =
    let done = process name config (turns i).attempt event ((turns i).others table) in
    let rest = process_all name config turns (i + 1) batch done.table in
    elim done.escaped [ some e ↦ done | none ↦ rest ]

-- `timer` is the handle of the last interval, and `armed` the intervals that the runtime will fire.
pub record OutboxProcessor : Type 0 where
  pub timer : Option ℕ
  pub is_running : Bool
  pub armed : List ℕ

-- `setInterval` returns a fresh handle.
unfoldable pub start : OutboxProcessorConfig → (handle : ℕ) → OutboxProcessor → OutboxProcessor
start config handle p =
    if config.is_enabled then record p { timer = some handle; armed = handle ∷ p.armed } else p

unfoldable pub stop : OutboxProcessor → OutboxProcessor
stop p = elim p.timer [
  | none ↦ record p { timer = none }
  | some handle ↦ record p { timer = none; armed = select (λ h. not (h == handle)) p.armed }
]

-- What `claimDueBatch` meets in one cycle, its rejection included, and the turns of the loop.
pub record Cycle : Type 0 where
  pub claim_rejected : Option Thrown
  pub now : ℕ
  pub claimed_at : ℕ
  pub claim_token : ℕ
  pub is_locked : OutboxEvent → Bool
  pub turns : ℕ → Turn

-- `claimed` is the number that the cycle returns, or `none` where an error escapes it.
pub record CycleResult : Type 0 where
  pub table : Table
  pub claimed : Option ℕ
  pub processor : OutboxProcessor

abbrev pub claim_input : OutboxProcessorConfig → ClaimInput
claim_input config = record {
  batch_size = config.batch_size;
  claim_timeout_ms = config.claim_timeout_ms;
}

-- The body of the `try`.
unfoldable pub drain : Text → OutboxProcessorConfig → Cycle → Table → Table × Option ℕ
unfolding process_all
drain name config c table = elim c.claim_rejected [
  | some e ↦ (table, none)
  | none ↦
      let claimed =
        claim_due_batch (claim_input config) c.now c.claimed_at c.claim_token c.is_locked table in
      let done = process_all name config c.turns 0 claimed.1 claimed.0 in
      (done.table, elim done.escaped [ none ↦ some (length claimed.1) | some e ↦ none ])
]

-- A cycle that is already running returns 0. `finally` resets `isRunning`.
unfoldable pub run_cycle :
    Text → OutboxProcessorConfig → Cycle → OutboxProcessor → Table → CycleResult
unfolding drain
run_cycle name config c p table =
    if p.is_running
    then record { table = table; claimed = some 0; processor = p }
    else let result = drain name config c table in
      record { table = result.0; claimed = result.1; processor = record p { is_running = false } }
