-- ===== src/Outbox/Tests.antt =====
-- Runs of the outbox on small tables, and the theorems at concrete inputs.
use iveri_nest_sdk.Common.{◌≡◌, refl, Bool, true, false, none, some, List, [], ◌∷◌, arith, All}
use iveri_nest_sdk.Common.Text.{Text, codes}
use iveri_nest_sdk.Outbox.Event.{OutboxEvent, pending, processing, Claim}
use iveri_nest_sdk.Outbox.Retry.{Fraction}
use iveri_nest_sdk.Outbox.Repository.{ClaimInput, due_rows, claim_due_batch, has_id}
use iveri_nest_sdk.Outbox.Repository.Order.{IsEarliest, candidates, due_rows-IsEarliest}
use iveri_nest_sdk.Outbox.Repository.Claims.{claims_disjoint}
use iveri_nest_sdk.Outbox.Processor.{OutboxProcessorConfig, Attempt, Thrown, OutboxProcessor}

abbrev pub config : OutboxProcessorConfig
config = record {
  is_enabled = true;
  poll_interval_ms = 1000;
  batch_size = 10;
  claim_timeout_ms = 30000;
  max_attempts = 3;
  backoff_base_ms = 100;
  backoff_max_ms = 5000;
}

abbrev pub name : Text
name = codes "ride"

abbrev half : Fraction
half = record { numerator = 1; denominator = 2 }

abbrev pub fresh_row : OutboxEvent
fresh_row = record {
  id = 7;
  tenant_id = 3;
  created_at = 100;
  deleted_at = none;
  status = pending;
  attempt_count = 0;
  next_attempt_at = some 100;
  claimed_at = none;
  claim_token = none;
  published_at = none;
  last_error = none;
}

abbrev pub leased_row : OutboxEvent
leased_row = record fresh_row { status = processing; claimed_at = some 200; claim_token = some 41 }

abbrev pub unlocked : OutboxEvent → Bool
unlocked row = false

abbrev pub dto : ClaimInput
dto = record { batch_size = 10; claim_timeout_ms = 30000 }

claim_test :
    claim_due_batch dto 150 200 41 unlocked (fresh_row ∷ []) ≡ (leased_row ∷ [], leased_row ∷ [])
unfolding claim_due_batch
claim_test = refl

abbrev single_dto : ClaimInput
single_dto = record { batch_size = 1; claim_timeout_ms = 30000 }

unfoldable pub all_well : Attempt
all_well = record {
  publish = none;
  mark_published = none;
  record_failure = none;
  now = 300;
  random = half;
}

abbrev timeout : Thrown
timeout = record { message = some (codes "timeout"); is_permanent = false }

failing : Attempt
failing = record {
  publish = some timeout;
  mark_published = none;
  record_failure = none;
  now = 300;
  random = half;
}

unrecorded : Attempt
unrecorded = record {
  publish = none;
  mark_published = some timeout;
  record_failure = none;
  now = 300;
  random = half;
}

claims_disjoint_example :
    All
      (λ e. has_id e.id (claim_due_batch dto 150 200 41 unlocked (fresh_row ∷ [])).1 ≡ false)
      (claim_due_batch dto 30200 30200 42 unlocked
        (claim_due_batch dto 150 200 41 unlocked (fresh_row ∷ [])).0).1
claims_disjoint_example =
    claims_disjoint dto dto 150 200 41 unlocked 30200 30200 42 unlocked (fresh_row ∷ [])
      (omega arith)

abbrev stale : Claim
stale = record { id = 7; tenant_id = 3; claim_token = 40 }

abbrev pub idle : OutboxProcessor
idle = record { timer = none; is_running = false; armed = [] }

abbrev late_row : OutboxEvent
late_row = record fresh_row { id = 8; created_at = 120 }

due_rows-IsEarliest_example :
    (left : List OutboxEvent) × IsEarliest 1
      (candidates single_dto 150 unlocked (late_row ∷ fresh_row ∷ []))
      (due_rows single_dto 150 unlocked (late_row ∷ fresh_row ∷ []))
      left
due_rows-IsEarliest_example =
    due_rows-IsEarliest single_dto 150 unlocked (late_row ∷ fresh_row ∷ [])

due_rows_test : due_rows single_dto 150 unlocked (late_row ∷ fresh_row ∷ []) ≡ fresh_row ∷ []
unfolding due_rows
due_rows_test = refl
