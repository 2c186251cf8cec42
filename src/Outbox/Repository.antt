-- ===== src/Outbox/Repository.antt =====
-- src/outbox/outbox-event.repository.ts: claim, complete and retry over one outbox table.
--
-- A query is its effect on the list of rows. What PostgreSQL adds is an argument: the instant of
-- NOW(), and which rows another transaction holds locked. Rows of equal order keep the table's.
pub mod Writes
pub mod Identity
pub mod Claims
pub mod Order
pub mod Terminal
use iveri_nest_sdk.Common.{
  ℕ, ◌+◌, Bool, true, false, ◌&&◌, ◌||◌, not, Option, none, some, List, [], ◌∷◌, map, ltb, leb,
  ◌==◌, take, select, length, if◌then◌else◌,
}
use iveri_nest_sdk.Common.Text.{Text}
use iveri_nest_sdk.Outbox.Event.{
  OutboxEventStatus, pending, processing, published, dead_letter, status_eq, OutboxEvent, Table,
  Claim, is_some_eq,
}

abbrev pub is_null : Option ℕ → Bool
is_null none = true
is_null (some n) = false

-- `column <= at`, which NULL does not meet.
abbrev is_at_most : Option ℕ → ℕ → Bool
is_at_most none now = false
is_at_most (some t) now = leb t now

-- `claimed_at IS NULL OR claimed_at < NOW() - claimTimeoutMs`
abbrev is_claim_stale : Option ℕ → ℕ → ℕ → Bool
is_claim_stale none claim_timeout_ms now = true
is_claim_stale (some t) claim_timeout_ms now = ltb (t + claim_timeout_ms) now

unfoldable pub is_due : ℕ → ℕ → OutboxEvent → Bool
is_due claim_timeout_ms now event =
    is_null event.deleted_at
    && (status_eq event.status pending || status_eq event.status processing)
    && is_at_most event.next_attempt_at now
    && (status_eq event.status pending || is_claim_stale event.claimed_at claim_timeout_ms now)

abbrev pub or_zero : Option ℕ → ℕ
or_zero none = 0
or_zero (some n) = n

-- `ORDER BY next_attempt_at ASC, created_at ASC`; a due row has a next attempt.
unfoldable pub is_before : OutboxEvent → OutboxEvent → Bool
is_before a b =
    ltb (or_zero a.next_attempt_at) (or_zero b.next_attempt_at)
    || (or_zero a.next_attempt_at == or_zero b.next_attempt_at && leb a.created_at b.created_at)

unfoldable pub insert_row : OutboxEvent → List OutboxEvent → List OutboxEvent
insert_row a [] = a ∷ []
insert_row a (b ∷ rows) = if is_before a b then a ∷ b ∷ rows else b ∷ insert_row a rows

unfoldable pub order_rows : List OutboxEvent → List OutboxEvent
unfolding insert_row is_before
order_rows [] = []
order_rows (a ∷ rows) = insert_row a (order_rows rows)

pub record ClaimInput : Type 0 where
  pub batch_size : ℕ
  pub claim_timeout_ms : ℕ

-- The rows that the SELECT of the claim returns and locks.
unfoldable pub due_rows :
    ClaimInput → (now : ℕ) → (is_locked : OutboxEvent → Bool) → Table → List OutboxEvent
unfolding is_due order_rows
due_rows dto now is_locked table =
    take dto.batch_size
      (order_rows (select (λ e. is_due dto.claim_timeout_ms now e && not (is_locked e)) table))

unfoldable pub stamp : ℕ → ℕ → OutboxEvent → OutboxEvent
stamp claim_token claimed_at row = record row {
  status = processing;
  claimed_at = some claimed_at;
  claim_token = some claim_token;
}

abbrev pub has_id : ℕ → List OutboxEvent → Bool
has_id i [] = false
has_id i (r ∷ rows) = r.id == i || has_id i rows

-- `save(rows)`: each claimed row of the table gets the three columns that were stamped.
unfoldable pub save_claims : ℕ → ℕ → List OutboxEvent → Table → Table
unfolding stamp
save_claims claim_token claimed_at rows [] = []
save_claims claim_token claimed_at rows (row ∷ table) =
    (if has_id row.id rows then stamp claim_token claimed_at row else row)
    ∷ save_claims claim_token claimed_at rows table

-- `now` is the database's clock, `claimed_at` the process's, `claim_token` the fresh UUID.
unfoldable pub claim_due_batch :
    ClaimInput
    → (now claimed_at claim_token : ℕ) → (is_locked : OutboxEvent → Bool) → Table
    → Table × List OutboxEvent
unfolding due_rows save_claims stamp
claim_due_batch dto now claimed_at claim_token is_locked table =
    let rows = due_rows dto now is_locked table in
    (save_claims claim_token claimed_at rows table, map (stamp claim_token claimed_at) rows)

-- The predicate of a terminal write.
unfoldable pub is_claimed : Claim → OutboxEvent → Bool
is_claimed claim row =
    row.id == claim.id
    && row.tenant_id == claim.tenant_id
    && is_some_eq row.claim_token claim.claim_token

unfoldable pub update_rows : Claim → (OutboxEvent → OutboxEvent) → Table → Table
unfolding is_claimed
update_rows claim patch [] = []
update_rows claim patch (row ∷ table) =
    (if is_claimed claim row then patch row else row) ∷ update_rows claim patch table

-- `(result.affected ?? 0) === 1`
unfoldable pub update_claimed : Claim → (OutboxEvent → OutboxEvent) → Table → Table × Bool
unfolding update_rows is_claimed
update_claimed claim patch table =
    (update_rows claim patch table, length (select (is_claimed claim) table) == 1)

unfoldable pub published_patch : ℕ → OutboxEvent → OutboxEvent
published_patch now row = record row {
  status = published;
  published_at = some now;
  next_attempt_at = none;
  claimed_at = none;
  claim_token = none;
  last_error = none;
}

unfoldable pub mark_published : ℕ → Claim → Table → Table × Bool
unfolding update_claimed published_patch
mark_published now claim table = update_claimed claim (published_patch now) table

pub record Failure : Type 0 where
  pub attempt_count : ℕ
  pub next_attempt_at : Option ℕ
  pub is_dead_letter : Bool
  pub last_error : Text

unfoldable pub failure_patch : Failure → OutboxEvent → OutboxEvent
failure_patch f row = record row {
  status = if f.is_dead_letter then dead_letter else pending;
  attempt_count = f.attempt_count;
  next_attempt_at = if f.is_dead_letter then none else f.next_attempt_at;
  claimed_at = none;
  claim_token = none;
  last_error = some (take 500 f.last_error);
}

unfoldable pub record_failure : Claim → Failure → Table → Table × Bool
unfolding update_claimed failure_patch
record_failure claim f table = update_claimed claim (failure_patch f) table

pub record QueueDepthReading : Type 0 where
  pub pending : ℕ
  pub in_flight : ℕ
  pub dead_lettered : ℕ

unfoldable count_status : OutboxEventStatus → Table → ℕ
count_status status table =
    length (select (λ e. is_null e.deleted_at && status_eq e.status status) table)

-- `collect`: a state that no row is in reads 0.
unfoldable pub collect : Table → QueueDepthReading
unfolding count_status
collect table = record {
  pending = count_status OutboxEventStatus.pending table;
  in_flight = count_status processing table;
  dead_lettered = count_status dead_letter table;
}
