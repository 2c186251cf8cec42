-- ===== src/Outbox/Event.antt =====
-- Rows of an outbox table: src/outbox/outbox-event.entity.ts, src/outbox/outbox-event-status.enum.ts
-- and the columns of src/entity/base.entity.ts that the queries read.
--
-- Ids and tokens are UUIDs, numbers of 128 bits that are only compared. Times are milliseconds.
-- A text is the list of its UTF-16 code units.
use iveri_nest_sdk.Common.{ℕ, Bool, true, false, Option, none, some, List, ◌==◌}
use iveri_nest_sdk.Common.Text.{Text}

pub data OutboxEventStatus : Type 0 where
  pending processing published dead_letter : OutboxEventStatus

abbrev pub status_eq : OutboxEventStatus → OutboxEventStatus → Bool
status_eq OutboxEventStatus.pending OutboxEventStatus.pending = true
status_eq OutboxEventStatus.processing OutboxEventStatus.processing = true
status_eq OutboxEventStatus.published OutboxEventStatus.published = true
status_eq OutboxEventStatus.dead_letter OutboxEventStatus.dead_letter = true
status_eq _ _ = false

pub record OutboxEvent : Type 0 where
  pub id : ℕ
  pub tenant_id : ℕ
  pub created_at : ℕ
  pub deleted_at : Option ℕ
  pub status : OutboxEventStatus
  pub attempt_count : ℕ
  pub next_attempt_at : Option ℕ
  pub claimed_at : Option ℕ
  pub claim_token : Option ℕ
  pub published_at : Option ℕ
  pub last_error : Option Text

abbrev pub Table : Type 0
Table = List OutboxEvent

-- What a processor holds of a row that it claimed.
pub record Claim : Type 0 where
  pub id : ℕ
  pub tenant_id : ℕ
  pub claim_token : ℕ

abbrev pub is_some_eq : Option ℕ → ℕ → Bool
is_some_eq none n = false
is_some_eq (some m) n = m == n
