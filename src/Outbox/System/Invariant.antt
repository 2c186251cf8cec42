-- ===== src/Outbox/System/Invariant.antt =====
-- What holds of the table and of the attempts in flight, whatever the processors do.
use iveri_nest_sdk.Common.{
  ℕ, ◌≤◌, ◌<◌, ◌≡◌, ◌≢◌, ◌⊎◌, true, false, some, List, arith, All, All-mono,
}
use iveri_nest_sdk.Outbox.Event.{OutboxEvent, Table, OutboxEventStatus, pending, processing}
use iveri_nest_sdk.Outbox.Repository.{is_claimed, published_patch, failure_patch, Failure}
use iveri_nest_sdk.Outbox.Repository.Identity.{Unique}
use iveri_nest_sdk.Outbox.Processor.{claim_of}

abbrev pub IsOpen : OutboxEventStatus → Type 0
IsOpen s = (s ≡ pending) ⊎ (s ≡ processing)

abbrev pub Has : ℕ → List ℕ → Type 0
Has t ts = ¬ All (λ i. i ≢ t) ts

-- A row that is still open has attempts left, and only a row that is being processed carries a
-- token, one that was issued.
pub record IsSound (max_attempts : ℕ) (issued : List ℕ) (row : OutboxEvent) : Type 0 where
  pub attempts_left : IsOpen row.status → row.attempt_count < max_attempts
  pub attempts_bounded : row.attempt_count ≤ max_attempts
  pub leased : (t : ℕ) → row.claim_token ≡ some t → row.status ≡ processing
  pub token_issued : (t : ℕ) → row.claim_token ≡ some t → Has t issued

-- The row that still carries the token of the attempt `e` is what the attempt read.
abbrev IsCurrent : Table → OutboxEvent → Type 0
IsCurrent table e =
    (t : ℕ)
    → e.claim_token ≡ some t
    → All (λ row. row.id ≡ e.id → row.claim_token ≡ some t → row ≡ e) table

pub record IsHeld (table : Table) (issued : List ℕ) (e : OutboxEvent) : Type 0 where
  pub issued_token : (t : ℕ) → e.claim_token ≡ some t → Has t issued
  pub current : IsCurrent table e

pub record IsConsistent (max_attempts : ℕ) (s_table : Table) (s_held : List OutboxEvent)
    (s_issued : List ℕ) : Type 0 where
  pub unique : Unique s_table
  pub sound : All (IsSound max_attempts s_issued) s_table
  pub held : All (IsHeld s_table s_issued) s_held

-- Terminal writes, with the patch of either kind.
module _ (max_attempts : ℕ) (issued : List ℕ) where
  pub published-IsSound :
      (now : ℕ) (row : OutboxEvent)
      → IsSound max_attempts issued row
      → IsSound max_attempts issued (published_patch now row)
  unfolding published_patch
  published-IsSound now row h = record {
    attempts_left = λ o. ground arith;
    attempts_bounded = h.attempts_bounded;
    leased = λ t e. cc;
    token_issued = λ t e. cc;
  }

  pub failure-IsSound :
      (f : Failure) (row : OutboxEvent)
      → f.attempt_count ≤ max_attempts
      → (f.is_dead_letter ≡ false → f.attempt_count < max_attempts)
      → IsSound max_attempts issued (failure_patch f row)
  unfolding failure_patch
  failure-IsSound f row le lt = record {
    attempts_left = λ o. ground arith;
    attempts_bounded = le;
    leased = λ t e. cc;
    token_issued = λ t e. cc;
  }

-- A row that a terminal write meets is what its attempt holds.
pub is_claimed-current :
    (table : Table) (event : OutboxEvent) (t : ℕ)
    → event.claim_token ≡ some t
    → IsCurrent table event
    → All (λ row. is_claimed (claim_of event t) row ≡ true → row ≡ event) table
unfolding is_claimed
is_claimed-current table event t e h =
    All-mono (λ row. row.id ≡ event.id → row.claim_token ≡ some t → row ≡ event)
      (λ row. is_claimed (claim_of event t) row ≡ true → row ≡ event) table
      (λ row k c. k (ground arith) (ground arith)) (h t e)
