-- ===== src/Outbox/Processor/Laws.antt =====
-- What one event of a batch comes to, and the life of the poll.
use iveri_nest_sdk.Common.{
  ℕ, ◌+◌, ◌≡◌, ◌≢◌, ◌⊎◌, inl, inr, refl, true, ◌||◌, not, none, some, List, [], ◌∷◌, arith, All,
  Bool-cases, select, any, ◌==◌, leb, if◌then◌else◌, take,
}
use iveri_nest_sdk.Common.Text.{Text}
use iveri_nest_sdk.Outbox.Event.{published, OutboxEvent, Table, pending, processing, dead_letter}
use iveri_nest_sdk.Outbox.Retry.{next_outbox_attempt_at}
use iveri_nest_sdk.Outbox.Repository.{
  is_claimed, update_rows, mark_published, record_failure, published_patch, failure_patch,
}
use iveri_nest_sdk.Outbox.Repository.Identity.{find_row}
use iveri_nest_sdk.Outbox.Repository.Terminal.{find_row-update_self}
use iveri_nest_sdk.Outbox.Processor.{
  OutboxProcessorConfig, Attempt, Thrown, process, attempt, failure_of, claim_of, reason_of,
  OutboxProcessor, start, stop,
}

-- The attempt's lease: the table's row is what the attempt holds, in processing under token `t`.
pub record IsLeased (table : Table) (event : OutboxEvent) (t : ℕ) : Type 0 where
  pub row : find_row event.id table ≡ some event
  pub token : event.claim_token ≡ some t
  pub busy : event.status ≡ processing

module _ (name : Text) (config : OutboxProcessorConfig) (w : Attempt) (event : OutboxEvent)
    (table : Table) (t : ℕ) (lease : IsLeased table event t) where
  process-attempt :
      process name config w event table ≡ attempt name config w event (claim_of event t) table
  unfolding process
  process-attempt = ground (arith, lease.token, lease.busy)

  own_claim : is_claimed (claim_of event t) event ≡ true
  unfolding is_claimed
  own_claim = ground (arith, lease.token)

  landed :
      (patch : OutboxEvent → OutboxEvent)
      → ((r : OutboxEvent) → (patch r).id ≡ r.id)
      → find_row event.id (update_rows (claim_of event t) patch table) ≡ some (patch event)
  landed patch same =
      find_row-update_self (claim_of event t) patch table event same lease.row own_claim

  attempt-sent :
      w.publish ≡ none
      → w.mark_published ≡ none
      → (attempt name config w event (claim_of event t) table).table
        ≡ update_rows (claim_of event t) (published_patch w.now) table
  unfolding attempt mark_published
  attempt-sent sent lands = ground arith

  attempt-failed :
      (error : Thrown)
      → (w.publish ≡ some error) ⊎ ((w.publish ≡ none) × (w.mark_published ≡ some error))
      → w.record_failure ≡ none
      → (attempt name config w event (claim_of event t) table).table
        ≡ update_rows
            (claim_of event t)
            (failure_patch (failure_of name config w event error))
            table
  unfolding attempt record_failure
  attempt-failed error how lands = ground arith

  -- While its lease is held, an event that is published, with a write that the store takes, ends
  -- as published: at the process's clock, with no token, no next attempt and no error.
  pub process-published :
      w.publish ≡ none
      → w.mark_published ≡ none
      → find_row event.id (process name config w event table).table
        ≡ some (record event {
          status = published;
          published_at = some w.now;
          next_attempt_at = none;
          claimed_at = none;
          claim_token = none;
          last_error = none;
        })
  unfolding published_patch
  process-published sent lands =
      rw process-attempt (rw (attempt-sent sent lands) (landed (published_patch w.now) (λ r. refl)))

  pub process-failed :
      (error : Thrown)
      → (w.publish ≡ some error) ⊎ ((w.publish ≡ none) × (w.mark_published ≡ some error))
      → w.record_failure ≡ none
      → find_row event.id (process name config w event table).table
        ≡ some (
            if error.is_permanent || leb config.max_attempts (event.attempt_count + 1)
            then record event {
              status = dead_letter;
              attempt_count = event.attempt_count + 1;
              next_attempt_at = none;
              claimed_at = none;
              claim_token = none;
              last_error = some (take 500 (reason_of name error));
            }
            else record event {
              status = pending;
              attempt_count = event.attempt_count + 1;
              next_attempt_at = some (
                  next_outbox_attempt_at w.now w.random
                    (event.attempt_count + 1)
                    config.backoff_base_ms
                    config.backoff_max_ms);
              claimed_at = none;
              claim_token = none;
              last_error = some (take 500 (reason_of name error));
            })
  unfolding failure_of failure_patch
  process-failed error how lands = rw process-attempt (
      rw (attempt-failed error how lands) (
        rw (landed (failure_patch (failure_of name config w event error)) (λ r. refl))
          (ground arith)))

select_others :
    (handle : ℕ) (armed : List ℕ)
    → All (λ h. h ≢ handle) armed
    → select (λ h. not (h == handle)) armed ≡ armed
select_others handle [] h = refl
select_others handle (a ∷ armed) h = ground (arith, h.0, select_others handle armed h.1)

-- One interval for each `start`: `stop` clears the one that `start` armed and no other.
stop-start :
    (config : OutboxProcessorConfig) (handle : ℕ) (p : OutboxProcessor)
    → p.timer ≡ none
    → All (λ h. h ≢ handle) p.armed
    → (stop (start config handle p)).armed ≡ p.armed
unfolding stop start
stop-start config handle p idle fresh = elim (Bool-cases config.is_enabled) [
  | inl on ↦ rw on (ground (arith, select_others handle p.armed fresh))
  | inr off ↦ rw off (ground arith)
]

-- A second `start` with no `stop` between forgets the first interval: `stop` leaves it armed.
start_twice_leaks :
    (config : OutboxProcessorConfig) (handle handle' : ℕ) (p : OutboxProcessor)
    → config.is_enabled ≡ true
    → handle ≢ handle'
    → any (λ h. h == handle) (stop (start config handle' (start config handle p))).armed ≡ true
unfolding stop start
start_twice_leaks config handle handle' p on differ = ground arith
