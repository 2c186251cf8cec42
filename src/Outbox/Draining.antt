-- ===== src/Outbox/Draining.antt =====
-- src/outbox/outbox.processor.ts: cycle after cycle of one processor, and the row that they settle.
pub mod Batch
pub mod Cycles
use iveri_nest_sdk.Common.{
  ℕ, zero, suc, ◌+◌, ◌-◌, ◌≤◌, ◌<◌, ◌≡◌, ◌≢◌, ◌⊎◌, inl, inr, refl, sym, ap, ◌∙◌, Bool, true, false,
  ◌||◌, Option, none, some, List, [], ◌∷◌, map, length, take, arith, All, All-map, All-mono,
  Bool-cases, Option-cases, ◌==◌, leb, if◌then◌else◌,
}
use iveri_nest_sdk.Common.Text.{Text}
use iveri_nest_sdk.Outbox.Event.{
  OutboxEvent, Table, pending, processing, published, dead_letter, Claim,
}
use iveri_nest_sdk.Outbox.Repository.{
  claim_due_batch, due_rows, has_id, stamp, save_claims, is_claimed, update_rows,
}
use iveri_nest_sdk.Outbox.Repository.Identity.{
  Unique, find_row, IsOnly, Unique-IsOnly, All-due_rows, Unique-save_claims, Unique-update_rows,
}
use iveri_nest_sdk.Outbox.Processor.{
  OutboxProcessorConfig, Attempt, Processed, Turn, Thrown, process, attempt, fail, process_all,
  claim_of, OutboxProcessor, Cycle, claim_input, drain, run_cycle, CycleResult,
}
use iveri_nest_sdk.Outbox.Processor.Laws.{IsLeased, process-published, process-failed}
use iveri_nest_sdk.Outbox.System.Terminal.{process_effect, patch_keeps}
use iveri_nest_sdk.Outbox.System.Row.{
  find_row-map, All-find_row, patch_if, patch_if-id, update_rows-eq-map, stamp_if,
  save_claims-eq-map,
}

abbrev pub IsFinal : OutboxEvent → Type 0
IsFinal row = (row.status ≡ published) ⊎ (row.status ≡ dead_letter)

-- What a stored terminal write makes of a row: it is final, or pending with an attempt more made
-- and one left.
pub record IsSettled (max_attempts : ℕ) (r u : OutboxEvent) : Type 0 where
  pub unheld : u.claim_token ≡ none
  pub outcome :
      IsFinal u
      ⊎ ((u.status ≡ pending)
          × (u.attempt_count ≡ r.attempt_count + 1)
          × (u.attempt_count < max_attempts))

pub find_row-id : (i : ℕ) (r : OutboxEvent) (table : Table) → find_row i table ≡ some r → r.id ≡ i
find_row-id i r [] h = absurd (cc)
find_row-id i r (row ∷ table) h = ground (arith, find_row-id i r table)

module _ (name : Text) (config : OutboxProcessorConfig) where
  module _ (w : Attempt) (event : OutboxEvent) (table : Table) where
    process-failed_settles :
        (t : ℕ) (lease : IsLeased table event t) (error : Thrown)
        → (w.publish ≡ some error) ⊎ ((w.publish ≡ none) × (w.mark_published ≡ some error))
        → w.record_failure ≡ none
        → (u : OutboxEvent) × (find_row event.id (process name config w event table).table ≡ some u)
          × IsSettled config.max_attempts event u
    process-failed_settles t lease error how lands =
        let over = error.is_permanent || leb config.max_attempts (event.attempt_count + 1) in
        let e = process-failed name config w event table t lease error how lands in
        elim (Bool-cases over) [
          | inl dead ↦ (_, (rw dead at e), record { unheld = refl; outcome = inl (inr refl) })
          | inr alive ↦ (
            _,
            (rw alive at e),
            record { unheld = refl; outcome = inr (refl, refl, ground (arith, alive)) },
          )
        ]

    pub process-settles :
        (t : ℕ) (lease : IsLeased table event t)
        → w.record_failure ≡ none
        → (u : OutboxEvent) × (find_row event.id (process name config w event table).table ≡ some u)
          × IsSettled config.max_attempts event u
    process-settles t lease lands = elim (Option-cases w.publish) [
      | inr (error, thrown) ↦ process-failed_settles t lease error (inl thrown) lands
      | inl sent ↦ elim (Option-cases w.mark_published) [
        | inr (error, rejected) ↦ process-failed_settles t lease error (inr (sent, rejected)) lands
        | inl stored ↦ (
          _,
          process-published name config w event table t lease sent stored,
          record { unheld = refl; outcome = inl (inl refl) },
        )
      ]
    ]

    -- No error escapes where the write of a failure is stored.
    pub process-escapes_not :
        w.record_failure ≡ none → (process name config w event table).escaped ≡ none
    unfolding process attempt fail
    process-escapes_not lands = ground arith

    -- A row that the event's claim does not meet.
    pub process-spares :
        (i : ℕ) (r : OutboxEvent)
        → ((t : ℕ) → is_claimed (claim_of event t) r ≡ false)
        → find_row i table ≡ some r
        → find_row i (process name config w event table).table ≡ some r
    process-spares i r missed found = elim (process_effect name config w event table) [
      | inl same ↦ rw same found
      | inr (t, patch, et, busy, isp, written) ↦
          rw (written, update_rows-eq-map (claim_of event t) patch table)
            (find_row-map (patch_if (claim_of event t) patch) i r table
                (patch_if-id (claim_of event t) patch (patch_keeps name config event patch isp).0)
                found
              ∙ ap (λ b. some (if b then patch r else r)) (missed t))
    ]

    pub process-Unique : Unique table → Unique (process name config w event table).table
    process-Unique h = elim (process_effect name config w event table) [
      | inl same ↦ rw same h
      | inr (t, patch, et, busy, isp, written) ↦ rw written (
          Unique-update_rows (claim_of event t) patch (patch_keeps name config event patch isp).0
            table h)
    ]

  pub other_missed :
      (event r : OutboxEvent) (t : ℕ) → r.id ≢ event.id → is_claimed (claim_of event t) r ≡ false
  unfolding is_claimed
  other_missed event r t ne = elim (Bool-cases (r.id == event.id)) [
    | inl same ↦ absurd (ne (ground arith))
    | inr other ↦ rw other refl
  ]

  pub unheld_missed :
      (event r : OutboxEvent) (t : ℕ)
      → r.claim_token ≡ none
      → is_claimed (claim_of event t) r ≡ false
  unfolding is_claimed
  unheld_missed event r t unheld = ground (arith, unheld)
