-- ===== src/Outbox/Draining/Cycles.antt =====
-- A row that is due is settled within as many cycles as it has attempts left.
use iveri_nest_sdk.Common.{
  ℕ, suc, ◌+◌, ◌-◌, ◌≤◌, ◌<◌, ◌≡◌, ◌⊎◌, inl, inr, refl, true, false, none, some, List, [], ◌∷◌,
  length, take, arith,
}
use iveri_nest_sdk.Common.Text.{Text}
use iveri_nest_sdk.Outbox.Event.{OutboxEvent, Table}
use iveri_nest_sdk.Outbox.Repository.{due_rows, has_id}
use iveri_nest_sdk.Outbox.Repository.Identity.{Unique, find_row}
use iveri_nest_sdk.Outbox.Processor.{
  OutboxProcessorConfig, OutboxProcessor, Cycle, claim_input, drain, run_cycle,
}
use iveri_nest_sdk.Outbox.Draining.{IsFinal}
use iveri_nest_sdk.Outbox.Draining.Batch.{IsUndisturbed, drain-settles, drain-Unique}

-- One cycle after the other, as the interval starts them, and the table that they leave.
unfoldable pub run_cycles :
    Text → OutboxProcessorConfig → List Cycle → OutboxProcessor → Table → Table
unfolding run_cycle
run_cycles name config [] p table = table
run_cycles name config (c ∷ cycles) p table =
    let result = run_cycle name config c p table in
    run_cycles name config cycles result.processor result.table

-- The row `i` is published or dead-lettered.
abbrev pub IsDone : ℕ → Table → Type 0
IsDone i table = (u : OutboxEvent) × (find_row i table ≡ some u) × IsFinal u

-- A cycle that claims the row `i`, in which nobody else touches the table and the store takes the
-- writes of failures.
pub record IsServing (config : OutboxProcessorConfig) (i : ℕ) (c : Cycle) (table : Table)
    : Type 0 where
  pub accepted : c.claim_rejected ≡ none
  pub selected : has_id i (due_rows (claim_input config) c.now c.is_locked table) ≡ true
  pub undisturbed : IsUndisturbed c.turns

-- Each cycle serves the row, until it is done.
abbrev pub IsServed :
    Text → OutboxProcessorConfig → ℕ → List Cycle → OutboxProcessor → Table → Type 0
IsServed name config i [] p table = Unit
IsServed name config i (c ∷ cycles) p table =
    IsDone i table
    ⊎ (IsServing config i c table
        × IsServed name config i cycles (run_cycle name config c p table).processor
            (run_cycle name config c p table).table)

module _ (name : Text) (config : OutboxProcessorConfig) (i : ℕ) where
  run_cycle-drains :
      (c : Cycle) (p : OutboxProcessor) (table : Table)
      → p.is_running ≡ false
      → ((run_cycle name config c p table).table ≡ (drain name config c table).0)
        × ((run_cycle name config c p table).processor.is_running ≡ false)
  unfolding run_cycle
  run_cycle-drains c p table idle = rw idle (refl, refl)

  -- The number of cycles after which the row is done.
  abbrev Finishes : ℕ → List Cycle → OutboxProcessor → Table → Type 0
  Finishes left cycles p table =
      (k : ℕ) × (k ≤ left) × IsDone i (run_cycles name config (take k cycles) p table)

  finishes :
      (cycles : List Cycle) (p : OutboxProcessor) (r : OutboxEvent) (table : Table)
      → p.is_running ≡ false
      → Unique table
      → find_row i table ≡ some r
      → r.attempt_count < config.max_attempts
      → config.max_attempts ≤ r.attempt_count + length cycles
      → IsServed name config i cycles p table
      → Finishes (config.max_attempts - r.attempt_count) cycles p table
  unfolding run_cycles
  finishes [] p r table idle unique found left enough served = absurd (omega arith)
  finishes (c ∷ cycles) p r table idle unique found left enough (inl done) = (0, omega arith, done)
  finishes (c ∷ cycles) p r table idle unique found left enough (inr (serving, served)) =
      let (drained, idle') = run_cycle-drains c p table idle in
      let (u, at, settled) =
        drain-settles name config i r table unique found c serving.selected serving.accepted
          serving.undisturbed in
      let found' : find_row i (run_cycle name config c p table).table ≡ some u = rw drained at in
      elim settled.outcome [
        | inl final ↦ (1, omega arith, (u, found', final))
        | inr (waiting, count, more) ↦
            let (k, few, done) =
              finishes cycles (run_cycle name config c p table).processor u
                (run_cycle name config c p table).table idle'
                (rw drained (drain-Unique name config i r table unique found c serving.undisturbed))
                found' more (omega arith) served in
            (suc k, omega arith, done)
      ]

-- An event is settled in time. Take a table of distinct ids with a row that has attempts left, and at
-- least as many cycles of an idle processor as those attempts, of which each, until the row is done,
-- claims it, has its claim accepted, is disturbed by nobody and has its failures recorded: whatever
-- `publish` does and whether or not the store takes the record of it, after at most as many cycles
-- as the row had attempts left it is published or dead-lettered.
pub run_cycles-IsDone :
    (name : Text) (config : OutboxProcessorConfig) (i : ℕ) (cycles : List Cycle)
    (p : OutboxProcessor) (r : OutboxEvent) (table : Table)
    → p.is_running ≡ false
    → Unique table
    → find_row i table ≡ some r
    → r.attempt_count < config.max_attempts
    → config.max_attempts ≤ r.attempt_count + length cycles
    → IsServed name config i cycles p table
    → (k : ℕ) × (k ≤ config.max_attempts - r.attempt_count)
      × IsDone i (run_cycles name config (take k cycles) p table)
run_cycles-IsDone name config i = finishes name config i
