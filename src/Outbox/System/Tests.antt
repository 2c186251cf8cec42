-- ===== src/Outbox/System/Tests.antt =====
-- A run of one processor, and witnesses on runs.
use iveri_nest_sdk.Common.{ℕ, ◌≤◌, ◌≡◌, refl, none, some, List, [], ◌∷◌, arith, inl, inr, take}
use iveri_nest_sdk.Outbox.Event.{OutboxEvent, published}
use iveri_nest_sdk.Outbox.Repository.{due_rows, claim_due_batch, mark_published}
use iveri_nest_sdk.Outbox.Repository.Identity.{find_row}
use iveri_nest_sdk.Outbox.Processor.{process, Cycle, run_cycle}
use iveri_nest_sdk.Outbox.System.{
  System, start_system, IsEnqueued, Step, enqueue, claim, terminal, Reach, here, next,
}
use iveri_nest_sdk.Outbox.System.Safety.{IsConsistentSystem, reachable-IsConsistent}
use iveri_nest_sdk.Outbox.System.Finality.{published-final}
use iveri_nest_sdk.Outbox.Tests.{name, config, fresh_row, leased_row, dto, unlocked, all_well, idle}
use iveri_nest_sdk.Outbox.Draining.Batch.{IsUndisturbed}
use iveri_nest_sdk.Outbox.Draining.Cycles.{IsServed, IsDone, run_cycles, run_cycles-IsDone}
use iveri_nest_sdk.Outbox.System.Sent.{IsSent, published-IsSent}
use iveri_nest_sdk.Outbox.System.Row.{RowStep, Step-RowStep}
use iveri_nest_sdk.Outbox.System.Attempts.{completions, completions-le}

-- A row is enqueued, claimed and published; then it is enqueued after another, and claimed again.
new_row : IsEnqueued [] fresh_row
new_row = record { fresh = refl; status = refl; attempts = refl; unclaimed = refl }

abbrev enqueued : System
enqueued = record { table = fresh_row ∷ []; held = []; issued = [] }

abbrev claimed : System
claimed = record { table = leased_row ∷ []; held = leased_row ∷ []; issued = 41 ∷ [] }

abbrev done_row : OutboxEvent
done_row = record leased_row {
  status = published;
  next_attempt_at = none;
  claimed_at = none;
  claim_token = none;
  published_at = some 300;
}

abbrev finished : System
finished = record { table = done_row ∷ []; held = []; issued = 41 ∷ [] }

claims_it : Step name config enqueued claimed
unfolding claim_due_batch
claims_it = claim dto 150 200 41 unlocked tt refl

publishes_it : Step name config claimed finished
unfolding process all_well mark_published
publishes_it = terminal all_well [] leased_row [] refl refl

abbrev run_to_end : Reach name config start_system finished
run_to_end = next (next (next here (enqueue fresh_row new_row refl)) claims_it) publishes_it

reachable-IsConsistent_example : IsConsistentSystem config finished
reachable-IsConsistent_example = reachable-IsConsistent name config (omega arith) run_to_end

abbrev reclaimed : System
reclaimed = record { table = done_row ∷ []; held = []; issued = 42 ∷ 41 ∷ [] }

claims_nothing : Step name config finished reclaimed
unfolding claim_due_batch
claims_nothing = claim dto 400 400 42 unlocked (omega arith) refl

published-final_example : find_row 7 (done_row ∷ []) ≡ some done_row
published-final_example =
    published-final name config (omega arith) 7 done_row run_to_end (next here claims_nothing)
      (inl refl) refl

abbrev lone_cycle : Cycle
lone_cycle = record {
  claim_rejected = none;
  now = 150;
  claimed_at = 200;
  claim_token = 41;
  is_locked = unlocked;
  turns = λ i. record { others = λ table. table; attempt = all_well };
}

run_cycle_test : (run_cycle name config lone_cycle idle (fresh_row ∷ [])).table ≡ done_row ∷ []
unfolding run_cycle claim_due_batch all_well mark_published
run_cycle_test = refl

-- Publishing ends the row's only attempt.
Step-RowStep_example :
    (r' : OutboxEvent) × (find_row 7 (done_row ∷ []) ≡ some r')
    × RowStep config.max_attempts leased_row r'
Step-RowStep_example =
    Step-RowStep name config 7 leased_row (omega arith)
      (next (next here (enqueue fresh_row new_row refl)) claims_it) publishes_it refl

completions-le_example : completions 7 run_to_end ≤ config.max_attempts
completions-le_example = completions-le name config (omega arith) 7 run_to_end

completions_test : completions 7 run_to_end ≡ 1
unfolding completions
completions_test = refl

lone_cycle-IsUndisturbed : IsUndisturbed lone_cycle.turns
unfolding all_well
lone_cycle-IsUndisturbed = record { alone = λ k table. refl; lands = λ k. refl }

abbrev three_cycles : List Cycle
three_cycles = lone_cycle ∷ lone_cycle ∷ lone_cycle ∷ []

served : IsServed name config 7 three_cycles idle (fresh_row ∷ [])
unfolding due_rows run_cycle claim_due_batch all_well mark_published
served = inr (
  record { accepted = refl; selected = refl; undisturbed = lone_cycle-IsUndisturbed },
  inl (done_row, refl, inl refl),
)

run_cycles-IsDone_example :
    (k : ℕ) × (k ≤ config.max_attempts)
    × IsDone 7 (run_cycles name config (take k three_cycles) idle (fresh_row ∷ []))
run_cycles-IsDone_example =
    run_cycles-IsDone name config 7 three_cycles idle fresh_row (fresh_row ∷ []) refl (refl, tt)
      refl (omega arith) (omega arith) served

published-IsSent_example : IsSent 7 run_to_end
published-IsSent_example = published-IsSent name config 7 done_row run_to_end refl refl
