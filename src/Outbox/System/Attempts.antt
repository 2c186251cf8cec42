-- ===== src/Outbox/System/Attempts.antt =====
-- How often a row can leave processing, over any run of the processors.
use iveri_nest_sdk.Common.{
  ℕ, ◌+◌, ◌-◌, ◌≤◌, ◌<◌, inl, inr, Bool, ◌&&◌, ◌||◌, not, Option, none, some, List, arith,
  Option-cases, if◌then◌else◌,
}
use iveri_nest_sdk.Common.Text.{Text}
use iveri_nest_sdk.Outbox.Event.{OutboxEvent, OutboxEventStatus, pending, processing, status_eq}
use iveri_nest_sdk.Outbox.Repository.Identity.{find_row}
use iveri_nest_sdk.Outbox.Processor.{OutboxProcessorConfig}
use iveri_nest_sdk.Outbox.System.{System, start_system, Step, Reach, here, next}
use iveri_nest_sdk.Outbox.System.Invariant.{IsSound}
use iveri_nest_sdk.Outbox.System.Safety.{reachable-IsConsistent}
use iveri_nest_sdk.Outbox.System.Row.{
  RowStep, kept, taken, sent, retried, buried, Step-RowStep, All-find_row,
}

abbrev is_open : OutboxEventStatus → Bool
is_open s = status_eq s pending || status_eq s processing

-- The attempts that a row has left.
rank : ℕ → OutboxEvent → ℕ
rank max_attempts r = if is_open r.status then max_attempts - r.attempt_count else 0

-- An id that has no row yet has all its attempts left.
remaining : ℕ → Option OutboxEvent → ℕ
unfolding rank
remaining max_attempts none = max_attempts
remaining max_attempts (some r) = rank max_attempts r

-- 1 if the row was in processing before and is not after.
leaves : Option OutboxEvent → Option OutboxEvent → ℕ
leaves (some r) (some u) =
    if status_eq r.status processing && not (status_eq u.status processing) then 1 else 0
leaves _ _ = 0

-- How often the row `i` left processing during a run.
unfoldable pub completions :
    {name : Text} {config : OutboxProcessorConfig} {s u : System} → ℕ → Reach name config s u → ℕ
unfolding leaves
completions i here = 0
completions i (next {t} {u} run step) =
    completions i run + leaves (find_row i t.table) (find_row i u.table)

rank_le : (max_attempts : ℕ) (row : Option OutboxEvent) → remaining max_attempts row ≤ max_attempts
unfolding remaining
rank_le max_attempts none = omega arith
rank_le max_attempts (some r) = ground arith

absent_remaining :
    (max_attempts : ℕ) (row : Option OutboxEvent)
    → remaining max_attempts row + leaves none row ≤ remaining max_attempts none
unfolding remaining leaves
absent_remaining max_attempts row = omega (arith, rank_le max_attempts row)

-- A step of a row that has an attempt left while it is open uses one up where it leaves processing.
RowStep-rank :
    (max_attempts : ℕ) (issued : List ℕ) (r u : OutboxEvent)
    → IsSound max_attempts issued r
    → RowStep max_attempts r u
    → remaining max_attempts (some u) + leaves (some r) (some u) ≤ remaining max_attempts (some r)
unfolding remaining leaves
RowStep-rank max_attempts issued r u h (kept e) = rw e (ground arith)
RowStep-rank max_attempts issued r u h (taken (inl o) to count) = ground arith
RowStep-rank max_attempts issued r u h (taken (inr o) to count) = ground arith
RowStep-rank max_attempts issued r u h (sent busy to count) =
    let left = h.attempts_left (inr busy) in ground arith
RowStep-rank max_attempts issued r u h (retried busy to count left) = ground arith
RowStep-rank max_attempts issued r u h (buried busy to count) =
    let left = h.attempts_left (inr busy) in ground arith

module _ (name : Text) (config : OutboxProcessorConfig) (some_attempts : 0 < config.max_attempts)
    (i : ℕ) where
  Step-remaining :
      {s u : System}
      → Reach name config start_system s
      → Step name config s u
      → remaining config.max_attempts (find_row i u.table)
          + leaves (find_row i s.table) (find_row i u.table)
        ≤ remaining config.max_attempts (find_row i s.table)
  Step-remaining {s} {u} run step = elim (Option-cases (find_row i s.table)) [
    | inl absent ↦ rw absent (absent_remaining config.max_attempts (find_row i u.table))
    | inr (r, found) ↦
        let (r', found', moved) = Step-RowStep name config i r some_attempts run step found in
        let sound =
          All-find_row (IsSound config.max_attempts s.issued) i r s.table
            (reachable-IsConsistent name config some_attempts run).sound found in
        rw (found, found') (RowStep-rank config.max_attempts s.issued r r' sound moved)
  ]

  completions-remaining :
      {u : System} (run : Reach name config start_system u)
      → completions i run + remaining config.max_attempts (find_row i u.table) ≤ config.max_attempts
  unfolding completions remaining
  completions-remaining here = omega arith
  completions-remaining (next {t} {u} run step) =
      omega (arith, completions-remaining run, Step-remaining run step)

  -- With at least one attempt allowed, from an empty table and however the processors interleave,
  -- claim again and crash: a row leaves processing, by being published, returned to pending or
  -- dead-lettered, at most the allowed number of attempts times, so retrying it ends.
  pub completions-le :
      {u : System} (run : Reach name config start_system u)
      → completions i run ≤ config.max_attempts
  completions-le run = omega (arith, completions-remaining run)
