-- ===== src/Outbox/Draining/Batch.antt =====
-- The loop of a cycle over its batch, and the claim before it: what becomes of one row.
use iveri_nest_sdk.Common.{
  ℕ, ◌+◌, ◌≡◌, inl, inr, refl, sym, ap, ◌∙◌, true, Option, none, some, List, [], ◌∷◌, map, arith,
  All, All-map, All-mono, Bool-cases, Option-cases, ◌==◌, if◌then◌else◌,
}
use iveri_nest_sdk.Common.Text.{Text}
use iveri_nest_sdk.Outbox.Event.{OutboxEvent, Table, processing}
use iveri_nest_sdk.Outbox.Repository.{claim_due_batch, due_rows, has_id, stamp, save_claims}
use iveri_nest_sdk.Outbox.Repository.Identity.{
  Unique, find_row, IsOnly, Unique-IsOnly, All-due_rows, Unique-save_claims,
}
use iveri_nest_sdk.Outbox.Processor.{
  OutboxProcessorConfig, Processed, Turn, Thrown, process, process_all, Cycle, claim_input, drain,
}
use iveri_nest_sdk.Outbox.Processor.Laws.{IsLeased}
use iveri_nest_sdk.Outbox.System.Row.{
  find_row-map, All-find_row, stamp_if, stamp_if-id, save_claims-eq-map,
}
use iveri_nest_sdk.Outbox.Draining.{
  IsSettled, find_row-id, process-settles, process-escapes_not, process-spares, process-Unique,
  other_missed, unheld_missed,
}

-- Turns in which nobody else touches the table and the write of a failure is stored.
pub record IsUndisturbed (turns : ℕ → Turn) : Type 0 where
  pub alone : (k : ℕ) (table : Table) → (turns k).others table ≡ table
  pub lands : (k : ℕ) → (turns k).attempt.record_failure ≡ none

module _ (name : Text) (config : OutboxProcessorConfig) (turns : ℕ → Turn)
    (quiet : IsUndisturbed turns) where
  abbrev turn : ℕ → OutboxEvent → Table → Table
  turn k event table = (process name config (turns k).attempt event table).table

  abbrev ended : Option Thrown → Processed → Processed → Processed
  ended escaped done rest = elim escaped [ some e ↦ done | none ↦ rest ]

  process_all-step :
      (k : ℕ) (event : OutboxEvent) (batch : List OutboxEvent) (table : Table)
      → process_all name config turns k (event ∷ batch) table
        ≡ process_all name config turns (k + 1) batch (turn k event table)
  unfolding process_all
  process_all-step k event batch table =
      let w = (turns k).attempt in
      let run : Table → Processed = λ t. process name config w event t in
      let rest : Table → Processed =
        λ t. process_all name config turns (k + 1) batch (run t).table in
      ap (λ t. ended (run t).escaped (run t) (rest t)) (quiet.alone k table)
      ∙ ap (λ e. ended e (run table) (rest table))
          (process-escapes_not name config w event table (quiet.lands k))

  process_all-keeps :
      (k i : ℕ) (r : OutboxEvent) (batch : List OutboxEvent) (table : Table)
      → r.claim_token ≡ none
      → find_row i table ≡ some r
      → find_row i (process_all name config turns k batch table).table ≡ some r
  process_all-keeps k i r [] table unheld found = unfold process_all in found
  process_all-keeps k i r (event ∷ batch) table unheld found =
      rw (process_all-step k event batch table) (
        process_all-keeps (k + 1) i r batch (turn k event table) unheld (
          process-spares name config (turns k).attempt event table i r
            (λ t. unheld_missed name config event r t unheld) found))

  process_all-Unique :
      (k : ℕ) (batch : List OutboxEvent) (table : Table)
      → Unique table
      → Unique (process_all name config turns k batch table).table
  process_all-Unique k [] table h = unfold process_all in h
  process_all-Unique k (event ∷ batch) table h = rw (process_all-step k event batch table) (
      process_all-Unique (k + 1) batch (turn k event table)
        (process-Unique name config (turns k).attempt event table h))

  -- The row of an event of the batch, the only one of its id there.
  abbrev Settles : ℕ → OutboxEvent → Table → Type 0
  Settles i r table =
      (u : OutboxEvent) × (find_row i table ≡ some u) × IsSettled config.max_attempts r u

  process_all-Settles :
      (k t : ℕ) (r : OutboxEvent) (batch : List OutboxEvent) (table : Table)
      → r.claim_token ≡ some t
      → r.status ≡ processing
      → All (λ e. e.id ≡ r.id → e ≡ r) batch
      → has_id r.id batch ≡ true
      → find_row r.id table ≡ some r
      → Settles r.id r (process_all name config turns k batch table).table
  process_all-Settles k t r [] table token busy only there found = absurd (cc)
  process_all-Settles k t r (event ∷ batch) table token busy only there found =
      rw (process_all-step k event batch table) (elim (Bool-cases (event.id == r.id)) [
        | inl same ↦
            let it : event ≡ r = only.0 (ground arith) in
            let lease : IsLeased table r t = record { row = found; token = token; busy = busy } in
            let (u, written, settled) =
              process-settles name config (turns k).attempt r table t lease (quiet.lands k) in
            rw it (
              u,
              process_all-keeps (k + 1) r.id u batch (turn k r table) settled.unheld written,
              settled,
            )
        | inr other ↦
            process_all-Settles (k + 1) t r batch (turn k event table) token busy only.1
              (ground (arith, there, other))
              (process-spares name config (turns k).attempt event table r.id r
                (λ u. other_missed name config event r u (λ e. ground (arith, other))) found)
      ])

has_id-stamp :
    (i token at : ℕ) (rows : List OutboxEvent)
    → has_id i (map (stamp token at) rows) ≡ has_id i rows
unfolding stamp
has_id-stamp i token at [] = refl
has_id-stamp i token at (row ∷ rows) = ground (arith, has_id-stamp i token at rows)

-- The rows of the id of `r` are one row.
only_row :
    (i : ℕ) (r : OutboxEvent) (table : Table)
    → Unique table
    → find_row i table ≡ some r
    → All (λ row. row.id ≡ r.id → row ≡ r) table
only_row i r table h found = All-find_row (IsOnly table) i r table (Unique-IsOnly table h) found

module _ (name : Text) (config : OutboxProcessorConfig) (c : Cycle) (table : Table) where
  drain-accepted :
      c.claim_rejected ≡ none
      → (drain name config c table).0
        ≡ (process_all name config c.turns 0
            (map
              (stamp c.claim_token c.claimed_at)
              (due_rows (claim_input config) c.now c.is_locked table))
            (save_claims c.claim_token c.claimed_at
              (due_rows (claim_input config) c.now c.is_locked table)
              table)).table
  unfolding drain claim_due_batch
  drain-accepted accepted = rw accepted refl

  drain-rejected : (e : Thrown) → c.claim_rejected ≡ some e → (drain name config c table).0 ≡ table
  unfolding drain
  drain-rejected e rejected = rw rejected refl

module _ (name : Text) (config : OutboxProcessorConfig) (i : ℕ) (r : OutboxEvent) (table : Table)
    (unique : Unique table) (found : find_row i table ≡ some r) where
  same_id : r.id ≡ i
  same_id = find_row-id i r table found

  abbrev rows : Cycle → List OutboxEvent
  rows c = due_rows (claim_input config) c.now c.is_locked table

  module _ (c : Cycle)
      (served : has_id i (due_rows (claim_input config) c.now c.is_locked table) ≡ true) where
    abbrev stamped : OutboxEvent
    stamped = stamp c.claim_token c.claimed_at r

    claimed-found :
        find_row i (save_claims c.claim_token c.claimed_at (rows c) table) ≡ some stamped
    claimed-found = rw (save_claims-eq-map c.claim_token c.claimed_at (rows c) table) (
        find_row-map (stamp_if c.claim_token c.claimed_at (rows c)) i r table
          (stamp_if-id c.claim_token c.claimed_at (rows c)) found
        ∙ ap (λ b. some (if b then stamped else r)) (ap (λ k. has_id k (rows c)) same_id ∙ served))

    claimed-only :
        All (λ e. e.id ≡ stamped.id → e ≡ stamped) (map (stamp c.claim_token c.claimed_at) (rows c))
    unfolding stamp
    claimed-only =
        All-map (λ e. e.id ≡ r.id → e ≡ stamped) (stamp c.claim_token c.claimed_at) (rows c)
          (All-mono (λ row. row.id ≡ r.id → row ≡ r)
            (λ row.
              (stamp c.claim_token c.claimed_at row).id ≡ r.id
              → stamp c.claim_token c.claimed_at row ≡ stamped)
            (rows c) (λ row k same. ap (stamp c.claim_token c.claimed_at) (k same))
            (All-due_rows (λ row. row.id ≡ r.id → row ≡ r) (claim_input config) c.now c.is_locked
              table (only_row i r table unique found)))

    claimed-there : has_id stamped.id (map (stamp c.claim_token c.claimed_at) (rows c)) ≡ true
    unfolding stamp
    claimed-there =
        has_id-stamp r.id c.claim_token c.claimed_at (rows c)
        ∙ ap (λ k. has_id k (rows c)) same_id
        ∙ served

    drained-settles :
        IsUndisturbed c.turns
        → (u : OutboxEvent) × (find_row i
              (process_all name config c.turns 0
                (map (stamp c.claim_token c.claimed_at) (rows c))
                (save_claims c.claim_token c.claimed_at (rows c) table)).table
            ≡ some u)
          × IsSettled config.max_attempts r u
    unfolding stamp
    drained-settles quiet =
        let (u, at, settled) =
          process_all-Settles name config c.turns quiet 0 c.claim_token stamped
            (map (stamp c.claim_token c.claimed_at) (rows c))
            (save_claims c.claim_token c.claimed_at (rows c) table) refl refl claimed-only
            claimed-there
            (ap (λ k. find_row k (save_claims c.claim_token c.claimed_at (rows c) table)) same_id
              ∙ claimed-found) in
        (
          u,
          ap
                (λ k.
                  find_row k
                    (process_all name config c.turns 0
                      (map (stamp c.claim_token c.claimed_at) (rows c))
                      (save_claims c.claim_token c.claimed_at (rows c) table)).table)
                (sym same_id)
              ∙ at,
          record { unheld = settled.unheld; outcome = settled.outcome },
        )

    -- A cycle that claims the row settles it.
    pub drain-settles :
        c.claim_rejected ≡ none
        → IsUndisturbed c.turns
        → (u : OutboxEvent) × (find_row i (drain name config c table).0 ≡ some u)
          × IsSettled config.max_attempts r u
    drain-settles accepted quiet =
        rw (drain-accepted name config c table accepted) (drained-settles quiet)

  pub drain-Unique : (c : Cycle) → IsUndisturbed c.turns → Unique (drain name config c table).0
  drain-Unique c quiet = elim (Option-cases c.claim_rejected) [
    | inr (e, rejected) ↦ rw (drain-rejected name config c table e rejected) unique
    | inl accepted ↦ rw (drain-accepted name config c table accepted) (
        process_all-Unique name config c.turns quiet 0
          (map (stamp c.claim_token c.claimed_at) (rows c))
          (save_claims c.claim_token c.claimed_at (rows c) table)
          (Unique-save_claims c.claim_token c.claimed_at (rows c) table unique))
  ]
