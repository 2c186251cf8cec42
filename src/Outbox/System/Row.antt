-- ===== src/Outbox/System/Row.antt =====
-- One row as an abstract machine of four states, and the system as steps of it:
-- src/outbox/outbox-event-status.enum.ts, through the writes of outbox-event.repository.ts.
use iveri_nest_sdk.Common.{
  ℕ, ◌+◌, ◌<◌, ◌≡◌, ◌≢◌, inl, inr, refl, ap, sym, Bool, true, false, some, List, [], ◌∷◌, ◌++◌, map,
  arith, All, All-both, All-remove, Bool-cases, ◌==◌, if◌then◌else◌,
}
use iveri_nest_sdk.Common.Text.{Text}
use iveri_nest_sdk.Outbox.Event.{
  OutboxEvent, Table, pending, processing, published, dead_letter, Claim,
}
use iveri_nest_sdk.Outbox.Repository.{
  ClaimInput, claim_due_batch, due_rows, has_id, save_claims, stamp, is_due, is_claimed,
  update_rows, published_patch, failure_patch,
}
use iveri_nest_sdk.Outbox.Repository.Identity.{find_row}
use iveri_nest_sdk.Outbox.Processor.{
  OutboxProcessorConfig, Attempt, Thrown, process, claim_of, failure_of,
}
use iveri_nest_sdk.Outbox.System.{
  System, start_system, Step, enqueue, claim, terminal, crash, Reach,
}
use iveri_nest_sdk.Outbox.System.Invariant.{IsHeld, IsSound, IsOpen, is_claimed-current}
use iveri_nest_sdk.Outbox.System.Terminal.{IsPatch, process_effect, patch_keeps, failure_bounds}
use iveri_nest_sdk.Outbox.System.Claiming.{stamped_due}
use iveri_nest_sdk.Outbox.System.Safety.{IsConsistentSystem, reachable-IsConsistent}
use iveri_nest_sdk.Outbox.System.Finality.{enqueue_final}

-- What one step may make of the row `r`.
pub data RowStep (max_attempts : ℕ) (r u : OutboxEvent) : Type 0 where
  kept : u ≡ r → RowStep max_attempts r u
  taken :
      IsOpen r.status
      → u.status ≡ processing
      → u.attempt_count ≡ r.attempt_count
      → RowStep max_attempts r u
  sent :
      r.status ≡ processing
      → u.status ≡ published
      → u.attempt_count ≡ r.attempt_count
      → RowStep max_attempts r u
  retried :
      r.status ≡ processing
      → u.status ≡ pending
      → u.attempt_count ≡ r.attempt_count + 1
      → u.attempt_count < max_attempts
      → RowStep max_attempts r u
  buried :
      r.status ≡ processing
      → u.status ≡ dead_letter
      → u.attempt_count ≡ r.attempt_count + 1
      → RowStep max_attempts r u

-- A write that changes rows one by one and keeps their ids.
pub find_row-map :
    (f : OutboxEvent → OutboxEvent) (i : ℕ) (r : OutboxEvent) (table : Table)
    → ((row : OutboxEvent) → (f row).id ≡ row.id)
    → find_row i table ≡ some r
    → find_row i (map f table) ≡ some (f r)
find_row-map f i r [] same e = absurd (cc)
find_row-map f i r (row ∷ table) same e = ground (arith, e, same row, find_row-map f i r table same)

pub All-find_row :
    (P : OutboxEvent → Type 0) (i : ℕ) (r : OutboxEvent) (table : Table)
    → All P table
    → find_row i table ≡ some r
    → P r
All-find_row P i r [] h e = absurd (cc)
All-find_row P i r (row ∷ table) h e = elim (Bool-cases (row.id == i)) [
  | inl found ↦ let same : row ≡ r = ground (arith, found, e) in rw (← same) h.0
  | inr other ↦ All-find_row P i r table h.1 (ground (arith, other, e))
]

abbrev pub patch_if : Claim → (OutboxEvent → OutboxEvent) → OutboxEvent → OutboxEvent
patch_if c patch row = if is_claimed c row then patch row else row

pub patch_if-id :
    (c : Claim) (patch : OutboxEvent → OutboxEvent)
    → ((row : OutboxEvent) → (patch row).id ≡ row.id)
    → (row : OutboxEvent) → (patch_if c patch row).id ≡ row.id
patch_if-id c patch same row = ground (arith, same row)

pub update_rows-eq-map :
    (c : Claim) (patch : OutboxEvent → OutboxEvent) (table : Table)
    → update_rows c patch table ≡ map (patch_if c patch) table
unfolding update_rows
update_rows-eq-map c patch [] = refl
update_rows-eq-map c patch (row ∷ table) =
    ap (λ rest. patch_if c patch row ∷ rest) (update_rows-eq-map c patch table)

abbrev pub stamp_if : ℕ → ℕ → List OutboxEvent → OutboxEvent → OutboxEvent
stamp_if token at rows row = if has_id row.id rows then stamp token at row else row

pub stamp_if-id :
    (token at : ℕ) (rows : List OutboxEvent) (row : OutboxEvent)
    → (stamp_if token at rows row).id ≡ row.id
unfolding stamp
stamp_if-id token at rows row = ground arith

pub save_claims-eq-map :
    (token at : ℕ) (rows : List OutboxEvent) (table : Table)
    → save_claims token at rows table ≡ map (stamp_if token at rows) table
unfolding save_claims
save_claims-eq-map token at rows [] = refl
save_claims-eq-map token at rows (row ∷ table) =
    ap (λ rest. stamp_if token at rows row ∷ rest) (save_claims-eq-map token at rows table)

-- The row of an id after a step, and how it came about.
abbrev pub Follows : ℕ → ℕ → OutboxEvent → Table → Type 0
Follows max_attempts i r table =
    (u : OutboxEvent) × (find_row i table ≡ some u) × RowStep max_attempts r u

module _ (name : Text) (config : OutboxProcessorConfig) (event : OutboxEvent) where
  failed-RowStep :
      (row : OutboxEvent) (w : Attempt) (error : Thrown)
      → row ≡ event
      → row.status ≡ processing
      → row.attempt_count < config.max_attempts
      → RowStep config.max_attempts row (failure_patch (failure_of name config w event error) row)
  unfolding failure_patch failure_of
  failed-RowStep row w error same busy left =
      let f = failure_of name config w event error in
      let count : event.attempt_count ≡ row.attempt_count = ap (λ e. e.attempt_count) (sym same) in
      elim (Bool-cases f.is_dead_letter) [
        | inl dead ↦ buried busy (ground (arith, dead)) (rw count)
        | inr alive ↦
            retried busy (ground (arith, alive)) (rw count)
              (ground (arith, (failure_bounds name config event w error (omega arith)).1 alive))
      ]

  patched-RowStep :
      (issued : List ℕ) (patch : OutboxEvent → OutboxEvent) (row : OutboxEvent)
      → IsPatch name config event patch
      → event.status ≡ processing
      → row ≡ event
      → IsSound config.max_attempts issued row
      → RowStep config.max_attempts row (patch row)
  unfolding published_patch
  patched-RowStep issued patch row (inl (now, e)) busy same h = rw e (sent (rw same busy) refl refl)
  patched-RowStep issued patch row (inr (w, error, e)) busy same h =
      let row_busy : row.status ≡ processing = rw same busy in
      rw e (failed-RowStep row w error same row_busy (h.attempts_left (inr row_busy)))

  written-RowStep :
      (issued : List ℕ) (t : ℕ) (patch : OutboxEvent → OutboxEvent) (row : OutboxEvent)
      → IsPatch name config event patch
      → event.status ≡ processing
      → (is_claimed (claim_of event t) row ≡ true → row ≡ event)
      → IsSound config.max_attempts issued row
      → RowStep config.max_attempts row (patch_if (claim_of event t) patch row)
  written-RowStep issued t patch row isp busy current h =
      elim (Bool-cases (is_claimed (claim_of event t) row)) [
        | inl met ↦ rw met (patched-RowStep issued patch row isp busy (current met) h)
        | inr missed ↦ rw missed (kept refl)
      ]

module _ (name : Text) (config : OutboxProcessorConfig) (s : System) (i : ℕ) (r : OutboxEvent)
    (h : IsConsistentSystem config s) (found : find_row i s.table ≡ some r) where
  terminal-Follows :
      (w : Attempt) (event : OutboxEvent)
      → IsHeld s.table s.issued event
      → Follows config.max_attempts i r (process name config w event s.table).table
  terminal-Follows w event held = elim (process_effect name config w event s.table) [
    | inl same ↦ rw same (r, found, kept refl)
    | inr (t, patch, et, busy, isp, written) ↦
        let current = is_claimed-current s.table event t et held.current in
        let c = claim_of event t in
        let at =
          All-find_row
            (λ row.
              IsSound config.max_attempts s.issued row × (is_claimed c row ≡ true → row ≡ event))
            i r s.table (All-both _ _ s.table h.sound current) found in
        rw (written, update_rows-eq-map c patch s.table)
          (
            patch_if c patch r,
            find_row-map (patch_if c patch) i r s.table
                (patch_if-id c patch (patch_keeps name config event patch isp).0) found,
            written-RowStep name config event s.issued t patch r isp busy at.1 at.0,
          )
  ]

  stamp_if-RowStep :
      (token at timeout now : ℕ) (rows : List OutboxEvent)
      → (has_id r.id rows ≡ true → is_due timeout now r ≡ true)
      → RowStep config.max_attempts r (stamp_if token at rows r)
  unfolding stamp is_due
  stamp_if-RowStep token at timeout now rows due = elim (Bool-cases (has_id r.id rows)) [
    | inl met ↦ rw met (taken (ground (arith, due met)) refl refl)
    | inr missed ↦ rw missed (kept refl)
  ]

  claim-Follows :
      (dto : ClaimInput) (now claimed_at token : ℕ) (is_locked : OutboxEvent → Bool)
      → All (λ t. t ≢ token) s.issued
      → Follows config.max_attempts i r
          (claim_due_batch dto now claimed_at token is_locked s.table).0
  unfolding claim_due_batch
  claim-Follows dto now claimed_at token is_locked fresh =
      let rows = due_rows dto now is_locked s.table in
      let due =
        stamped_due config.max_attempts s.issued s.table s.held dto now claimed_at token is_locked h
          fresh in
      rw (save_claims-eq-map token claimed_at rows s.table) (
        stamp_if token claimed_at rows r,
        find_row-map (stamp_if token claimed_at rows) i r s.table
            (stamp_if-id token claimed_at rows) found,
        stamp_if-RowStep token claimed_at dto.claim_timeout_ms now rows (
            All-find_row
              (λ row. has_id row.id rows ≡ true → is_due dto.claim_timeout_ms now row ≡ true) i r
              s.table due found),
      )

  enqueue-Follows :
      (row : OutboxEvent)
      → has_id row.id s.table ≡ false
      → Follows config.max_attempts i r (row ∷ s.table)
  enqueue-Follows row fresh = (r, enqueue_final s.table row i r fresh found, kept refl)

  Step-Follows : (u : System) → Step name config s u → Follows config.max_attempts i r u.table
  Step-Follows u (enqueue row new e) = rw e (enqueue-Follows row new.fresh)
  Step-Follows u (claim dto now claimed_at token is_locked fresh e) =
      rw e (claim-Follows dto now claimed_at token is_locked fresh)
  Step-Follows u (terminal w before event rest e e') =
      let held : All (IsHeld s.table s.issued) (before ++ (event ∷ rest)) = rw (← e) h.held in
      let (one, others) = All-remove (IsHeld s.table s.issued) before event rest held in
      rw e' (terminal-Follows w event one)
  Step-Follows u (crash before event rest e e') = rw e' (r, found, kept refl)

-- The system refines the machine of one row. From every state that is reached from an empty table
-- with at least one attempt allowed, whichever processor takes whichever step, a row of the table is
-- in the table after the step, and the step either left it as it is, took it from pending or
-- processing into processing, published it out of processing, returned it from processing to pending
-- with one more attempt made and one left, or dead-lettered it out of processing with one more made.
pub Step-RowStep :
    (name : Text) (config : OutboxProcessorConfig) {s u : System} (i : ℕ) (r : OutboxEvent)
    → 0 < config.max_attempts
    → Reach name config start_system s
    → Step name config s u
    → find_row i s.table ≡ some r
    → (r' : OutboxEvent) × (find_row i u.table ≡ some r') × RowStep config.max_attempts r r'
Step-RowStep name config {s} {u} i r some_attempts reach step found =
    Step-Follows name config s i r (reachable-IsConsistent name config some_attempts reach) found u
      step
