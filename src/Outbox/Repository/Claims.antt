-- ===== src/Outbox/Repository/Claims.antt =====
-- What a claim hands out, and what a terminal write reports.
use iveri_nest_sdk.Common.{
  ℕ, ◌+◌, ◌≤◌, ◌≡◌, refl, Bool, true, false, List, [], ◌∷◌, map, arith, All, All-mono, All-both,
  All-map, All-of_All, length,
}
use iveri_nest_sdk.Outbox.Event.{OutboxEvent, Table}
use iveri_nest_sdk.Outbox.Repository.{
  ClaimInput, claim_due_batch, due_rows, has_id, stamp, save_claims, is_due,
}
use iveri_nest_sdk.Outbox.Repository.Writes.{All-save_claims}
use iveri_nest_sdk.Outbox.Repository.Identity.{All-due_rows, due_rows-due, due_rows-length}

has_id-map-stamp :
    (token at i : ℕ) (rows : List OutboxEvent)
    → has_id i (map (stamp token at) rows) ≡ has_id i rows
unfolding stamp
has_id-map-stamp token at i [] = refl
has_id-map-stamp token at i (r ∷ rows) = ground (arith, has_id-map-stamp token at i rows)

length-map-stamp :
    (token at : ℕ) (rows : List OutboxEvent) → length (map (stamp token at) rows) ≡ length rows
length-map-stamp token at [] = refl
length-map-stamp token at (r ∷ rows) = omega (arith, length-map-stamp token at rows)

-- A claim hands out at most `batch_size` rows, each stamped from a row that was due and that no
-- other transaction had locked.
claim_due_batch-rows :
    (dto : ClaimInput) (now claimed_at token : ℕ) (is_locked : OutboxEvent → Bool) (table : Table)
    → (length (claim_due_batch dto now claimed_at token is_locked table).1 ≤ dto.batch_size)
      × All
          (λ e.
            (r : OutboxEvent) × (e ≡ stamp token claimed_at r)
            × (is_due dto.claim_timeout_ms now r ≡ true)
            × (is_locked r ≡ false))
          (claim_due_batch dto now claimed_at token is_locked table).1
unfolding claim_due_batch
claim_due_batch-rows dto now claimed_at token is_locked table =
    let rows = due_rows dto now is_locked table in
    (
      rw length-map-stamp (due_rows-length dto now is_locked table),
      All-map _ (stamp token claimed_at) rows
          (All-mono _ _ rows (λ r k. (r, refl, k.0, k.1)) (due_rows-due dto now is_locked table)),
    )

-- A row that a claim stamped is not due again until its lease times out.
stamp-not-due :
    (token at timeout now : ℕ) (row : OutboxEvent)
    → now ≤ at + timeout
    → is_due timeout now (stamp token at row) ≡ false
unfolding stamp is_due
stamp-not-due token at timeout now row early = ground arith

-- Two claims in turn take disjoint rows until the first one's leases time out: a claim at an
-- instant at most `claim_timeout_ms` after the first one's stamp gets none of its rows, whatever
-- it finds locked.
pub claims_disjoint :
    (dto dto' : ClaimInput) (now claimed_at token : ℕ) (is_locked : OutboxEvent → Bool)
    (now' claimed_at' token' : ℕ) (is_locked' : OutboxEvent → Bool) (table : Table)
    → now' ≤ claimed_at + dto'.claim_timeout_ms
    → All
        (λ e. has_id e.id (claim_due_batch dto now claimed_at token is_locked table).1 ≡ false)
        (claim_due_batch dto' now' claimed_at' token' is_locked'
          (claim_due_batch dto now claimed_at token is_locked table).0).1
unfolding claim_due_batch
claims_disjoint dto dto' now at token locked now' at' token' locked' table early =
    let rows = due_rows dto now locked table in
    let table' = save_claims token at rows table in
    let again =
      All-save_claims (λ row. Unit {0})
        (λ row. is_due dto'.claim_timeout_ms now' row ≡ true → has_id row.id rows ≡ false) token at
        rows table
        (λ row _ c due.
          absurd (cc (due, stamp-not-due token at dto'.claim_timeout_ms now' row early)))
        (λ row _ c due. c) (All-of_All _ table (λ row. tt)) in
    All-map _ (stamp token' at') (due_rows dto' now' locked' table') (
      All-mono _ _ (due_rows dto' now' locked' table')
        (λ r k. rw has_id-map-stamp (unfold stamp in k.0 k.1.0))
        (All-both _ _ (due_rows dto' now' locked' table')
          (All-due_rows _ dto' now' locked' table' again) (due_rows-due dto' now' locked' table')))
