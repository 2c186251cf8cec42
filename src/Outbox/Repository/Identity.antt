-- ===== src/Outbox/Repository/Identity.antt =====
-- Rows of distinct ids, and what a claim's SELECT returns of them.
use iveri_nest_sdk.Common.{
  ℕ, ◌≤◌, ◌≡◌, ◌≢◌, refl, sym, Bool, true, false, ◌&&◌, not, Option, none, some, List, [], ◌∷◌, inl,
  inr, arith, All, All-mono, All-take, length, length-take-le, Bool-cases, select, ◌==◌,
  if◌then◌else◌,
}
use iveri_nest_sdk.Outbox.Event.{OutboxEvent, Table, Claim}
use iveri_nest_sdk.Outbox.Repository.{
  has_id, save_claims, update_rows, is_due, due_rows, ClaimInput, is_before, insert_row, order_rows,
}

abbrev pub Unique : Table → Type 0
Unique [] = Unit
Unique (row ∷ table) = (has_id row.id table ≡ false) × Unique table

abbrev pub find_row : ℕ → Table → Option OutboxEvent
find_row i [] = none
find_row i (row ∷ table) = if row.id == i then some row else find_row i table

-- Same id, same row.
abbrev pub IsOnly : Table → OutboxEvent → Type 0
IsOnly table r = All (λ row. row.id ≡ r.id → row ≡ r) table

others_differ : (i : ℕ) (table : Table) → has_id i table ≡ false → All (λ row. row.id ≢ i) table
others_differ i [] h = tt
others_differ i (row ∷ table) h = (λ e. ground arith, others_differ i table (ground arith))

IsOnly-of_fresh : (r : OutboxEvent) (table : Table) → has_id r.id table ≡ false → IsOnly table r
IsOnly-of_fresh r table h =
    All-mono (λ row. row.id ≢ r.id) (λ row. row.id ≡ r.id → row ≡ r) table
      (λ row ne e. absurd (ne e)) (others_differ r.id table h)

IsOnly-cons :
    (r : OutboxEvent) (table rows : Table)
    → All (λ row. row.id ≢ r.id) rows
    → All (IsOnly table) rows
    → All (IsOnly (r ∷ table)) rows
IsOnly-cons r table [] ne only = tt
IsOnly-cons r table (row ∷ rows) ne only =
    (((λ e. absurd (ne.0 (sym e))), only.0), IsOnly-cons r table rows ne.1 only.1)

pub Unique-IsOnly : (table : Table) → Unique table → All (IsOnly table) table
Unique-IsOnly [] h = tt
Unique-IsOnly (r ∷ table) h = (
  ((λ e. refl), IsOnly-of_fresh r table h.0),
  IsOnly-cons r table table (others_differ r.id table h.0) (Unique-IsOnly table h.1),
)

module _ (P : OutboxEvent → Type 0) where
  All-select : (p : OutboxEvent → Bool) (rows : Table) → All P rows → All P (select p rows)
  All-select p [] h = tt
  All-select p (r ∷ rows) h =
      let rest = All-select p rows h.1 in
      elim (Bool-cases (p r)) [ inl e ↦ rw e (h.0, rest) | inr e ↦ rw e rest ]

  All-insert_row : (a : OutboxEvent) (rows : Table) → P a → All P rows → All P (insert_row a rows)
  unfolding insert_row
  All-insert_row a [] p h = (p, tt)
  All-insert_row a (b ∷ rows) p h =
      let rest = All-insert_row a rows p h.1 in
      elim (Bool-cases (is_before a b)) [ inl e ↦ rw e (p, h) | inr e ↦ rw e (h.0, rest) ]

  All-order_rows : (rows : Table) → All P rows → All P (order_rows rows)
  unfolding order_rows
  All-order_rows [] h = tt
  All-order_rows (a ∷ rows) h = All-insert_row a (order_rows rows) h.0 (All-order_rows rows h.1)

  -- What holds of every row of the table holds of every row that a claim selects.
  pub All-due_rows :
      (dto : ClaimInput) (now : ℕ) (is_locked : OutboxEvent → Bool) (table : Table)
      → All P table
      → All P (due_rows dto now is_locked table)
  unfolding due_rows
  All-due_rows dto now is_locked table h =
      All-take P dto.batch_size _ (All-order_rows _ (All-select _ table h))

-- Writes keep the ids.
module _ (claim : Claim) (patch : OutboxEvent → OutboxEvent) where
  has_id-update_rows :
      ((row : OutboxEvent) → (patch row).id ≡ row.id)
      → (i : ℕ) (table : Table) → has_id i (update_rows claim patch table) ≡ has_id i table
  unfolding update_rows
  has_id-update_rows same i [] = refl
  has_id-update_rows same i (row ∷ table) =
      ground (arith, same row, has_id-update_rows same i table)

  pub Unique-update_rows :
      ((row : OutboxEvent) → (patch row).id ≡ row.id)
      → (table : Table) → Unique table
      → Unique (update_rows claim patch table)
  unfolding update_rows
  Unique-update_rows same [] h = tt
  Unique-update_rows same (row ∷ table) h = ground (
    arith,
    same row,
    has_id-update_rows same row.id table,
    has_id-update_rows same (patch row).id table,
    Unique-update_rows same table h.1,
  )

module _ (claim_token claimed_at : ℕ) (rows : List OutboxEvent) where
  has_id-save_claims :
      (i : ℕ) (table : Table)
      → has_id i (save_claims claim_token claimed_at rows table) ≡ has_id i table
  unfolding save_claims
  has_id-save_claims i [] = refl
  has_id-save_claims i (row ∷ table) = ground (arith, has_id-save_claims i table)

  pub Unique-save_claims :
      (table : Table) → Unique table → Unique (save_claims claim_token claimed_at rows table)
  unfolding save_claims
  Unique-save_claims [] h = tt
  Unique-save_claims (row ∷ table) h =
      ground (arith, has_id-save_claims row.id table, Unique-save_claims table h.1)

All-select_own : (p : OutboxEvent → Bool) (rows : Table) → All (λ r. p r ≡ true) (select p rows)
All-select_own p [] = tt
All-select_own p (r ∷ rows) =
    let rest = All-select_own p rows in
    elim (Bool-cases (p r)) [ inl e ↦ rw e (e, rest) | inr e ↦ rw e rest ]

-- Every row that a claim selects is due, and no other transaction has it locked.
pub due_rows-due :
    (dto : ClaimInput) (now : ℕ) (is_locked : OutboxEvent → Bool) (table : Table)
    → All
        (λ r. (is_due dto.claim_timeout_ms now r ≡ true) × (is_locked r ≡ false))
        (due_rows dto now is_locked table)
unfolding due_rows
due_rows-due dto now is_locked table = All-take _ dto.batch_size _ (
    All-order_rows _ _ (
      All-mono _ _ (select (λ e. is_due dto.claim_timeout_ms now e && not (is_locked e)) table)
        (λ r both. (ground arith, ground arith)) (All-select_own _ table)))

pub due_rows-length :
    (dto : ClaimInput) (now : ℕ) (is_locked : OutboxEvent → Bool) (table : Table)
    → length (due_rows dto now is_locked table) ≤ dto.batch_size
unfolding due_rows
due_rows-length dto now is_locked table = length-take-le dto.batch_size _
