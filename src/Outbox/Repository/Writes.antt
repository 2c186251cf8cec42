-- ===== src/Outbox/Repository/Writes.antt =====
-- What one write does to each row of a table.
use iveri_nest_sdk.Common.{ℕ, ◌≡◌, inl, inr, true, false, List, [], ◌∷◌, All, Bool-cases}
use iveri_nest_sdk.Outbox.Event.{OutboxEvent, Table, Claim}
use iveri_nest_sdk.Outbox.Repository.{has_id, stamp, save_claims, is_claimed, update_rows}

module _ (P Q : OutboxEvent → Type 0) where
  -- A property of each row after a terminal write, from those of each row before it.
  pub All-update_rows :
      (claim : Claim) (patch : OutboxEvent → OutboxEvent) (table : Table)
      → ((row : OutboxEvent) → P row → is_claimed claim row ≡ true → Q (patch row))
      → ((row : OutboxEvent) → P row → is_claimed claim row ≡ false → Q row)
      → All P table
      → All Q (update_rows claim patch table)
  unfolding update_rows
  All-update_rows claim patch [] hit miss h = tt
  All-update_rows claim patch (row ∷ table) hit miss h = elim (Bool-cases (is_claimed claim row)) [
    | inl yes_claimed ↦
        rw yes_claimed (hit row h.0 yes_claimed, All-update_rows claim patch table hit miss h.1)
    | inr not_claimed ↦
        rw not_claimed (miss row h.0 not_claimed, All-update_rows claim patch table hit miss h.1)
  ]

  -- The same after the save of a claim.
  pub All-save_claims :
      (claim_token claimed_at : ℕ) (rows : List OutboxEvent) (table : Table)
      → ((row : OutboxEvent)
          → P row
          → has_id row.id rows ≡ true
          → Q (stamp claim_token claimed_at row))
      → ((row : OutboxEvent) → P row → has_id row.id rows ≡ false → Q row)
      → All P table
      → All Q (save_claims claim_token claimed_at rows table)
  unfolding save_claims
  All-save_claims token at rows [] hit miss h = tt
  All-save_claims token at rows (row ∷ table) hit miss h = elim (Bool-cases (has_id row.id rows)) [
    | inl taken ↦ rw taken (hit row h.0 taken, All-save_claims token at rows table hit miss h.1)
    | inr left ↦ rw left (miss row h.0 left, All-save_claims token at rows table hit miss h.1)
  ]
