-- ===== src/Outbox/Repository/Terminal.antt =====
-- What a terminal write reports and changes.
use iveri_nest_sdk.Common.{
  ◌≡◌, refl, Bool, true, false, none, some, [], ◌∷◌, inl, inr, arith, Bool-cases, length, select,
  ◌==◌,
}
use iveri_nest_sdk.Outbox.Event.{OutboxEvent, Table, Claim}
use iveri_nest_sdk.Outbox.Repository.{has_id, is_claimed, update_rows, update_claimed}
use iveri_nest_sdk.Outbox.Repository.Identity.{Unique, find_row}

-- Whether the row of the claim's id still carries its tenant and its token.
abbrev holds_claim : Claim → Table → Bool
holds_claim claim table = elim (find_row claim.id table) [
  | none ↦ false
  | some row ↦ is_claimed claim row
]

module _ (claim : Claim) (patch : OutboxEvent → OutboxEvent) where
  other_ids :
      (table : Table)
      → has_id claim.id table ≡ false
      → (length (select (is_claimed claim) table) ≡ 0) × (update_rows claim patch table ≡ table)
  unfolding is_claimed update_rows
  other_ids [] h = (refl, refl)
  other_ids (row ∷ table) h = ground (arith, h, other_ids table)

  -- A terminal write reports that it landed exactly if the row of the claim's id still carries the
  -- claim's tenant and token; otherwise it changes no row. Ids are distinct.
  update_claimed_outcome :
      (table : Table)
      → Unique table
      → ((update_claimed claim patch table).1 ≡ holds_claim claim table)
        × ((update_claimed claim patch table).1 ≡ false
            → (update_claimed claim patch table).0 ≡ table)
  unfolding update_claimed
  update_claimed_outcome [] h = (refl, λ e. refl)
  update_claimed_outcome (row ∷ table) h = elim (Bool-cases (row.id == claim.id)) [
    | inl it ↦ let rest = other_ids table in ground (arith, it, h, rest)
    | inr other ↦ ground (arith, other, update_claimed_outcome table h.1)
  ]

  pub find_row-update_self :
      (table : Table) (row : OutboxEvent)
      → ((r : OutboxEvent) → (patch r).id ≡ r.id)
      → find_row claim.id table ≡ some row
      → is_claimed claim row ≡ true
      → find_row claim.id (update_rows claim patch table) ≡ some (patch row)
  unfolding update_rows
  find_row-update_self [] row same e c = absurd (cc)
  find_row-update_self (r ∷ table) row same e c =
      ground (arith, e, c, same r, same row, find_row-update_self table row same)
