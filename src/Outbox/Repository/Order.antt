-- ===== src/Outbox/Repository/Order.antt =====
-- The claim takes the oldest due rows.
use mathlib.Core.List.{Perm}
use mathlib.Core.List.Perm
use iveri_nest_sdk.Common.{
  ℕ, zero, suc, ◌≡◌, ◌⊎◌, inl, inr, refl, ap, arith, Bool, true, false, not, ◌&&◌, ltb, ◌<◌, ◌≤◌,
  none, some, List, [], ◌∷◌, ◌++◌, take, drop, select, length, take-drop, All, All-mono, Bool-cases,
}
use iveri_nest_sdk.Outbox.Event.{OutboxEvent, Table}
use iveri_nest_sdk.Outbox.Repository.{
  ClaimInput, is_due, is_before, or_zero, insert_row, order_rows, due_rows,
}

abbrev IsBefore : OutboxEvent → OutboxEvent → Type 0
IsBefore a b = is_before a b ≡ true

IsBefore-total : (a b : OutboxEvent) → is_before a b ≡ false → IsBefore b a
unfolding is_before
IsBefore-total a b h = ground (arith, h)

IsBefore-trans : (a b c : OutboxEvent) → IsBefore a b → IsBefore b c → IsBefore a c
unfolding is_before
IsBefore-trans a b c h k = ground (arith, h, k)

abbrev IsOrdered : List OutboxEvent → Type 0
IsOrdered [] = Unit
IsOrdered (a ∷ rows) = All (IsBefore a) rows × IsOrdered rows

All-insert_row :
    (P : OutboxEvent → Type 0) (a : OutboxEvent) (rows : List OutboxEvent)
    → P a
    → All P rows
    → All P (insert_row a rows)
unfolding insert_row
All-insert_row P a [] p h = (p, tt)
All-insert_row P a (b ∷ rows) p h = elim (Bool-cases (is_before a b)) [
  | inl e ↦ rw e (p, h)
  | inr e ↦ rw e (h.0, All-insert_row P a rows p h.1)
]

insert_row-IsOrdered :
    (a : OutboxEvent) (rows : List OutboxEvent) → IsOrdered rows → IsOrdered (insert_row a rows)
unfolding insert_row
insert_row-IsOrdered a [] h = (tt, tt)
insert_row-IsOrdered a (b ∷ rows) h = elim (Bool-cases (is_before a b)) [
  | inl e ↦ rw e ((e, All-mono _ _ rows (λ c k. IsBefore-trans a b c e k) h.0), h)
  | inr e ↦ rw e (
    All-insert_row (IsBefore b) a rows (IsBefore-total a b e) h.0,
    insert_row-IsOrdered a rows h.1,
  )
]

order_rows-IsOrdered : (rows : List OutboxEvent) → IsOrdered (order_rows rows)
unfolding order_rows
order_rows-IsOrdered [] = tt
order_rows-IsOrdered (a ∷ rows) =
    insert_row-IsOrdered a (order_rows rows) (order_rows-IsOrdered rows)

insert_row-perm : (a : OutboxEvent) (rows : List OutboxEvent) → Perm (insert_row a rows) (a ∷ rows)
unfolding insert_row
insert_row-perm a [] = Perm.rfl
insert_row-perm a (b ∷ rows) = elim (Bool-cases (is_before a b)) [
  | inl e ↦ rw e Perm.rfl
  | inr e ↦ rw e (Perm.trans (Perm.cons b (insert_row-perm a rows)) (Perm.swap a b rows))
]

order_rows-perm : (rows : List OutboxEvent) → Perm (order_rows rows) rows
unfolding order_rows
order_rows-perm [] = Perm.rfl
order_rows-perm (a ∷ rows) =
    Perm.trans (insert_row-perm a (order_rows rows)) (Perm.cons a (order_rows-perm rows))

All-drop :
    (P : OutboxEvent → Type 0) (n : ℕ) (rows : List OutboxEvent) → All P rows → All P (drop n rows)
All-drop P zero rows h = h
All-drop P (suc n) [] h = tt
All-drop P (suc n) (a ∷ rows) h = All-drop P n rows h.1

take-IsBefore-drop :
    (n : ℕ) (rows : List OutboxEvent)
    → IsOrdered rows
    → All (λ a. All (IsBefore a) (drop n rows)) (take n rows)
take-IsBefore-drop zero rows h = tt
take-IsBefore-drop (suc n) [] h = tt
take-IsBefore-drop (suc n) (a ∷ rows) h =
    (All-drop (IsBefore a) n rows h.0, take-IsBefore-drop n rows h.1)

take-full : (n : ℕ) (rows : List OutboxEvent) → (drop n rows ≡ []) ⊎ (length (take n rows) ≡ n)
take-full zero rows = inr refl
take-full (suc n) [] = inl refl
take-full (suc n) (a ∷ rows) = elim (take-full n rows) [
  | inl none_left ↦ inl none_left
  | inr full ↦ inr (ap suc full)
]

abbrev attempt_at : OutboxEvent → ℕ
attempt_at row = elim row.next_attempt_at [ none ↦ 0 | some t ↦ t ]

-- Sooner due, or due at the same instant and not created later.
abbrev IsNoLater : OutboxEvent → OutboxEvent → Type 0
IsNoLater a b =
    (attempt_at a < attempt_at b) ⊎ ((attempt_at a ≡ attempt_at b) × (a.created_at ≤ b.created_at))

IsBefore-IsNoLater : (a b : OutboxEvent) → IsBefore a b → IsNoLater a b
unfolding is_before
IsBefore-IsNoLater a b h =
    elim (Bool-cases (ltb (or_zero a.next_attempt_at) (or_zero b.next_attempt_at))) [
      | inl sooner ↦ inl (ground (arith, sooner))
      | inr not_sooner ↦ inr (ground (arith, h, not_sooner), ground (arith, h, not_sooner))
    ]

-- `rows` are `n` earliest of the candidates, or all of them, and `left` are the others.
pub record IsEarliest (n : ℕ) (candidates rows left : List OutboxEvent) : Type 0 where
  pub all : Perm (rows ++ left) candidates
  pub earlier : All (λ a. All (IsNoLater a) left) rows
  pub full : (left ≡ []) ⊎ (length rows ≡ n)

-- The rows that may be claimed: due, and not locked by another transaction.
abbrev pub candidates : ClaimInput → ℕ → (OutboxEvent → Bool) → Table → List OutboxEvent
candidates dto now is_locked table =
    select (λ e. is_due dto.claim_timeout_ms now e && not (is_locked e)) table

-- A claim takes the oldest: the due rows that no other transaction has locked are, but for their
-- order, those that it takes and those that it leaves; none that it leaves is due sooner than one that it
-- takes, or at the same instant and created sooner; and it leaves none unless it takes as many as the batch size allows.
pub due_rows-IsEarliest :
    (dto : ClaimInput) (now : ℕ) (is_locked : OutboxEvent → Bool) (table : Table)
    → (left : List OutboxEvent) × IsEarliest dto.batch_size
        (candidates dto now is_locked table)
        (due_rows dto now is_locked table)
        left
unfolding due_rows
due_rows-IsEarliest dto now is_locked table =
    let rows = order_rows (candidates dto now is_locked table) in
    (
      drop dto.batch_size rows,
      record {
        all =
            rw (take-drop dto.batch_size rows)
              (order_rows-perm (candidates dto now is_locked table));
        earlier =
            All-mono _ _ (take dto.batch_size rows)
              (λ a h. All-mono _ _ (drop dto.batch_size rows) (IsBefore-IsNoLater a) h)
              (take-IsBefore-drop dto.batch_size rows
                (order_rows-IsOrdered (candidates dto now is_locked table)));
        full = take-full dto.batch_size rows;
      },
    )
