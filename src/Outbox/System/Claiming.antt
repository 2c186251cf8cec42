-- ===== src/Outbox/System/Claiming.antt =====
-- A claim keeps the invariant.
use iveri_nest_sdk.Common.{
  ℕ, ◌≡◌, ◌≢◌, inl, inr, refl, sym, Bool, true, some, List, [], ◌∷◌, ◌++◌, map, arith, All,
  All-mono, All-append, All-both, All-swap, All-map, Bool-cases, ◌==◌,
}
use iveri_nest_sdk.Outbox.Event.{OutboxEvent, Table}
use iveri_nest_sdk.Outbox.Repository.{
  ClaimInput, claim_due_batch, due_rows, has_id, stamp, save_claims, is_due,
}
use iveri_nest_sdk.Outbox.Repository.Writes.{All-save_claims}
use iveri_nest_sdk.Outbox.Repository.Identity.{
  IsOnly, Unique-IsOnly, All-due_rows, Unique-save_claims, due_rows-due,
}
use iveri_nest_sdk.Outbox.System.Invariant.{IsConsistent, IsSound, IsHeld, Has, IsOpen}

-- A row whose id was claimed is a row that was claimed.
taken :
    (Q : OutboxEvent → Type 0) (row : OutboxEvent) (rows : List OutboxEvent)
    → All (λ r. (row.id ≡ r.id → row ≡ r) × Q r) rows
    → has_id row.id rows ≡ true
    → Q row
taken Q row [] h k = absurd (cc)
taken Q row (r ∷ rows) h k = elim (Bool-cases (r.id == row.id)) [
  | inl same ↦ let e = h.0.0 (ground arith) in rw e h.0.1
  | inr other ↦ taken Q row rows h.1 (ground arith)
]

Has-cons : (t i : ℕ) (ts : List ℕ) → Has t ts → Has t (i ∷ ts)
Has-cons t i ts h k = h k.1

Has-head : (t : ℕ) (ts : List ℕ) → Has t (t ∷ ts)
Has-head t ts k = k.0 refl

module _ (max_attempts : ℕ) (issued : List ℕ) (table : Table) (held : List OutboxEvent)
    (dto : ClaimInput) (now claimed_at token : ℕ) (is_locked : OutboxEvent → Bool)
    (h : IsConsistent max_attempts table held issued) (fresh : All (λ t. t ≢ token) issued) where
  abbrev pub rows : List OutboxEvent
  rows = due_rows dto now is_locked table

  abbrev table' : Table
  table' = save_claims token claimed_at rows table

  fresh_token : (t : ℕ) → Has t issued → t ≢ token
  fresh_token t old e = old (rw e fresh)

  only : All (IsOnly table) rows
  only = All-due_rows (IsOnly table) dto now is_locked table (Unique-IsOnly table h.unique)

  -- Each row of the table that gets the stamp was due.
  pub stamped_due :
      All (λ row. has_id row.id rows ≡ true → is_due dto.claim_timeout_ms now row ≡ true) table
  stamped_due =
      let due = due_rows-due dto now is_locked table in
      All-mono _ _ table (λ row k. taken (λ r. is_due dto.claim_timeout_ms now r ≡ true) row rows k)
        (All-swap (λ r row. (row.id ≡ r.id → row ≡ r) × (is_due dto.claim_timeout_ms now r ≡ true))
          rows table
          (All-mono _ _ rows (λ r k. All-mono _ _ table (λ row s. (s, k.1.0)) k.0)
            (All-both _ _ rows only due)))

  due-IsOpen : (row : OutboxEvent) → is_due dto.claim_timeout_ms now row ≡ true → IsOpen row.status
  unfolding is_due
  due-IsOpen row due = ground arith

  stamp-IsSound :
      (row : OutboxEvent)
      → is_due dto.claim_timeout_ms now row ≡ true
      → IsSound max_attempts issued row
      → IsSound max_attempts (token ∷ issued) (stamp token claimed_at row)
  unfolding stamp
  stamp-IsSound row due k = record {
    attempts_left = λ o. k.attempts_left (due-IsOpen row due);
    attempts_bounded = k.attempts_bounded;
    leased = λ t e. refl;
    token_issued = λ t e. let same : token ≡ t = cc in rw same (Has-head t issued);
  }

  keep-IsSound :
      (row : OutboxEvent)
      → IsSound max_attempts issued row
      → IsSound max_attempts (token ∷ issued) row
  keep-IsSound row k = record {
    attempts_left = k.attempts_left;
    attempts_bounded = k.attempts_bounded;
    leased = k.leased;
    token_issued = λ t e. Has-cons t token issued (k.token_issued t e);
  }

  sound' : All (IsSound max_attempts (token ∷ issued)) table'
  sound' =
      All-save_claims
        (λ row.
          IsSound max_attempts issued row
          × (has_id row.id rows ≡ true → is_due dto.claim_timeout_ms now row ≡ true))
        (IsSound max_attempts (token ∷ issued)) token claimed_at rows table
        (λ row k c. stamp-IsSound row (k.1 c) k.0) (λ row k c. keep-IsSound row k.0)
        (All-both _ _ table h.sound stamped_due)

  -- An older attempt: its token is not the fresh one.
  stamp-old :
      (e : OutboxEvent) (t : ℕ) (row : OutboxEvent)
      → t ≢ token
      → (stamp token claimed_at row).id ≡ e.id
      → (stamp token claimed_at row).claim_token ≡ some t
      → stamp token claimed_at row ≡ e
  unfolding stamp
  stamp-old e t row ne same_id same_token = let same : token ≡ t = cc in absurd (ne (sym same))

  old-IsHeld : (e : OutboxEvent) → IsHeld table issued e → IsHeld table' (token ∷ issued) e
  old-IsHeld e k = record {
    issued_token = λ t et. Has-cons t token issued (k.issued_token t et);
    current = λ t et.
        All-save_claims (λ row. row.id ≡ e.id → row.claim_token ≡ some t → row ≡ e)
          (λ row. row.id ≡ e.id → row.claim_token ≡ some t → row ≡ e) token claimed_at rows table
          (λ row s c. stamp-old e t row (fresh_token t (k.issued_token t et))) (λ row s c. s)
          (k.current t et);
  }

  stamped_token :
      (r : OutboxEvent) (t : ℕ)
      → (stamp token claimed_at r).claim_token ≡ some t
      → Has t (token ∷ issued)
  unfolding stamp
  stamped_token r t e = let same : token ≡ t = cc in rw same (Has-head t issued)

  -- The attempt that the claim starts on the row `r`.
  stamp-new :
      (r : OutboxEvent) (t : ℕ) (row : OutboxEvent)
      → (row.id ≡ r.id → row ≡ r)
      → (stamp token claimed_at row).id ≡ (stamp token claimed_at r).id
      → stamp token claimed_at row ≡ stamp token claimed_at r
  unfolding stamp
  stamp-new r t row s same_id = let same = s same_id in rw same

  unstamped :
      (r : OutboxEvent) (t : ℕ) (row : OutboxEvent)
      → IsSound max_attempts issued row
      → (stamp token claimed_at r).claim_token ≡ some t
      → row.claim_token ≡ some t
      → row ≡ stamp token claimed_at r
  unfolding stamp
  unstamped r t row k same_token row_token =
      absurd (fresh_token t (k.token_issued t row_token) (cc))

  new-IsHeld :
      (r : OutboxEvent) → IsOnly table r → IsHeld table' (token ∷ issued) (stamp token claimed_at r)
  new-IsHeld r s = record {
    issued_token = λ t et. stamped_token r t et;
    current = λ t et.
        All-save_claims (λ row. (row.id ≡ r.id → row ≡ r) × IsSound max_attempts issued row)
          (λ row.
            row.id ≡ (stamp token claimed_at r).id
            → row.claim_token ≡ some t
            → row ≡ stamp token claimed_at r)
          token claimed_at rows table (λ row k c same_id _. stamp-new r t row k.0 same_id)
          (λ row k c same_id row_token. unstamped r t row k.1 et row_token)
          (All-both _ _ table s h.sound);
  }

  -- The state after a claim.
  pub claim_keeps :
      IsConsistent max_attempts
        (claim_due_batch dto now claimed_at token is_locked table).0
        (held ++ (claim_due_batch dto now claimed_at token is_locked table).1)
        (token ∷ issued)
  unfolding claim_due_batch
  claim_keeps = record {
    unique = Unique-save_claims token claimed_at rows table h.unique;
    sound = sound';
    held =
        All-append (IsHeld table' (token ∷ issued)) held (map (stamp token claimed_at) rows)
          (All-mono _ _ held old-IsHeld h.held)
          (All-map (IsHeld table' (token ∷ issued)) (stamp token claimed_at) rows
            (All-mono _ _ rows new-IsHeld only));
  }
