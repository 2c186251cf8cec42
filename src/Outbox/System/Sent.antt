-- ===== src/Outbox/System/Sent.antt =====
-- A row is recorded as published only after its event was sent.
use iveri_nest_sdk.Common.{
  ℕ, ◌≡◌, ◌⊎◌, inl, inr, refl, sym, ap, ◌∙◌, true, false, none, some, List, [], ◌∷◌, map, arith,
  Bool-cases, Option-cases, ◌==◌, if◌then◌else◌,
}
use iveri_nest_sdk.Common.Text.{Text}
use iveri_nest_sdk.Outbox.Event.{
  OutboxEvent, Table, pending, processing, published, Claim, status_eq,
}
use iveri_nest_sdk.Outbox.Repository.{
  claim_due_batch, due_rows, has_id, stamp, is_claimed, update_rows, failure_patch, Failure,
  record_failure,
}
use iveri_nest_sdk.Outbox.Repository.Identity.{find_row}
use iveri_nest_sdk.Outbox.Processor.{
  OutboxProcessorConfig, Attempt, Thrown, process, attempt, fail, failure_of, claim_of,
}
use iveri_nest_sdk.Outbox.System.{
  System, start_system, Step, enqueue, claim, terminal, crash, Reach, here, next,
}
use iveri_nest_sdk.Outbox.System.Terminal.{process_effect, patch_keeps}
use iveri_nest_sdk.Outbox.System.Row.{
  patch_if, patch_if-id, update_rows-eq-map, stamp_if, stamp_if-id, save_claims-eq-map,
}

-- A terminal step of the event `i` whose `publish` resolved.
abbrev SentBy :
    {name : Text} {config : OutboxProcessorConfig} {s u : System}
    → ℕ
    → Step name config s u
    → Type 0
SentBy i (enqueue row new e) = ⊥
SentBy i (claim dto now claimed_at token is_locked fresh e) = ⊥
SentBy i (terminal w before event rest held e) = (event.id ≡ i) × (w.publish ≡ none)
SentBy i (crash before event rest held e) = ⊥

-- Some step of the run sent the event `i`.
abbrev pub IsSent :
    {name : Text} {config : OutboxProcessorConfig} {s u : System}
    → ℕ
    → Reach name config s u
    → Type 0
IsSent i here = ⊥
IsSent i (next {t} {u} run step) = IsSent i run ⊎ SentBy i step

-- Where a row of a table that was changed row by row comes from.
find_row-unmap :
    (f : OutboxEvent → OutboxEvent) (i : ℕ) (r : OutboxEvent) (table : Table)
    → ((row : OutboxEvent) → (f row).id ≡ row.id)
    → find_row i (map f table) ≡ some r
    → (q : OutboxEvent) × (find_row i table ≡ some q) × (q.id ≡ i) × (r ≡ f q)
find_row-unmap f i r [] same e = absurd (cc)
find_row-unmap f i r (row ∷ table) same e = elim (Bool-cases (row.id == i)) [
  | inl it ↦ (row, ground (arith, it), ground arith, ground (arith, it, e, same row))
  | inr other ↦
      let (q, found, id, from) =
        find_row-unmap f i r table same (ground (arith, other, e, same row)) in
      (q, ground (arith, other, found), id, from)
]

module _ (name : Text) (config : OutboxProcessorConfig) (w : Attempt) (event : OutboxEvent)
    (table : Table) where
  -- What an event whose `publish` threw comes to.
  process-thrown :
      (error : Thrown)
      → w.publish ≡ some error
      → ((process name config w event table).table ≡ table)
        ⊎ ((t : ℕ) × (f : Failure) × ((process name config w event table).table
              ≡ update_rows (claim_of event t) (failure_patch f) table))
  unfolding process attempt fail record_failure
  process-thrown error thrown = elim (Option-cases event.claim_token) [
    | inl lacking ↦ inl (ground (arith, lacking))
    | inr (t, token) ↦ elim (Bool-cases (status_eq event.status processing)) [
      | inr idle ↦ inl (ground (arith, token, idle))
      | inl busy ↦ elim (Option-cases w.record_failure) [
        | inl lands ↦
            inr
              (t, failure_of name config w event error, ground (arith, token, busy, thrown, lands))
        | inr (e, rejected) ↦ inl (ground (arith, token, busy, thrown, rejected))
      ]
    ]
  ]

failure_unpublished : (f : Failure) (q : OutboxEvent) → (failure_patch f q).status ≡ published → ⊥
unfolding failure_patch
failure_unpublished f q wrong = elim (Bool-cases f.is_dead_letter) [
  | inl dead ↦ ground (arith, dead, wrong)
  | inr alive ↦ ground (arith, alive, wrong)
]

foreign :
    (event q : OutboxEvent) (t i : ℕ)
    → (event.id == i) ≡ false
    → q.id ≡ i
    → is_claimed (claim_of event t) q ≡ true
    → ⊥
unfolding is_claimed
foreign event q t i other id met = ground (arith, other, met)

-- The row `i` was published before.
abbrev WasPublished : ℕ → Table → Type 0
WasPublished i table = (q : OutboxEvent) × (find_row i table ≡ some q) × (q.status ≡ published)

module _ (i : ℕ) (r : OutboxEvent) (done : r.status ≡ published) where
  enqueued-published :
      (table : Table) (row : OutboxEvent)
      → row.status ≡ pending
      → find_row i (row ∷ table) ≡ some r
      → WasPublished i table
  enqueued-published table row new found = elim (Bool-cases (row.id == i)) [
    | inl it ↦
        let same : row ≡ r = ground (arith, it, found) in
        absurd (pending_is_open row new (rw same done))
    | inr other ↦ (r, ground (arith, other, found), done)
  ]
    where
      pending_is_open : (row : OutboxEvent) → row.status ≡ pending → row.status ≡ published → ⊥
      pending_is_open row p q = cc

  claimed-published :
      (token at : ℕ) (rows : List OutboxEvent) (table : Table)
      → find_row i (map (stamp_if token at rows) table) ≡ some r
      → WasPublished i table
  unfolding stamp
  claimed-published token at rows table found =
      let (q, before, id, from) =
        find_row-unmap (stamp_if token at rows) i r table (stamp_if-id token at rows) found in
      elim (Bool-cases (has_id q.id rows)) [
        | inl met ↦
            let stamped : r ≡ stamp token at q =
              from ∙ ap (λ b. if b then stamp token at q else q) met in
            absurd (cc (ap (λ e. e.status) stamped, done))
        | inr missed ↦
            let same : r ≡ q = from ∙ ap (λ b. if b then stamp token at q else q) missed in
            (q, before, rw (← same) done)
      ]

  written-published :
      (c : Claim) (patch : OutboxEvent → OutboxEvent) (table : Table)
      → ((row : OutboxEvent) → (patch row).id ≡ row.id)
      → ((q : OutboxEvent) → q.id ≡ i → is_claimed c q ≡ true → (patch q).status ≡ published → ⊥)
      → find_row i (update_rows c patch table) ≡ some r
      → WasPublished i table
  written-published c patch table same never found =
      let found' : find_row i (map (patch_if c patch) table) ≡ some r =
        rw (← update_rows-eq-map c patch table) found in
      let (q, before, id, from) =
        find_row-unmap (patch_if c patch) i r table (patch_if-id c patch same) found' in
      elim (Bool-cases (is_claimed c q)) [
        | inl met ↦
            let patched : r ≡ patch q = from ∙ ap (λ b. if b then patch q else q) met in
            absurd (never q id met (ap (λ e. e.status) (sym patched) ∙ done))
        | inr missed ↦
            let kept : r ≡ q = from ∙ ap (λ b. if b then patch q else q) missed in
            (q, before, rw (← kept) done)
      ]

  module _ (name : Text) (config : OutboxProcessorConfig) where
    processed-published :
        (w : Attempt) (event : OutboxEvent) (table : Table)
        → find_row i (process name config w event table).table ≡ some r
        → WasPublished i table ⊎ ((event.id ≡ i) × (w.publish ≡ none))
    processed-published w event table found = elim (Option-cases w.publish) [
      | inr (error, thrown) ↦ elim (process-thrown name config w event table error thrown) [
        | inl same ↦ inl (r, rw (← same) found, done)
        | inr (t, f, written) ↦ inl (
            written-published (claim_of event t) (failure_patch f) table
              (λ row. unfold failure_patch in refl)
              (λ q id met wrong. failure_unpublished f q wrong) (rw (← written) found))
      ]
      | inl sent ↦ elim (Bool-cases (event.id == i)) [
        | inl it ↦ inr (ground arith, sent)
        | inr other ↦ elim (process_effect name config w event table) [
          | inl same ↦ inl (r, rw (← same) found, done)
          | inr (t, patch, et, busy, isp, written) ↦ inl (
              written-published (claim_of event t) patch table
                (patch_keeps name config event patch isp).0
                (λ q id met wrong. absurd (foreign event q t i other id met))
                (rw (← written) found))
        ]
      ]
    ]

    step-published :
        {s u : System} (step : Step name config s u)
        → find_row i u.table ≡ some r
        → WasPublished i s.table ⊎ SentBy i step
    unfolding claim_due_batch
    step-published {s} (enqueue row new e) found =
        inl
          (enqueued-published s.table row new.status (ap (λ v. find_row i v.table) (sym e) ∙ found))
    step-published {s} (claim dto now claimed_at token is_locked fresh e) found =
        let rows = due_rows dto now is_locked s.table in
        inl (
          claimed-published token claimed_at rows s.table (
            rw (← save_claims-eq-map token claimed_at rows s.table)
              (ap (λ v. find_row i v.table) (sym e) ∙ found)))
    step-published {s} (terminal w before event rest held e) found =
        processed-published w event s.table (ap (λ v. find_row i v.table) (sym e) ∙ found)
    step-published {s} (crash before event rest held e) found =
        inl (r, ap (λ v. find_row i v.table) (sym e) ∙ found, done)

module _ (name : Text) (config : OutboxProcessorConfig) where
  -- In every run from an empty table, whatever the processors do, a row that is published at the end
  -- was sent on the way: a terminal step of its event had a `publish` that resolved.
  pub published-IsSent :
      {u : System} (i : ℕ) (r : OutboxEvent) (run : Reach name config start_system u)
      → find_row i u.table ≡ some r
      → r.status ≡ published
      → IsSent i run
  published-IsSent i r here found done = absurd (cc)
  published-IsSent i r (next {t} {u} run step) found done =
      elim (step-published i r done name config step found) [
        | inl (q, before, earlier) ↦ inl (published-IsSent i q run before earlier)
        | inr now ↦ inr now
      ]
