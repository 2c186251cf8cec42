-- ===== src/Outbox/System/Terminal.antt =====
-- A terminal write keeps the invariant.
use iveri_nest_sdk.Common.{
  ℕ, ◌≤◌, ◌<◌, ◌≡◌, ◌⊎◌, inl, inr, refl, true, false, none, some, List, arith, All, All-mono,
  All-both, Bool-cases, Option-cases,
}
use iveri_nest_sdk.Common.Text.{Text}
use iveri_nest_sdk.Outbox.Event.{OutboxEvent, Table, processing, status_eq}
use iveri_nest_sdk.Outbox.Repository.{
  is_claimed, update_rows, mark_published, record_failure, published_patch, failure_patch,
}
use iveri_nest_sdk.Outbox.Repository.Writes.{All-update_rows}
use iveri_nest_sdk.Outbox.Repository.Identity.{Unique, Unique-update_rows}
use iveri_nest_sdk.Outbox.Processor.{
  OutboxProcessorConfig, Attempt, Thrown, process, attempt, fail, failure_of, claim_of, refused,
}
use iveri_nest_sdk.Outbox.System.Invariant.{
  IsConsistent, IsSound, IsHeld, published-IsSound, failure-IsSound, is_claimed-current,
}

-- The two patches of a processor.
abbrev pub IsPatch :
    Text → OutboxProcessorConfig → OutboxEvent → (OutboxEvent → OutboxEvent) → Type 0
IsPatch name config event patch =
    ((now : ℕ) × (patch ≡ published_patch now))
    ⊎ ((w : Attempt) × (error : Thrown) × (patch
          ≡ failure_patch (failure_of name config w event error)))

-- The terminal write of an event.
abbrev pub Writes : Text → OutboxProcessorConfig → OutboxEvent → Table → Table → Type 0
Writes name config event table table' =
    (t : ℕ) × (patch : OutboxEvent → OutboxEvent) × (event.claim_token ≡ some t)
    × (event.status ≡ processing)
    × IsPatch name config event patch
    × (table' ≡ update_rows (claim_of event t) patch table)

module _ (name : Text) (config : OutboxProcessorConfig) (w : Attempt) (event : OutboxEvent)
    (table : Table) where
  fail_effect :
      (t : ℕ) (error : Thrown)
      → event.claim_token ≡ some t
      → event.status ≡ processing
      → ((fail name config w event (claim_of event t) error table).table ≡ table)
        ⊎ Writes name config event table
            (fail name config w event (claim_of event t) error table).table
  unfolding fail record_failure
  fail_effect t error et es = elim (Option-cases w.record_failure) [
    | inl lands ↦ rw lands (inr (t, _, et, es, inr (w, error, refl), refl))
    | inr (e, rejected) ↦ rw rejected (inl refl)
  ]

  attempt_effect :
      (t : ℕ)
      → event.claim_token ≡ some t
      → event.status ≡ processing
      → ((attempt name config w event (claim_of event t) table).table ≡ table)
        ⊎ Writes name config event table
            (attempt name config w event (claim_of event t) table).table
  unfolding attempt mark_published
  attempt_effect t et es = elim (Option-cases w.publish) [
    | inr (error, thrown) ↦ rw thrown (fail_effect t error et es)
    | inl sent ↦ rw sent (elim (Option-cases w.mark_published) [
      | inr (error, rejected) ↦ rw rejected (fail_effect t error et es)
      | inl lands ↦ rw lands (inr (t, _, et, es, inl (w.now, refl), refl))
    ])
  ]

  process-unleased : event.claim_token ≡ none → process name config w event table ≡ refused table
  unfolding process
  process-unleased lacking = ground arith

  process-idle :
      status_eq event.status processing ≡ false → process name config w event table ≡ refused table
  unfolding process
  process-idle idle = ground arith

  process-leased :
      (t : ℕ)
      → event.claim_token ≡ some t
      → status_eq event.status processing ≡ true
      → process name config w event table ≡ attempt name config w event (claim_of event t) table
  unfolding process
  process-leased t et busy = ground arith

  -- Whatever happens to an event, the table is left alone or gets its terminal write.
  pub process_effect :
      ((process name config w event table).table ≡ table)
      ⊎ Writes name config event table (process name config w event table).table
  process_effect = elim (Option-cases event.claim_token) [
    | inl lacking ↦ rw (process-unleased lacking) (inl refl)
    | inr (t, et) ↦ elim (Bool-cases (status_eq event.status processing)) [
      | inl busy ↦ rw (process-leased t et busy) (attempt_effect t et (ground arith))
      | inr idle ↦ rw (process-idle idle) (inl refl)
    ]
  ]

module _ (name : Text) (config : OutboxProcessorConfig) (event : OutboxEvent) where
  abbrev KeepsRow : (OutboxEvent → OutboxEvent) → Type 0
  KeepsRow patch =
      ((row : OutboxEvent) → (patch row).id ≡ row.id)
      × ((row : OutboxEvent) → (patch row).claim_token ≡ none)

  pub patch_keeps :
      (patch : OutboxEvent → OutboxEvent) → IsPatch name config event patch → KeepsRow patch
  unfolding published_patch failure_patch
  patch_keeps patch (inl (now, e)) = rw e ((λ row. refl), (λ row. refl))
  patch_keeps patch (inr (w, error, e)) = rw e ((λ row. refl), (λ row. refl))

  pub failure_bounds :
      (w : Attempt) (error : Thrown)
      → event.attempt_count < config.max_attempts
      → ((failure_of name config w event error).attempt_count ≤ config.max_attempts)
        × ((failure_of name config w event error).is_dead_letter ≡ false
            → (failure_of name config w event error).attempt_count < config.max_attempts)
  unfolding failure_of
  failure_bounds w error left = (omega arith, λ alive. ground arith)

  patched-IsSound :
      (issued : List ℕ) (patch : OutboxEvent → OutboxEvent) (row : OutboxEvent)
      → IsPatch name config event patch
      → event.status ≡ processing
      → row ≡ event
      → IsSound config.max_attempts issued row
      → IsSound config.max_attempts issued (patch row)
  patched-IsSound issued patch row (inl (now, e)) busy same h =
      rw e (published-IsSound config.max_attempts issued now row h)
  patched-IsSound issued patch row (inr (w, error, e)) busy same h =
      let row_busy : row.status ≡ processing = rw same busy in
      let row_left = h.attempts_left (inr row_busy) in
      let left : event.attempt_count < config.max_attempts = rw same at row_left in
      let (le, lt) = failure_bounds w error left in
      rw e (
        failure-IsSound config.max_attempts issued (failure_of name config w event error) row le lt)

module _ (name : Text) (config : OutboxProcessorConfig) (event : OutboxEvent) (table : Table)
    (issued : List ℕ) where
  -- The part of the invariant that speaks of the table.
  IsSound-after :
      (t : ℕ) (patch : OutboxEvent → OutboxEvent)
      → event.claim_token ≡ some t
      → event.status ≡ processing
      → IsPatch name config event patch
      → IsHeld table issued event
      → All (IsSound config.max_attempts issued) table
      → All (IsSound config.max_attempts issued) (update_rows (claim_of event t) patch table)
  IsSound-after t patch et busy isp h sound =
      All-update_rows
        (λ row.
          IsSound config.max_attempts issued row
          × (is_claimed (claim_of event t) row ≡ true → row ≡ event))
        (IsSound config.max_attempts issued) (claim_of event t) patch table
        (λ row k c. patched-IsSound name config event issued patch row isp busy (k.1 c) k.0)
        (λ row k c. k.0) (All-both _ _ table sound (is_claimed-current table event t et h.current))

  IsHeld-after :
      (t : ℕ) (patch : OutboxEvent → OutboxEvent) (e : OutboxEvent)
      → IsPatch name config event patch
      → IsHeld table issued e
      → IsHeld (update_rows (claim_of event t) patch table) issued e
  IsHeld-after t patch e isp h = record {
    issued_token = h.issued_token;
    current = λ u eu.
        All-update_rows (λ row. row.id ≡ e.id → row.claim_token ≡ some u → row ≡ e)
          (λ row. row.id ≡ e.id → row.claim_token ≡ some u → row ≡ e) (claim_of event t) patch table
          (λ row k c same_id token. absurd (cc ((patch_keeps name config event patch isp).1 row)))
          (λ row k c. k) (h.current u eu);
  }

  -- The table after an event, and what is still held of it.
  pub process_keeps :
      (w : Attempt) (held : List OutboxEvent)
      → Unique table
      → All (IsSound config.max_attempts issued) table
      → IsHeld table issued event
      → All (IsHeld table issued) held
      → IsConsistent config.max_attempts (process name config w event table).table held issued
  process_keeps w held unique sound h hs = elim (process_effect name config w event table) [
    | inl same ↦ rw same (record { unique = unique; sound = sound; held = hs })
    | inr (t, patch, et, busy, isp, written) ↦ rw written (record {
      unique =
          Unique-update_rows (claim_of event t) patch (patch_keeps name config event patch isp).0
            table unique;
      sound = IsSound-after t patch et busy isp h sound;
      held = All-mono _ _ held (λ e k. IsHeld-after t patch e isp k) hs;
    })
  ]
