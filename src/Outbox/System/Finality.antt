-- ===== src/Outbox/System/Finality.antt =====
-- A row that is published or dead-lettered stays as it is.
use iveri_nest_sdk.Common.{
  ℕ, ◌<◌, ◌≡◌, ◌≢◌, ◌⊎◌, inl, inr, ap, Bool, true, false, some, List, [], ◌∷◌, arith, All,
  Bool-cases, Option-cases, ◌==◌,
}
use iveri_nest_sdk.Common.Text.{Text}
use iveri_nest_sdk.Outbox.Event.{OutboxEvent, Table, published, dead_letter, Claim}
use iveri_nest_sdk.Outbox.Repository.{
  ClaimInput, claim_due_batch, due_rows, has_id, save_claims, is_due, is_claimed, update_rows,
}
use iveri_nest_sdk.Outbox.Repository.Identity.{find_row}
use iveri_nest_sdk.Outbox.Processor.{OutboxProcessorConfig, Attempt, process, claim_of}
use iveri_nest_sdk.Outbox.System.{
  System, start_system, Step, enqueue, claim, terminal, crash, Reach, here, next,
}
use iveri_nest_sdk.Outbox.System.Invariant.{IsSound}
use iveri_nest_sdk.Outbox.System.Terminal.{process_effect, patch_keeps}
use iveri_nest_sdk.Outbox.System.Claiming.{stamped_due}
use iveri_nest_sdk.Outbox.System.Safety.{
  IsConsistentSystem, Step-IsConsistent, reachable-IsConsistent,
}

abbrev IsFinal : OutboxEvent → Type 0
IsFinal row = (row.status ≡ published) ⊎ (row.status ≡ dead_letter)

module _ (max_attempts : ℕ) (issued : List ℕ) where
  final_unclaimed :
      (c : Claim) (row : OutboxEvent)
      → IsSound max_attempts issued row
      → IsFinal row
      → is_claimed c row ≡ false
  unfolding is_claimed
  final_unclaimed c row h f = elim (Option-cases row.claim_token) [
    | inl lacking ↦ ground (arith, lacking)
    | inr (t, token) ↦ let busy = h.leased t token in absurd (ground (arith, busy, f))
  ]

  find_row-update_rows :
      (c : Claim) (patch : OutboxEvent → OutboxEvent) (i : ℕ) (r : OutboxEvent) (table : Table)
      → ((row : OutboxEvent) → (patch row).id ≡ row.id)
      → All (IsSound max_attempts issued) table
      → IsFinal r
      → find_row i table ≡ some r
      → find_row i (update_rows c patch table) ≡ some r
  unfolding update_rows
  find_row-update_rows c patch i r [] same sound f e = e
  find_row-update_rows c patch i r (row ∷ table) same sound f e = elim (Bool-cases (row.id == i)) [
    | inl found ↦
        let it : row ≡ r = ground (arith, found, e) in
        let left = final_unclaimed c row sound.0 (rw it f) in rw (left) (rw found (ap some it))
    | inr other ↦ ground (
      arith,
      same row,
      find_row-update_rows c patch i r table same sound.1 f (ground (arith, other, e)),
    )
  ]

  -- Rows that get the stamp of a claim are open.
  find_row-save_claims :
      (token at timeout now : ℕ) (rows : List OutboxEvent) (i : ℕ) (r : OutboxEvent) (table : Table)
      → All (λ row. has_id row.id rows ≡ true → is_due timeout now row ≡ true) table
      → IsFinal r
      → find_row i table ≡ some r
      → find_row i (save_claims token at rows table) ≡ some r
  unfolding save_claims is_due
  find_row-save_claims token at timeout now rows i r [] due f e = e
  find_row-save_claims token at timeout now rows i r (row ∷ table) due f e =
      ground (arith, due.0, f, e, find_row-save_claims token at timeout now rows i r table due.1 f)

has_id_of_find_row :
    (i : ℕ) (r : OutboxEvent) (table : Table) → find_row i table ≡ some r → has_id i table ≡ true
has_id_of_find_row i r [] e = absurd (cc)
has_id_of_find_row i r (row ∷ table) e = ground (arith, has_id_of_find_row i r table)

pub enqueue_final :
    (table : Table) (row : OutboxEvent) (i : ℕ) (r : OutboxEvent)
    → has_id row.id table ≡ false
    → find_row i table ≡ some r
    → find_row i (row ∷ table) ≡ some r
enqueue_final table row i r fresh e = ground (arith, fresh, e, has_id_of_find_row i r table e)

module _ (name : Text) (config : OutboxProcessorConfig)
    (some_attempts : 0 < config.max_attempts) where
  process_final :
      (w : Attempt) (event : OutboxEvent) (issued : List ℕ) (table : Table) (i : ℕ)
      (r : OutboxEvent)
      → All (IsSound config.max_attempts issued) table
      → IsFinal r
      → find_row i table ≡ some r
      → find_row i (process name config w event table).table ≡ some r
  process_final w event issued table i r sound f e =
      elim (process_effect name config w event table) [
        | inl same ↦ rw same e
        | inr (t, patch, et, busy, isp, written) ↦ rw written (
            find_row-update_rows config.max_attempts issued (claim_of event t) patch i r table
              (patch_keeps name config event patch isp).0 sound f e)
      ]

  claim_final :
      (s : System) (dto : ClaimInput) (now claimed_at token : ℕ) (is_locked : OutboxEvent → Bool)
      (i : ℕ) (r : OutboxEvent)
      → IsConsistentSystem config s
      → All (λ t. t ≢ token) s.issued
      → IsFinal r
      → find_row i s.table ≡ some r
      → find_row i (claim_due_batch dto now claimed_at token is_locked s.table).0 ≡ some r
  unfolding claim_due_batch
  claim_final s dto now claimed_at token is_locked i r h fresh f e =
      find_row-save_claims config.max_attempts s.issued token claimed_at dto.claim_timeout_ms now
        (due_rows dto now is_locked s.table) i r s.table
        (stamped_due config.max_attempts s.issued s.table s.held dto now claimed_at token is_locked
          h fresh)
        f e

  Step-final :
      (s u : System) (i : ℕ) (r : OutboxEvent)
      → Step name config s u
      → IsConsistentSystem config s
      → IsFinal r
      → find_row i s.table ≡ some r
      → find_row i u.table ≡ some r
  Step-final s u i r (enqueue row new e') h f e = rw e' (enqueue_final s.table row i r new.fresh e)
  Step-final s u i r (claim dto now claimed_at token is_locked fresh e') h f e =
      rw e' (claim_final s dto now claimed_at token is_locked i r h fresh f e)
  Step-final s u i r (terminal w before event rest held e') h f e =
      rw e' (process_final w event s.issued s.table i r h.sound f e)
  Step-final s u i r (crash before event rest held e') h f e = rw e' e

  Reach-final :
      {s u : System} (i : ℕ) (r : OutboxEvent)
      → Reach name config s u
      → IsConsistentSystem config s
      → IsFinal r
      → find_row i s.table ≡ some r
      → (find_row i u.table ≡ some r) × IsConsistentSystem config u
  Reach-final i r here h f e = (e, h)
  Reach-final i r (next {t} {u} steps st) h f e =
      let (found, h') = Reach-final i r steps h f e in
      (Step-final t u i r st h' f found, Step-IsConsistent name config some_attempts t u st h')

  -- Once a row is published or dead-lettered, no step of any processor changes it again, late and
  -- stale attempts included: from every state that is reached from an empty table.
  pub published-final :
      {s u : System} (i : ℕ) (r : OutboxEvent)
      → Reach name config start_system s
      → Reach name config s u
      → IsFinal r
      → find_row i s.table ≡ some r
      → find_row i u.table ≡ some r
  published-final i r before after f e =
      (Reach-final i r after (reachable-IsConsistent name config some_attempts before) f e).0
