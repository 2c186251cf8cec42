-- ===== src/Outbox/System.antt =====
-- Any number of processors over one outbox table, as the steps that they take in any order.
--
-- A processor's state between its claim and its terminal write is the rows that it still holds.
-- `held` has those of all processors, dead and stale attempts included; every clock, lock, outcome
-- and random number of a step is any.
pub mod Invariant
pub mod Terminal
pub mod Claiming
pub mod Safety
pub mod Finality
pub mod Row
pub mod Attempts
pub mod Sent
mod Tests
use iveri_nest_sdk.Common.{
  ℕ, ◌≡◌, ◌≢◌, Bool, true, false, Option, none, some, List, [], ◌∷◌, ◌++◌, All,
}
use iveri_nest_sdk.Common.Text.{Text}
use iveri_nest_sdk.Outbox.Event.{OutboxEvent, Table, pending}
use iveri_nest_sdk.Outbox.Repository.{ClaimInput, claim_due_batch, has_id}
use iveri_nest_sdk.Outbox.Processor.{OutboxProcessorConfig, Attempt, Processed, process}

pub record System : Type 0 where
  pub table : Table
  pub held : List OutboxEvent
  pub issued : List ℕ

abbrev pub start_system : System
start_system = record { table = []; held = []; issued = [] }

-- A new row, as a subclass's `enqueue` inserts it.
pub record IsEnqueued (table : Table) (row : OutboxEvent) : Type 0 where
  pub fresh : has_id row.id table ≡ false
  pub status : row.status ≡ pending
  pub attempts : row.attempt_count ≡ 0
  pub unclaimed : row.claim_token ≡ none

pub data Step (name : Text) (config : OutboxProcessorConfig) (s u : System) : Type 0 where
  enqueue :
      (row : OutboxEvent)
      → IsEnqueued s.table row
      → u ≡ record s { table = row ∷ s.table }
      → Step name config s u
  claim :
      (dto : ClaimInput) (now claimed_at claim_token : ℕ) (is_locked : OutboxEvent → Bool)
      → All (λ t. t ≢ claim_token) s.issued
      → u ≡ record {
        table = (claim_due_batch dto now claimed_at claim_token is_locked s.table).0;
        held = s.held ++ (claim_due_batch dto now claimed_at claim_token is_locked s.table).1;
        issued = claim_token ∷ s.issued;
      }
      → Step name config s u
  terminal :
      (w : Attempt) (before : List OutboxEvent) (event : OutboxEvent) (rest : List OutboxEvent)
      → s.held ≡ before ++ (event ∷ rest)
      → u ≡ record s { table = (process name config w event s.table).table; held = before ++ rest }
      → Step name config s u
  crash :
      (before : List OutboxEvent) (event : OutboxEvent) (rest : List OutboxEvent)
      → s.held ≡ before ++ (event ∷ rest)
      → u ≡ record s { held = before ++ rest }
      → Step name config s u

pub data Reach (name : Text) (config : OutboxProcessorConfig) (s : System) : System → Type 0 where
  here : Reach name config s s
  next : {t u : System} → Reach name config s t → Step name config t u → Reach name config s u
