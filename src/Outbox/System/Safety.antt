-- ===== src/Outbox/System/Safety.antt =====
-- What the processors together never do.
use iveri_nest_sdk.Common.{ℕ, ◌<◌, ◌∷◌, ◌++◌, arith, All, All-mono, All-remove}
use iveri_nest_sdk.Common.Text.{Text}
use iveri_nest_sdk.Outbox.Event.{OutboxEvent}
use iveri_nest_sdk.Outbox.Processor.{OutboxProcessorConfig}
use iveri_nest_sdk.Outbox.System.{
  System, start_system, IsEnqueued, Step, enqueue, claim, terminal, crash, Reach, here, next,
}
use iveri_nest_sdk.Outbox.System.Invariant.{IsConsistent, IsSound, IsHeld}
use iveri_nest_sdk.Outbox.System.Terminal.{process_keeps}
use iveri_nest_sdk.Outbox.System.Claiming.{claim_keeps}

abbrev pub IsConsistentSystem : OutboxProcessorConfig → System → Type 0
IsConsistentSystem config s = IsConsistent config.max_attempts s.table s.held s.issued

module _ (max_attempts : ℕ) (some_attempts : 0 < max_attempts) (s : System) (row : OutboxEvent)
    (new : IsEnqueued s.table row) where
  enqueued-IsSound : IsSound max_attempts s.issued row
  enqueued-IsSound = record {
    attempts_left = λ o. rw new.attempts some_attempts;
    attempts_bounded = rw new.attempts (omega arith);
    leased = λ t e. absurd (cc (new.unclaimed));
    token_issued = λ t e. absurd (cc (new.unclaimed));
  }

  enqueue_keeps :
      IsConsistent max_attempts s.table s.held s.issued
      → IsConsistent max_attempts (row ∷ s.table) s.held s.issued
  enqueue_keeps h = record {
    unique = (new.fresh, h.unique);
    sound = (enqueued-IsSound, h.sound);
    held =
        All-mono _ _ s.held
          (λ e k. record {
            issued_token = k.issued_token;
            current = λ t et. ((λ _ token. absurd (cc (new.unclaimed))), k.current t et);
          })
          h.held;
  }

module _ (name : Text) (config : OutboxProcessorConfig)
    (some_attempts : 0 < config.max_attempts) where
  pub Step-IsConsistent :
      (s u : System)
      → Step name config s u
      → IsConsistentSystem config s
      → IsConsistentSystem config u
  Step-IsConsistent s u (enqueue row new e) h =
      rw e (enqueue_keeps config.max_attempts some_attempts s row new h)
  Step-IsConsistent s u (claim dto now claimed_at token is_locked fresh e) h = rw e (
      claim_keeps config.max_attempts s.issued s.table s.held dto now claimed_at token is_locked h
        fresh)
  Step-IsConsistent s u (terminal w before event rest e e') h =
      let held : All (IsHeld s.table s.issued) (before ++ (event ∷ rest)) = rw (← e) h.held in
      let (one, others) = All-remove (IsHeld s.table s.issued) before event rest held in
      rw e' (
        process_keeps name config event s.table s.issued w (before ++ rest) h.unique h.sound one
          others)
  Step-IsConsistent s u (crash before event rest e e') h =
      let held : All (IsHeld s.table s.issued) (before ++ (event ∷ rest)) = rw (← e) h.held in
      rw e' (record {
        unique = h.unique;
        sound = h.sound;
        held = (All-remove (IsHeld s.table s.issued) before event rest held).1;
      })

  Reach-IsConsistent :
      {s u : System}
      → IsConsistentSystem config s
      → Reach name config s u
      → IsConsistentSystem config u
  Reach-IsConsistent h here = h
  Reach-IsConsistent h (next {t} {u} r st) = Step-IsConsistent t u st (Reach-IsConsistent h r)

  start-IsConsistent : IsConsistentSystem config start_system
  start-IsConsistent = record { unique = tt; sound = tt; held = tt }

  -- From an empty table, whatever the processors do and in whatever order, with at least one
  -- attempt allowed: ids are distinct, every row has made at most the allowed attempts and one that
  -- is still open has one left, only a row in processing carries a token, and whoever holds the
  -- token that a row carries read the row as it is.
  pub reachable-IsConsistent :
      {u : System} → Reach name config start_system u → IsConsistentSystem config u
  reachable-IsConsistent r = Reach-IsConsistent start-IsConsistent r
