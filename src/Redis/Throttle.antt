-- ===== src/Redis/Throttle.antt =====
-- What the throttled lines of an outage stand for.
use iveri_nest_sdk.Common.{
  ℕ, ◌+◌, ◌≤◌, ◌≡◌, refl, arith, Bool-cases, ltb, inl, inr, Option, none, some, List, [], ◌∷◌,
  length,
}
use iveri_nest_sdk.Common.Text.{Text}
use iveri_nest_sdk.Redis.{
  RedisService, ErrorLine, redis_error_log_interval_ms, log_connection_error,
}

-- The line of one error in front of the later ones.
abbrev with_line : Option ErrorLine → List ErrorLine → List ErrorLine
with_line none lines = lines
with_line (some line) lines = line ∷ lines

-- The errors that the lines stand for: each its own, and those that it says were suppressed.
abbrev pub accounted : List ErrorLine → ℕ
accounted [] = 0
accounted (line ∷ lines) = 1 + line.suppressed_since_last_log + accounted lines

-- The lines are written a minute or more apart, the first one counted from `last`.
abbrev pub IsSpaced : ℕ → List ErrorLine → Type 0
IsSpaced last [] = Unit
IsSpaced last (line ∷ lines) =
    (last + redis_error_log_interval_ms ≤ line.at) × IsSpaced line.at lines

module _ {Redis : Type 0} where
  -- The `error` events of a connection, each with the clock of its instant, in their order.
  unfoldable pub log_all :
      List (ℕ × Text) → RedisService Redis → RedisService Redis × List ErrorLine
  unfolding log_connection_error
  log_all [] service = (service, [])
  log_all (event ∷ events) service =
      let logged = log_connection_error event.0 event.1 service in
      let rest = log_all events logged.0 in (rest.0, with_line logged.1 rest.1)

  -- The throttle hides volume and not the fact: whatever the clock does, each connection error is
  -- counted exactly once, by its own line, by the line after it or by the counter that the next line
  -- will carry; and the lines are at least a minute apart, the first from the last one before.
  pub log_all-accounted :
      (events : List (ℕ × Text)) (service : RedisService Redis)
      → (accounted (log_all events service).1 + (log_all events service).0.suppressed_error_count
          ≡ length events + service.suppressed_error_count)
        × IsSpaced service.last_error_logged_at (log_all events service).1
  unfolding log_all
  log_all-accounted [] service = (refl, tt)
  log_all-accounted ((now, error) ∷ events) service =
      elim (Bool-cases (ltb now (service.last_error_logged_at + redis_error_log_interval_ms))) [
        | inl early ↦
            let h =
              log_all-accounted events
                (record service { suppressed_error_count = service.suppressed_error_count + 1 }) in
            rw early (let h0 = h.0 in omega arith, h.1)
        | inr due ↦
            let h =
              log_all-accounted events
                (record service { last_error_logged_at = now; suppressed_error_count = 0 }) in
            rw due (let h0 = h.0 in omega arith, (ground arith, h.1))
      ]
