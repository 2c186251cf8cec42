-- ===== src/Outbox/Retry.antt =====
-- src/outbox/outbox-retry.util.ts. `Math.random()` is a fraction `numerator / denominator` below 1.
pub mod Laws
use iveri_nest_sdk.Common.{ℕ, ◌+◌, ◌-◌, ◌*◌, ◌/◌, ◌^◌, ◌≤◌, ◌<◌, ◌≡◌, min, max, arith}

pub record Fraction : Type 0 where
  pub numerator : ℕ
  pub denominator : ℕ

-- `Math.floor(Math.random() * n)`
unfoldable pub floor_mul : Fraction → ℕ → ℕ
floor_mul r n = r.numerator * n / r.denominator

-- `Math.max(attemptCount - 1, 0)` is the subtraction on ℕ.
unfoldable pub ceiling : ℕ → ℕ → ℕ → ℕ
ceiling attempt_count base_ms max_ms =
    let exponent = min (attempt_count - 1) 20 in min (base_ms * 2 ^ exponent) max_ms

unfoldable pub next_outbox_attempt_at : ℕ → Fraction → ℕ → ℕ → ℕ → ℕ
unfolding floor_mul ceiling
next_outbox_attempt_at now random attempt_count base_ms max_ms =
    now + floor_mul random (ceiling attempt_count base_ms max_ms)
