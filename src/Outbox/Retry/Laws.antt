-- ===== src/Outbox/Retry/Laws.antt =====
-- Bounds of the backoff.
use iveri_nest_sdk.Common.{ℕ, ◌+◌, ◌-◌, ◌*◌, ◌≤◌, ◌<◌, ◌≡◌, arith}
use native.Mathlib.Nat.{div-lt_iff_lt-mul}
use iveri_nest_sdk.Outbox.Retry.{Fraction, floor_mul, ceiling, next_outbox_attempt_at}

below_one : (n d c : ℕ) → n < d → 0 < c → n * c < c * d
below_one n d c h p = grind arith

floor_mul-lt : (r : Fraction) (c : ℕ) → r.numerator < r.denominator → 0 < c → floor_mul r c < c
unfolding floor_mul
floor_mul-lt r c h p =
    (div-lt_iff_lt-mul (omega arith)).1 (below_one r.numerator r.denominator c h p)

floor_mul-zero : (r : Fraction) → r.numerator < r.denominator → floor_mul r 0 ≡ 0
unfolding floor_mul
floor_mul-zero r h = grind arith

-- With a random number below 1 a retry is due at once or later and less than the exponential
-- ceiling later (at once where that is 0), and the ceiling is at most `max_ms`.
next_outbox_attempt_at_bounds :
    (now : ℕ) (random : Fraction) (attempt_count base_ms max_ms : ℕ)
    → random.numerator < random.denominator
    → (now ≤ next_outbox_attempt_at now random attempt_count base_ms max_ms)
      × (next_outbox_attempt_at now random attempt_count base_ms max_ms
          ≤ now + (ceiling attempt_count base_ms max_ms - 1))
      × (ceiling attempt_count base_ms max_ms ≤ max_ms)
unfolding next_outbox_attempt_at
next_outbox_attempt_at_bounds now random attempt_count base_ms max_ms h =
    let c = ceiling attempt_count base_ms max_ms in
    (ground arith, grind (arith, floor_mul-lt random c h, floor_mul-zero random h), ground arith)
