-- ===== src/RateLimit/Bucket/Rate.antt =====
-- How much a bucket lets through, over any sequence of calls of its script.
use iveri_nest_sdk.Common.{ℕ, ◌+◌, ◌-◌, ◌*◌, ◌≤◌, ◌≡◌, List, [], ◌∷◌, arith, All, if◌then◌else◌}
use iveri_nest_sdk.RateLimit.Bucket.{Args, Bucket, refill, is_affordable, token_bucket, run_on}

-- A policy as the script sees it; only the clock differs from call to call.
pub record Limits : Type 0 where
  pub capacity : ℕ
  pub refill_per_ms : ℕ
  pub cost : ℕ

abbrev pub args_at : Limits → ℕ → Args
args_at l now = record {
  capacity = l.capacity;
  refill_per_ms = l.refill_per_ms;
  now = now;
  cost = l.cost;
}

-- One call at a stored bucket: what it stores, and how many requests it lets through.
unfoldable pub call : Limits → Bucket → ℕ → Bucket
unfolding token_bucket
call l b now = (run_on (args_at l now) b).bucket

unfoldable pub admits : Limits → Bucket → ℕ → ℕ
unfolding is_affordable refill
admits l b now = if is_affordable (args_at l now) (refill (args_at l now) b) then 1 else 0

-- The calls of all replicas, in the order in which Redis runs them; their clocks may disagree.
unfoldable pub calls : Limits → Bucket → List ℕ → Bucket
unfolding call
calls l b [] = b
calls l b (now ∷ nows) = calls l (call l b now) nows

unfoldable pub admitted : Limits → Bucket → List ℕ → ℕ
unfolding call admits
admitted l b [] = 0
admitted l b (now ∷ nows) = admits l b now + admitted l (call l b now) nows

module _ (l : Limits) (b : Bucket) (now : ℕ) where
  call-updated_at : b.updated_at ≤ (call l b now).updated_at
  unfolding call token_bucket
  call-updated_at = ground arith

  pub call-updated_at-le : (t : ℕ) → now ≤ t → b.updated_at ≤ t → (call l b now).updated_at ≤ t
  unfolding call token_bucket
  call-updated_at-le t h k = ground arith

  pub call-capacity : b.tokens ≤ l.capacity → (call l b now).tokens ≤ l.capacity
  unfolding call token_bucket
  call-capacity h = ground arith

  -- What is let through and what is left come from what was there and what was refilled.
  call-budget :
      admits l b now * l.cost + (call l b now).tokens
      ≤ b.tokens + ((call l b now).updated_at - b.updated_at) * l.refill_per_ms
  unfolding call admits token_bucket
  call-budget = ground arith

calls-updated_at :
    (l : Limits) (b : Bucket) (nows : List ℕ) → b.updated_at ≤ (calls l b nows).updated_at
unfolding calls
calls-updated_at l b [] = omega arith
calls-updated_at l b (now ∷ nows) =
    omega (arith, call-updated_at l b now, calls-updated_at l (call l b now) nows)

calls-updated_at-le :
    (l : Limits) (b : Bucket) (nows : List ℕ) (t : ℕ)
    → b.updated_at ≤ t
    → All (λ now. now ≤ t) nows
    → (calls l b nows).updated_at ≤ t
unfolding calls
calls-updated_at-le l b [] t h hs = h
calls-updated_at-le l b (now ∷ nows) t h hs =
    calls-updated_at-le l (call l b now) nows t (call-updated_at-le l b now t hs.0 h) hs.1

-- A stored bucket never holds more than the burst, whatever the clocks of the callers.
calls-capacity :
    (l : Limits) (b : Bucket) (nows : List ℕ)
    → b.tokens ≤ l.capacity
    → (calls l b nows).tokens ≤ l.capacity
unfolding calls
calls-capacity l b [] h = h
calls-capacity l b (now ∷ nows) h = calls-capacity l (call l b now) nows (call-capacity l b now h)

add_spans : (a b c r : ℕ) → a ≤ b → b ≤ c → (b - a) * r + (c - b) * r ≡ (c - a) * r
add_spans a b c r h k = grind arith

-- Over any calls, what was spent and what is left is at most what was there and what the time
-- between the first and the last stored instant refills.
calls-budget :
    (l : Limits) (b : Bucket) (nows : List ℕ)
    → admitted l b nows * l.cost + (calls l b nows).tokens
      ≤ b.tokens + ((calls l b nows).updated_at - b.updated_at) * l.refill_per_ms
unfolding calls admitted
calls-budget l b [] = omega arith
calls-budget l b (now ∷ nows) =
    let b' = call l b now in
    let end = calls l b' nows in
    omega (
      arith,
      call-budget l b now,
      calls-budget l b' nows,
      add_spans b.updated_at b'.updated_at end.updated_at l.refill_per_ms (call-updated_at l b now)
          (calls-updated_at l b' nows),
    )

-- From a bucket that holds at most the burst, whatever the order of the callers' clocks, the
-- requests let through cost at most the burst and what refills until the latest of the clocks.
pub admitted_bound :
    (l : Limits) (b : Bucket) (nows : List ℕ) (t : ℕ)
    → b.tokens ≤ l.capacity
    → b.updated_at ≤ t
    → All (λ now. now ≤ t) nows
    → admitted l b nows * l.cost ≤ l.capacity + (t - b.updated_at) * l.refill_per_ms
admitted_bound l b nows t full h hs =
    let end = calls l b nows in
    omega (
      arith,
      calls-budget l b nows,
      add_spans b.updated_at end.updated_at t l.refill_per_ms (calls-updated_at l b nows)
          (calls-updated_at-le l b nows t h hs),
    )
