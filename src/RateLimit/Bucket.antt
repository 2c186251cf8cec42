-- ===== src/RateLimit/Bucket.antt =====
-- The token bucket script of src/rate-limit/token-bucket.constant.ts.
--
-- Lua numbers are modelled exactly: tokens are counted in grains, `grains_per_token` of which are
-- one token, so the script's `refillPerMs`, `perMinute / 60000` tokens, is the whole number
-- `perMinute` of grains. Rounding of doubles is not modelled. Times are milliseconds.
pub mod Rate
pub mod Retry
pub mod Expiry
use iveri_nest_sdk.Common.{
  ℕ, ◌+◌, ◌-◌, ◌*◌, ◌/◌, Bool, Option, none, some, ltb, leb, ◌==◌, min, if◌then◌else◌,
}

abbrev pub grains_per_token : ℕ
grains_per_token = 60000

-- ARGV: capacity and cost in grains, the refill in grains for each millisecond.
pub record Args : Type 0 where
  pub capacity : ℕ
  pub refill_per_ms : ℕ
  pub now : ℕ
  pub cost : ℕ

-- The two hash fields of one bucket key.
pub record Bucket : Type 0 where
  pub tokens : ℕ
  pub updated_at : ℕ

-- The array that the script returns.
pub record Reply : Type 0 where
  pub allowed : ℕ
  pub remaining : ℕ
  pub retry_after_ms : ℕ

-- What one run leaves: the fields written by HSET, then the TTL handed to PEXPIRE and the reply,
-- or an error where PEXPIRE refuses the number that it is handed.
pub record Run : Type 0 where
  pub bucket : Bucket
  pub outcome : Option (ℕ × Reply)

-- `math.ceil(n / d)`
unfoldable pub ceil_div : ℕ → ℕ → ℕ
ceil_div n d = (n + (d - 1)) / d

-- An absent key, or one that lacks a field, is a full bucket.
unfoldable pub read_bucket : Args → Option ℕ → Option ℕ → Bucket
read_bucket args (some tokens) (some updated_at) = record {
  tokens = tokens;
  updated_at = updated_at;
}
read_bucket args _ _ = record { tokens = args.capacity; updated_at = args.now }

unfoldable pub refill : Args → Bucket → Bucket
refill args b =
    if ltb b.updated_at args.now
    then record {
      tokens = min args.capacity (b.tokens + (args.now - b.updated_at) * args.refill_per_ms);
      updated_at = args.now;
    }
    else b

unfoldable pub is_affordable : Args → Bucket → Bool
is_affordable args b = leb args.cost b.tokens

unfoldable pub spend : Args → Bucket → Bucket
unfolding is_affordable
spend args b = if is_affordable args b then record b { tokens = b.tokens - args.cost } else b

unfoldable pub time_to_live : Args → Bucket → ℕ
unfolding ceil_div
time_to_live args b = ceil_div (args.capacity - b.tokens) args.refill_per_ms + 1000

unfoldable pub reply_of : Args → Bool → Bucket → Reply
unfolding ceil_div
reply_of args ok b = record {
  allowed = if ok then 1 else 0;
  remaining = b.tokens / grains_per_token;
  retry_after_ms = if ok then 0 else ceil_div (args.cost - b.tokens) args.refill_per_ms;
}

-- At a refill of 0 the division gives `inf` or `nan`, which PEXPIRE refuses; HSET has run by then.
unfoldable pub token_bucket : Args → Option ℕ → Option ℕ → Run
unfolding read_bucket refill is_affordable spend time_to_live reply_of
token_bucket args stored_tokens stored_updated_at =
    let b = refill args (read_bucket args stored_tokens stored_updated_at) in
    let b' = spend args b in
    record {
      bucket = b';
      outcome =
          if args.refill_per_ms == 0
          then none
          else some (time_to_live args b', reply_of args (is_affordable args b) b');
    }

-- A run on a stored bucket.
abbrev pub run_on : Args → Bucket → Run
run_on args b = token_bucket args (some b.tokens) (some b.updated_at)
