-- ===== src/RateLimit/Bucket/Retry.antt =====
-- What the script's waits cover, and a later call under the same policy.
use iveri_nest_sdk.Common.{ℕ, ◌*◌, ◌≤◌, ◌<◌, arith}
use iveri_nest_sdk.RateLimit.Bucket.{Args, ceil_div}

pub ceil_div-covers : (n d : ℕ) → 0 < d → n ≤ ceil_div n d * d
unfolding ceil_div
ceil_div-covers n d h = grind arith

abbrev pub later : Args → ℕ → Args
later args now = record args { now = now }
