-- ===== src/RateLimit/Bucket/Expiry.antt =====
-- An expired key: the TTL that the script sets never forgives a spent token.
use iveri_nest_sdk.Common.{ℕ, ◌+◌, ◌-◌, ◌≤◌, ◌<◌, ◌≡◌, none, some, arith}
use iveri_nest_sdk.RateLimit.Bucket.{Args, Bucket, Reply, token_bucket, refill, ceil_div, run_on}
use iveri_nest_sdk.RateLimit.Bucket.Retry.{later, ceil_div-covers}

-- A bucket that has had the time it needs is full, and its instant is the caller's clock.
pub refill-full :
    (args : Args) (b : Bucket)
    → 0 < args.refill_per_ms
    → b.tokens ≤ args.capacity
    → b.updated_at + ceil_div (args.capacity - b.tokens) args.refill_per_ms ≤ args.now
    → refill args b ≡ record { tokens = args.capacity; updated_at = args.now }
unfolding refill
refill-full args b pos full due =
    let missing = args.capacity - b.tokens in
    let enough = ceil_div-covers missing args.refill_per_ms pos in grind (arith, enough)

refill-fresh :
    (args : Args)
    → refill args (record { tokens = args.capacity; updated_at = args.now })
      ≡ record { tokens = args.capacity; updated_at = args.now }
unfolding refill
refill-fresh args = ground arith

pub run_on-full :
    (args : Args) (b : Bucket)
    → refill args b ≡ record { tokens = args.capacity; updated_at = args.now }
    → token_bucket args none none ≡ run_on args b
unfolding token_bucket
run_on-full args b e = rw e (simp refill-fresh)

stored_after :
    (args : Args) (b : Bucket) (ttl : ℕ) (reply : Reply) (now' : ℕ)
    → b.tokens ≤ args.capacity
    → (run_on args b).outcome ≡ some (ttl, reply)
    → (run_on args b).bucket.updated_at + ttl ≤ now' + 1000
    → ((run_on args b).bucket.tokens ≤ args.capacity)
      × ((run_on args b).bucket.updated_at
            + ceil_div (args.capacity - (run_on args b).bucket.tokens) args.refill_per_ms
          ≤ now')
unfolding token_bucket
stored_after args b ttl reply now' full ran passed = ground arith

-- Where a bucket's key was set to live `ttl` and that much, less the second of slack, has passed
-- by the callers' clocks, a run that finds the key gone does what a run on the stored bucket does.
token_bucket-expired :
    (args : Args) (b : Bucket) (ttl : ℕ) (reply : Reply) (now' : ℕ)
    → 0 < args.refill_per_ms
    → b.tokens ≤ args.capacity
    → (run_on args b).outcome ≡ some (ttl, reply)
    → (run_on args b).bucket.updated_at + ttl ≤ now' + 1000
    → token_bucket (later args now') none none ≡ run_on (later args now') (run_on args b).bucket
token_bucket-expired args b ttl reply now' pos full ran passed =
    let b' = (run_on args b).bucket in
    let (fits, due) = stored_after args b ttl reply now' full ran passed in
    run_on-full (later args now') b' (refill-full (later args now') b' pos fits due)
