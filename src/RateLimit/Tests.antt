-- ===== src/RateLimit/Tests.antt =====
-- Runs of the limiter, and the theorems at concrete inputs. The policy lets 600 requests through
-- a minute, a grain in 600 each millisecond, and a burst of 2.
use iveri_nest_sdk.Common.{
  ℕ, ◌+◌, ◌-◌, ◌*◌, ◌≤◌, ◌≡◌, refl, false, none, some, List, [], ◌∷◌, arith,
}
use iveri_nest_sdk.Common.Text.{Text, codes, to_lower_case}
use iveri_nest_sdk.RateLimit.Bucket.{Args, Bucket, token_bucket, run_on, ceil_div}
use iveri_nest_sdk.RateLimit.Bucket.Rate.{Limits, admitted}
use iveri_nest_sdk.RateLimit.Key.{build_rate_limit_key, suffix_part}
use iveri_nest_sdk.RateLimit.Key.Laws.{build_rate_limit_key-injective}
use iveri_nest_sdk.RateLimit.Service.{Policy, ConsumeInput, Service, unenforced, args_of, key_of}
use iveri_nest_sdk.RateLimit.Shared.{Entry, Store, Request, allowed}
use iveri_nest_sdk.RateLimit.Shared.Bound.{IsHeld, allowed_bound}
use iveri_nest_sdk.RateLimit.Service.Laws.{decision, zero_rate_unlimited}

abbrev limits : Limits
limits = record { capacity = 120000; refill_per_ms = 600; cost = 60000 }

abbrev full : Bucket
full = record { tokens = 120000; updated_at = 1000 }

abbrev clocks : List ℕ
clocks = 1000 ∷ 990 ∷ 1001 ∷ 1100 ∷ []

three_of_four : admitted limits full clocks ≡ 3
unfolding admitted
three_of_four = refl

abbrev args : Args
args = record { capacity = 120000; refill_per_ms = 600; now = 1001; cost = 60000 }

abbrev empty : Bucket
empty = record { tokens = 0; updated_at = 1000 }

stores_1001 : (run_on args empty).bucket.updated_at ≡ 1001
unfolding token_bucket
stores_1001 = refl

abbrev policy : Policy
policy = record { per_minute = 600; burst = 2 }

abbrev input : ConsumeInput
input = record {
  scope = codes "INGRESS";
  hash_tag = codes "t1";
  suffix = none;
  policy = policy;
  now = 1001;
}

abbrev service : Service
service = record { is_command_defined = false; error_logs = 0 }

abbrev closed : ConsumeInput
closed = record input { policy = record { per_minute = 0; burst = 2 } }

zero_rate_unlimited_example :
    decision (codes "conduit") closed service (some 0) (some 1000) ≡ unenforced closed.policy
zero_rate_unlimited_example =
    zero_rate_unlimited (codes "conduit") closed service (some 0) (some 1000) refl

build_rate_limit_key-injective_example :
    (to_lower_case (codes "AUTH") ≡ to_lower_case (codes "auth"))
    × (codes "t1" ≡ codes "t1")
    × (suffix_part none ≡ suffix_part (some []))
unfolding build_rate_limit_key to_lower_case
build_rate_limit_key-injective_example =
    build_rate_limit_key-injective (codes "conduit") (codes "AUTH") (codes "auth") (codes "t1")
      (codes "t1") none (some []) (omega arith) (omega arith) (omega arith) (omega arith) refl

-- Two callers, of which one spends its burst of two; its key has expired by its last request.
abbrev two_a_burst : Policy
two_a_burst = record { per_minute = 600; burst = 2 }

abbrev asks : ℕ → (at now : ℕ) → Request
asks scope at now = record {
  at = at;
  input = record {
    scope = scope ∷ [];
    hash_tag = codes "t";
    suffix = none;
    policy = two_a_burst;
    now = now;
  };
}

abbrev asked : List Request
asked =
    asks b'a' 1000 1000
    ∷ asks b'b' 1000 1100
    ∷ asks b'a' 1001 900
    ∷ asks b'a' 1002 1003
    ∷ asks b'a' 2700 2200
    ∷ []

abbrev a_key : Text
a_key = codes "svc:ratelimit:a:{t}"

abbrev full_entry : Entry
full_entry = record { bucket = full; expires_at = some 2000 }

abbrev both_full : Store
both_full key = some full_entry

abbrev fresh_service : Service
fresh_service = record { is_command_defined = false; error_logs = 0 }

full_entry-IsHeld : IsHeld two_a_burst 1000 full_entry
unfolding ceil_div
full_entry-IsHeld = record {
  expires = 2000;
  does_expire = refl;
  at_most_burst = omega arith;
  is_past = omega arith;
  outlives = omega arith;
}

allowed_bound_example :
    allowed (codes "svc") a_key asked both_full fresh_service * 60000 ≤ 120000 + (2200 - 1000) * 600
unfolding key_of build_rate_limit_key to_lower_case
allowed_bound_example =
    allowed_bound (codes "svc") two_a_burst (omega arith) a_key 1000 asked both_full fresh_service
      full_entry 2200 (omega arith, (omega arith, (omega arith, (omega arith, (omega arith, tt)))))
      (
        (λ e. (refl, record { not_ahead = omega arith; not_behind = omega arith })),
        (
          (λ e. (refl, record { not_ahead = omega arith; not_behind = omega arith })),
          (
            (λ e. (refl, record { not_ahead = omega arith; not_behind = omega arith })),
            (
              (λ e. (refl, record { not_ahead = omega arith; not_behind = omega arith })),
              ((λ e. (refl, record { not_ahead = omega arith; not_behind = omega arith })), tt),
            ),
          ),
        ),
      )
      refl full_entry-IsHeld (omega arith) (omega arith)

three_of_four_requests : allowed (codes "svc") a_key asked both_full fresh_service ≡ 3
unfolding allowed key_of build_rate_limit_key to_lower_case token_bucket args_of
three_of_four_requests = refl
