-- ===== src/RateLimit/Shared/Bound.antt =====
-- How much the limiter lets through in all, where keys expire by Redis's clock and are refilled by the
-- callers'.
use native.Mathlib.Nat.{zero-add}
use iveri_nest_sdk.Common.{
  ℕ, ◌+◌, ◌-◌, ◌*◌, ◌≤◌, ◌<◌, ◌≡◌, refl, sym, ap, ap₂, ◌∙◌, inl, inr, arith, Bool, true, false,
  none, some, List, [], ◌∷◌, All, Bool-cases, ◌==◌, if◌then◌else◌, leb,
}
use iveri_nest_sdk.Common.Text.{Text, text_eq, text_eq_sound, text_eq_refl}
use iveri_nest_sdk.RateLimit.Bucket.{
  Args, Bucket, Run, grains_per_token, ceil_div, token_bucket, time_to_live, is_affordable, refill,
  reply_of, run_on,
}
use iveri_nest_sdk.RateLimit.Bucket.Expiry.{refill-full, run_on-full}
use iveri_nest_sdk.RateLimit.Bucket.Rate.{
  Limits, args_at, call, admits, admitted, admitted_bound, call-capacity, call-updated_at-le,
}
use iveri_nest_sdk.RateLimit.Service.{
  Policy, ConsumeInput, Decision, Service, args_of, key_of, decide, answer,
}
use iveri_nest_sdk.RateLimit.Service.Laws.{consume-answer}
use iveri_nest_sdk.RateLimit.Shared.{
  Entry, Store, Request, live, run_at, entry_after, expiry_of, reply_in, client_of, serve, allowed,
}

abbrev limits_of : Policy → Limits
limits_of policy = record {
  capacity = policy.burst * grains_per_token;
  refill_per_ms = policy.per_minute;
  cost = grains_per_token;
}

-- The caller's clock is within half a second of Redis's.
pub record IsInStep (r : Request) : Type 0 where
  pub not_ahead : r.input.now ≤ r.at + 500
  pub not_behind : r.at ≤ r.input.now + 500

-- Redis's clock never goes back.
abbrev pub IsOrdered : ℕ → List Request → Type 0
IsOrdered at [] = Unit
IsOrdered at (r ∷ requests) = (at ≤ r.at) × IsOrdered r.at requests

-- An entry of a bucket under the policy, as of Redis's clock `at`: it holds at most the burst, its
-- instant is of a clock in step, and it lives half a second longer than it takes to be full again.
pub record IsHeld (policy : Policy) (at : ℕ) (e : Entry) : Type 0 where
  pub expires : ℕ
  pub does_expire : e.expires_at ≡ some expires
  pub at_most_burst : e.bucket.tokens ≤ policy.burst * grains_per_token
  pub is_past : e.bucket.updated_at ≤ at + 500
  pub outlives :
      e.bucket.updated_at
        + ceil_div (policy.burst * grains_per_token - e.bucket.tokens) policy.per_minute
        + 500
      ≤ expires

-- The callers' clocks at the bucket `key`.
abbrev clocks_of : Text → Text → List Request → List ℕ
clocks_of namespace key [] = []
clocks_of namespace key (r ∷ requests) =
    if text_eq key (key_of namespace r.input)
    then r.input.now ∷ clocks_of namespace key requests
    else clocks_of namespace key requests

module _ (namespace : Text) (policy : Policy) (positive : 0 < policy.per_minute) where
  abbrev args_now : ℕ → Args
  args_now now = args_at (limits_of policy) now

  args_of-at : (input : ConsumeInput) → input.policy ≡ policy → args_of input ≡ args_now input.now
  unfolding args_of
  args_of-at input same = ap (λ p. args_at (limits_of p) input.now) same

  run_on-outcome :
      (b : Bucket) (now : ℕ)
      → (run_on (args_now now) b).outcome
        ≡ some (
          time_to_live (args_now now) (run_on (args_now now) b).bucket,
          reply_of
              (args_now now)
              (is_affordable (args_now now) (refill (args_now now) b))
              (run_on (args_now now) b).bucket,
        )
  unfolding token_bucket
  run_on-outcome b now = let e : (policy.per_minute == 0) ≡ false = ground arith in rw e refl

  decide-allowed :
      (p : Policy) (args : Args) (ok : Bool) (b : Bucket)
      → (decide p (reply_of args ok b)).is_allowed ≡ ok
  unfolding decide reply_of
  decide-allowed p args true b = refl
  decide-allowed p args false b = refl

  -- A run that finds the key expired does what a run on the entry does: the bucket is full again by
  -- the clock of every caller in step.
  expired-run :
      (now at : ℕ) (e : Entry) (held : IsHeld policy at e) (r : Request)
      → IsInStep r
      → r.input.now ≡ now
      → held.expires ≤ r.at
      → token_bucket (args_now now) none none ≡ run_on (args_now now) e.bucket
  expired-run now at e held r step same over = run_on-full (args_now now) e.bucket (
      refill-full (args_now now) e.bucket positive held.at_most_burst
        (omega (arith, held.outlives, step.not_behind, over, same)))

  module _ (at : ℕ) (e : Entry) (held : IsHeld policy at e) (r : Request) (step : IsInStep r)
      (after : at ≤ r.at) (same : r.input.policy ≡ policy) where
    found_run :
        run_at (live r.at (some e)) (args_of r.input) ≡ run_on (args_now r.input.now) e.bucket
    found_run =
        ap (run_at (live r.at (some e))) (args_of-at r.input same)
        ∙ elim (Bool-cases (leb held.expires r.at)) [
          | inl over ↦
              rw (held.does_expire, over)
                (expired-run r.input.now at e held r step refl (ground (arith, over)))
          | inr alive ↦ rw (held.does_expire, alive) refl
        ]

    abbrev entry : Entry
    entry = entry_after r.at (live r.at (some e)) (args_of r.input)

    entry-bucket : entry.bucket ≡ call (limits_of policy) e.bucket r.input.now
    unfolding call
    entry-bucket = ap (λ (u : Run). u.bucket) found_run

    entry-expires :
        entry.expires_at
        ≡ some (
            r.at
            + time_to_live (args_now r.input.now) (call (limits_of policy) e.bucket r.input.now))
    unfolding call
    entry-expires =
        ap (λ (u : Run). expiry_of r.at (live r.at (some e)) u.outcome) found_run
        ∙ ap (expiry_of r.at (live r.at (some e))) (run_on-outcome e.bucket r.input.now)

    entry-IsHeld : IsHeld policy r.at entry
    unfolding time_to_live
    entry-IsHeld =
        let l = limits_of policy in
        let b = call l e.bucket r.input.now in
        let past : b.updated_at ≤ r.at + 500 =
          call-updated_at-le l e.bucket r.input.now (r.at + 500) step.not_ahead
            (omega (arith, held.is_past, after)) in
        record {
          expires = r.at + time_to_live (args_now r.input.now) b;
          does_expire = entry-expires;
          at_most_burst = rw entry-bucket (call-capacity l e.bucket r.input.now held.at_most_burst);
          is_past = rw entry-bucket past;
          outlives = rw entry-bucket (omega (arith, past));
        }

    module _ (store : Store) (s : Service) (there : store (key_of namespace r.input) ≡ some e) where
      serve-decides :
          (serve namespace r store s).0
          ≡ decide r.input.policy (
              reply_of
                (args_now r.input.now)
                (is_affordable (args_now r.input.now) (refill (args_now r.input.now) e.bucket))
                (run_on (args_now r.input.now) e.bucket).bucket)
      unfolding serve answer
      serve-decides =
          consume-answer namespace r.input s (client_of r.at store) (inr refl)
          ∙ ap
              (λ o.
                (answer r.input s (reply_in (run_at (live r.at o) (args_of r.input)).outcome)).0)
              there
          ∙ ap (λ (u : Run). (answer r.input s (reply_in u.outcome)).0) found_run
          ∙ ap (λ o. (answer r.input s (reply_in o)).0) (run_on-outcome e.bucket r.input.now)

      serve-allowed :
          (if (serve namespace r store s).0.is_allowed then 1 else 0)
          ≡ admits (limits_of policy) e.bucket r.input.now
      unfolding admits
      serve-allowed =
          ap (λ (d : Decision). if d.is_allowed then 1 else 0) serve-decides
          ∙ ap (λ ok. if ok then 1 else 0)
              (decide-allowed r.input.policy (args_now r.input.now) _
                (run_on (args_now r.input.now) e.bucket).bucket)

      -- What the store holds at the request's own key afterwards.
      serve-stores : (serve namespace r store s).1 (key_of namespace r.input) ≡ some entry
      unfolding serve
      serve-stores =
          let key = key_of namespace r.input in
          ap
            (λ hit.
              if hit
              then some (entry_after r.at (live r.at (store key)) (args_of r.input))
              else store key)
            (text_eq_refl key)
          ∙ ap (λ o. some (entry_after r.at (live r.at o) (args_of r.input))) there

  serve-spares :
      (r : Request) (store : Store) (s : Service) (key : Text)
      → text_eq key (key_of namespace r.input) ≡ false
      → (serve namespace r store s).1 key ≡ store key
  unfolding serve
  serve-spares r store s key other = rw other refl

  IsHeld-later : (at at' : ℕ) (e : Entry) → at ≤ at' → IsHeld policy at e → IsHeld policy at' e
  IsHeld-later at at' e h held = record {
    expires = held.expires;
    does_expire = held.does_expire;
    at_most_burst = held.at_most_burst;
    is_past = omega (arith, held.is_past, h);
    outlives = held.outlives;
  }

  -- Every request of the bucket `key` is under the policy, and of a clock in step.
  abbrev pub IsUnder : Text → List Request → Type 0
  IsUnder key requests =
      All (λ r. key_of namespace r.input ≡ key → (r.input.policy ≡ policy) × IsInStep r) requests

  allowed-eq-admitted :
      (key : Text) (at : ℕ) (requests : List Request) (store : Store) (s : Service) (e : Entry)
      → IsOrdered at requests
      → IsUnder key requests
      → store key ≡ some e
      → IsHeld policy at e
      → allowed namespace key requests store s
        ≡ admitted (limits_of policy) e.bucket (clocks_of namespace key requests)
  unfolding allowed admitted
  allowed-eq-admitted key at [] store s e ordered under there held = refl
  allowed-eq-admitted key at (r ∷ requests) store s e ordered under there held =
      let after = serve namespace r store s in
      elim (Bool-cases (text_eq key (key_of namespace r.input))) [
        | inl own ↦
            let at_key : key ≡ key_of namespace r.input = text_eq_sound _ _ own in
            let (same, step) = under.0 (sym at_key) in
            let found = ap store (sym at_key) ∙ there in
            let next = entry at e held r step ordered.0 same in
            let rest =
              allowed-eq-admitted key r.at requests after.1 after.2 next ordered.1 under.1
                (ap after.1 at_key ∙ serve-stores at e held r step ordered.0 same store s found)
                (entry-IsHeld at e held r step ordered.0 same) in
            rw own (
              ap₂ (λ m n. m + n) (serve-allowed at e held r step ordered.0 same store s found)
                (rest
                  ∙ ap (λ b. admitted (limits_of policy) b (clocks_of namespace key requests))
                      (entry-bucket at e held r step ordered.0 same)))
        | inr other ↦
            let rest =
              allowed-eq-admitted key r.at requests after.1 after.2 e ordered.1 under.1
                (serve-spares r store s key other ∙ there)
                (IsHeld-later at r.at e ordered.0 held) in
            rw other (zero-add _ ∙ rest)
      ]

  -- Under a policy with a positive rate, where the clocks of a bucket's callers are within half a
  -- second of Redis's, whoever else calls, in whatever order Redis runs the script and however often
  -- the bucket's key expires in between: from an entry that holds at most the burst and lives half a
  -- second longer than it takes to be full again, the requests that the limiter lets through number at
  -- most the burst and what the time until the latest of their clocks refills, counted in grains and
  -- in exact arithmetic; no request of another bucket counts.
  pub allowed_bound :
      (key : Text) (at : ℕ) (requests : List Request) (store : Store) (s : Service) (e : Entry)
      (t : ℕ)
      → IsOrdered at requests
      → IsUnder key requests
      → store key ≡ some e
      → IsHeld policy at e
      → e.bucket.updated_at ≤ t
      → All (λ now. now ≤ t) (clocks_of namespace key requests)
      → allowed namespace key requests store s * grains_per_token
        ≤ policy.burst * grains_per_token + (t - e.bucket.updated_at) * policy.per_minute
  allowed_bound key at requests store s e t ordered under there held old clocks =
      rw (allowed-eq-admitted key at requests store s e ordered under there held) (
        admitted_bound (limits_of policy) e.bucket (clocks_of namespace key requests) t
          held.at_most_burst old clocks)
