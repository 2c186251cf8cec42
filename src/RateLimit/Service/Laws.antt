-- ===== src/RateLimit/Service/Laws.antt =====
-- What a caller of the limiter is told.
use iveri_nest_sdk.Common.{
  ℕ, ◌≡◌, ◌⊎◌, inl, inr, refl, ap, ◌∙◌, Option-cases, Bool, true, false, Option, none, some, arith,
}
use iveri_nest_sdk.Common.Text.{Text}
use iveri_nest_sdk.RateLimit.Bucket.{
  Args, Bucket, Reply, token_bucket, read_bucket, refill, is_affordable,
}
use iveri_nest_sdk.RateLimit.Service.{
  ConsumeInput, Decision, Client, Service, unenforced, decide, answer, args_of, key_of, consume,
}

-- Whether the command is there and replies.
abbrev Replies : Text → Client → ConsumeInput → Service → Reply → Type 0
Replies namespace client input s reply =
    ((s.is_command_defined ≡ true) ⊎ (client.takes_command ≡ true))
    × (client.iveri_token_bucket (key_of namespace input) (args_of input) ≡ some reply)

-- There is a client that has the command and replies.
abbrev HasReply : Text → Option Client → ConsumeInput → Service → Reply → Type 0
HasReply namespace client input s reply =
    (c : Client) × (client ≡ some c) × Replies namespace c input s reply

module _ (namespace : Text) (input : ConsumeInput) (s : Service) where
  pub consume-answer :
      (c : Client)
      → (s.is_command_defined ≡ true) ⊎ (c.takes_command ≡ true)
      → (consume namespace (some c) input s).0
        ≡ (answer input s (c.iveri_token_bucket (key_of namespace input) (args_of input))).0
  unfolding consume
  consume-answer c ready = ground arith

  consume-unready :
      (c : Client)
      → s.is_command_defined ≡ false
      → c.takes_command ≡ false
      → (consume namespace (some c) input s).0 ≡ unenforced input.policy
  unfolding consume
  consume-unready c old refuses = ground arith

  answer-none : (answer input s none).0 ≡ unenforced input.policy
  unfolding answer
  answer-none = refl

  answer-some : (reply : Reply) → (answer input s (some reply)).0 ≡ decide input.policy reply
  unfolding answer
  answer-some reply = refl

  ready-cases :
      (c : Client)
      → ((s.is_command_defined ≡ true) ⊎ (c.takes_command ≡ true))
        ⊎ ((s.is_command_defined ≡ false) × (c.takes_command ≡ false))
  ready-cases c = ground arith

  no_client : (reply : Reply) → ¬ HasReply namespace none input s reply
  no_client reply (c, e, r) = cc

  unready_client :
      (c : Client)
      → s.is_command_defined ≡ false
      → c.takes_command ≡ false
      → (reply : Reply) → ¬ HasReply namespace (some c) input s reply
  unready_client c old refuses reply (c', e, (ready, r)) =
      let same : c ≡ c' = cc in
      let refuses' = ap (λ (d : Client). d.takes_command) same in ground arith

  mute_client :
      (c : Client)
      → c.iveri_token_bucket (key_of namespace input) (args_of input) ≡ none
      → (reply : Reply) → ¬ HasReply namespace (some c) input s reply
  mute_client c mute reply (c', e, (ready, r)) =
      let same : c ≡ c' = cc in
      let mute' =
        ap (λ (d : Client). d.iveri_token_bucket (key_of namespace input) (args_of input)) same in
      cc

  replies_outcome :
      (c : Client)
      → (s.is_command_defined ≡ true) ⊎ (c.takes_command ≡ true)
      → ((reply : Reply) × HasReply namespace (some c) input s reply
          × ((consume namespace (some c) input s).0 ≡ decide input.policy reply))
        ⊎ (((reply : Reply) → ¬ HasReply namespace (some c) input s reply)
            × ((consume namespace (some c) input s).0 ≡ unenforced input.policy))
  replies_outcome c ready =
      elim (Option-cases (c.iveri_token_bucket (key_of namespace input) (args_of input))) [
        | inl mute ↦ inr (mute_client c mute, consume-answer c ready ∙ (rw mute answer-none))
        | inr (reply, r) ↦
            inl (reply, (c, refl, (ready, r)), consume-answer c ready ∙ (rw r (answer-some reply)))
      ]

  -- A reply of the script decides. Where there is no client, or it has no command or does not
  -- reply, the limiter fails open: the request is let through and the decision is not enforced.
  consume_outcome :
      (client : Option Client)
      → ((reply : Reply) × HasReply namespace client input s reply
          × ((consume namespace client input s).0 ≡ decide input.policy reply))
        ⊎ (((reply : Reply) → ¬ HasReply namespace client input s reply)
            × ((consume namespace client input s).0 ≡ unenforced input.policy))
  unfolding consume
  consume_outcome none = inr ((λ reply h. no_client reply h), refl)
  consume_outcome (some c) = elim (ready-cases c) [
    | inl ready ↦ replies_outcome c ready
    | inr (old, refuses) ↦
        inr ((λ reply h. unready_client c old refuses reply h), consume-unready c old refuses)
  ]

abbrev reply_only : Option (ℕ × Reply) → Option Reply
reply_only none = none
reply_only (some (ttl, reply)) = some reply

-- Redis, whose script finds the two fields `stored` at every key.
abbrev redis_with : Option ℕ → Option ℕ → Client
redis_with tokens updated_at = record {
  takes_command = true;
  iveri_token_bucket = λ key args. reply_only (token_bucket args tokens updated_at).outcome;
}

script_of_zero_rate :
    (args : Args) (tokens updated_at : Option ℕ)
    → args.refill_per_ms ≡ 0
    → (token_bucket args tokens updated_at).outcome ≡ none
unfolding token_bucket
script_of_zero_rate args tokens updated_at zero_rate = ground arith

abbrev affords : Args → Option ℕ → Option ℕ → Bool
affords args tokens updated_at =
    is_affordable args (refill args (read_bucket args tokens updated_at))

abbrev pub decision : Text → ConsumeInput → Service → Option ℕ → Option ℕ → Decision
decision namespace input s tokens updated_at =
    (consume namespace (some (redis_with tokens updated_at)) input s).0

module _ (namespace : Text) (input : ConsumeInput) (s : Service)
    (tokens updated_at : Option ℕ) where
  consume-redis :
      (consume namespace (some (redis_with tokens updated_at)) input s).0
      ≡ (answer input s (
          (redis_with tokens updated_at).iveri_token_bucket
            (key_of namespace input)
            (args_of input))).0
  consume-redis = consume-answer namespace input s (redis_with tokens updated_at) (inr refl)

  -- A policy of no requests a minute limits nothing: Redis refuses the infinite TTL that the
  -- script computes, so every request is let through and no decision is enforced.
  pub zero_rate_unlimited :
      input.policy.per_minute ≡ 0
      → decision namespace input s tokens updated_at ≡ unenforced input.policy
  zero_rate_unlimited zero_rate =
      consume-redis
      ∙ (rw (script_of_zero_rate (args_of input) tokens updated_at (unfold args_of in zero_rate))
          (answer-none namespace input s))
