-- ===== src/RateLimit/Service.antt =====
-- src/rate-limit/rate-limit.service.ts: one decision, with or without Redis.
pub mod Laws
use iveri_nest_sdk.Common.{ℕ, ◌+◌, ◌*◌, Bool, true, false, Option, none, some, ◌==◌, if◌then◌else◌}
use iveri_nest_sdk.Common.Text.{Text}
use iveri_nest_sdk.RateLimit.Key.{build_rate_limit_key}
use iveri_nest_sdk.RateLimit.Bucket.{Args, Reply, grains_per_token, ceil_div}

pub record Policy : Type 0 where
  pub per_minute : ℕ
  pub burst : ℕ

pub record ConsumeInput : Type 0 where
  pub scope : Text
  pub hash_tag : Text
  pub suffix : Option Text
  pub policy : Policy
  pub now : ℕ

pub record Decision : Type 0 where
  pub is_allowed : Bool
  pub is_enforced : Bool
  pub limit : ℕ
  pub remaining : ℕ
  pub retry_after_seconds : ℕ

-- The ioredis client: whether it takes the custom command, and what the command replies at a key;
-- `none` is a rejected promise.
pub record Client : Type 0 where
  pub takes_command : Bool
  pub iveri_token_bucket : Text → Args → Option Reply

-- `isCommandDefined`, and the number of failed checks that were logged.
pub record Service : Type 0 where
  pub is_command_defined : Bool
  pub error_logs : ℕ

-- `perMinute / 60000` tokens for each millisecond are `perMinute` grains.
unfoldable to_refill_per_ms : Policy → ℕ
to_refill_per_ms policy = policy.per_minute

unfoldable pub unenforced : Policy → Decision
unenforced policy = record {
  is_allowed = true;
  is_enforced = false;
  limit = policy.burst;
  remaining = policy.burst;
  retry_after_seconds = 0;
}

-- `none` where `defineCommand` throws.
unfoldable define_command_once : Client → Service → Option Service
define_command_once client s =
    if s.is_command_defined
    then some s
    else if client.takes_command
    then some (record s { is_command_defined = true })
    else none

unfoldable pub args_of : ConsumeInput → Args
unfolding to_refill_per_ms
args_of input = record {
  capacity = input.policy.burst * grains_per_token;
  refill_per_ms = to_refill_per_ms input.policy;
  now = input.now;
  cost = grains_per_token;
}

unfoldable pub key_of : Text → ConsumeInput → Text
key_of namespace input = build_rate_limit_key (record {
  namespace = namespace;
  scope = input.scope;
  hash_tag = input.hash_tag;
  suffix = input.suffix;
})

unfoldable pub decide : Policy → Reply → Decision
unfolding ceil_div
decide policy reply = record {
  is_allowed = reply.allowed == 1;
  is_enforced = true;
  limit = policy.burst;
  remaining = reply.remaining;
  retry_after_seconds = ceil_div reply.retry_after_ms 1000;
}

unfoldable pub failed : Policy → Service → Decision × Service
unfolding unenforced
failed policy s = (unenforced policy, record s { error_logs = s.error_logs + 1 })

unfoldable pub answer : ConsumeInput → Service → Option Reply → Decision × Service
unfolding decide failed
answer input s (some reply) = (decide input.policy reply, s)
answer input s none = failed input.policy s

-- The body of the `try`, from `defineCommandOnce` on.
unfoldable pub check : Text → Client → ConsumeInput → Option Service → Service → Decision × Service
unfolding answer failed
check namespace client input (some s) _ =
    answer input s (client.iveri_token_bucket (key_of namespace input) (args_of input))
check namespace client input none s = failed input.policy s

unfoldable pub consume : Text → Option Client → ConsumeInput → Service → Decision × Service
unfolding check define_command_once unenforced
consume namespace none input s = (unenforced input.policy, s)
consume namespace (some client) input s =
    check namespace client input (define_command_once client s) s
