-- ===== src/Config/Started.antt =====
-- A service that starts has a valid environment.
use iveri_nest_sdk.Common.{
  ℕ, ◌≤◌, ◌≡◌, refl, arith, Bool, true, false, Option, none, some, List, [], ◌∷◌, ◌++◌, inl, inr,
  Option-cases, inr-injective, inl-is_no-inr,
}
use iveri_nest_sdk.Common.Text.{Text, includes}
use iveri_nest_sdk.Config.{ValidationError, judge, validate_env}
use iveri_nest_sdk.Config.BaseEnv.{
  RawEnv, BaseEnvConfig, base_env_instance, base_env_errors, IsValidEnv, is_enum, is_port, failing,
  is_optional_enum, environments, log_levels, log_level_value, info,
}

judge-inr :
    (instance' config : BaseEnvConfig) (errors : List ValidationError)
    → judge instance' errors ≡ inr config
    → (errors ≡ []) × (instance' ≡ config)
judge-inr instance' config [] h = (refl, inr-injective h)
judge-inr instance' config (e ∷ errors) h = absurd (inl-is_no-inr h)

no_failing :
    (a b c : Bool) (p q r : Text) (ms ns os : List Text)
    → (failing a p ms ++ failing b q ns ++ failing c r os) ≡ []
    → (a ≡ true) × (b ≡ true) × (c ≡ true)
no_failing true true true p q r ms ns os h = (refl, refl, refl)
no_failing true true false p q r ms ns os h = absurd (cc)
no_failing true false c p q r ms ns os h = absurd (cc)
no_failing false b c p q r ms ns os h = absurd (cc)

known :
    (values : List Text) (value : Option Text)
    → is_enum values value ≡ true
    → (v : Text) × (value ≡ some v) × (includes values v ≡ true)
known values none h = absurd (cc)
known values (some v) h = (v, refl, h)

in_range :
    (port : Option ℕ) → is_port port ≡ true → (n : ℕ) × (port ≡ some n) × (1 ≤ n) × (n ≤ 65535)
in_range none h = absurd (cc)
in_range (some n) h = (n, refl, ground arith, ground arith)

level_of :
    (number : Text → Option ℕ) (raw : RawEnv)
    → is_optional_enum log_levels (base_env_instance number raw).log_level ≡ true
    → (v : Text) × ((base_env_instance number raw).log_level ≡ some v)
      × (includes log_levels v ≡ true)
unfolding base_env_instance
level_of number raw h = elim (Option-cases raw.log_level) [
  | inl unset ↦ rw unset (log_level_value info, refl, refl)
  | inr (v, set) ↦ rw set (v, refl, rw set at h)
]

default :
    (number : Text → Option ℕ) (raw : RawEnv)
    → raw.log_level ≡ none
    → (base_env_instance number raw).log_level ≡ some (log_level_value info)
unfolding base_env_instance
default number raw unset = rw unset refl

-- A service starts only with one of the known environments, a port from 1 to 65535 and one of the
-- known levels, which is `info` where the variable is unset; it is the configuration that was read of
-- the variables.
validate_env-IsValidEnv :
    (number : Text → Option ℕ) (messages : Text → List Text) (raw : RawEnv) (config : BaseEnvConfig)
    → validate_env (base_env_instance number) (base_env_errors messages) raw ≡ inr config
    → IsValidEnv config
      × (config ≡ base_env_instance number raw)
      × (raw.log_level ≡ none → config.log_level ≡ some (log_level_value info))
unfolding validate_env base_env_errors
validate_env-IsValidEnv number messages raw config h =
    let read = base_env_instance number raw in
    let (none_fail, same) = judge-inr read config (base_env_errors messages read) h in
    let (env, port, level) =
      no_failing (is_enum environments read.node_env) (is_port read.port)
        (is_optional_enum log_levels read.log_level) _ _ _ _ _ _ none_fail in
    let (e, is_e, known_e) = known environments read.node_env env in
    let (n, is_n, low, high) = in_range read.port port in
    let (l, is_l, known_l) = level_of number raw level in
    rw (← same) (
      record {
        environment = e;
        is_environment = is_e;
        is_known = known_e;
        port = n;
        is_port = is_n;
        at_least = low;
        at_most = high;
        level = l;
        is_level = is_l;
        level_known = known_l;
      },
      refl,
      default number raw,
    )
