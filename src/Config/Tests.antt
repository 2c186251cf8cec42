-- ===== src/Config/Tests.antt =====
-- An environment with two errors.
use iveri_nest_sdk.Common.{ℕ, ◌≡◌, refl, Option, none, some, List, [], ◌∷◌, inl, inr, if◌then◌else◌}
use iveri_nest_sdk.Common.Text.{Text, codes, join, text_eq}
use iveri_nest_sdk.Config.{ValidationError, line_of, validate_env}
use iveri_nest_sdk.Config.BaseEnv.{RawEnv, BaseEnvConfig, base_env_instance, base_env_errors}

abbrev port : ValidationError
port = record {
  property = codes "PORT";
  constraints = some (codes "too large" ∷ codes "no integer" ∷ []);
}

abbrev nested : ValidationError
nested = record { property = codes "DATABASE"; constraints = none }

line_test : line_of port ≡ codes "  PORT: too large, no integer"
unfolding line_of
line_test = refl

abbrev instance_of : Text → Text
instance_of raw = raw

abbrev errors_of : Text → List ValidationError
errors_of config = port ∷ nested ∷ []

refused_test :
    validate_env instance_of errors_of (codes "raw")
    ≡ inl (codes "Invalid environment configuration:\n  PORT: too large, no integer\n  DATABASE: ")
unfolding validate_env line_of join
refused_test = refl

-- A service of which only the port is set apart from the environment.
abbrev number : Text → Option ℕ
number text = if text_eq text (codes "8080") then some 8080 else none

abbrev messages : Text → List Text
messages property = codes "invalid" ∷ []

abbrev raw_env : RawEnv
raw_env = record { node_env = some (codes "staging"); port = some (codes "8080"); log_level = none }

abbrev started_env : BaseEnvConfig
started_env = record {
  node_env = some (codes "staging");
  port = some 8080;
  log_level = some (codes "info");
}

starts :
    validate_env (base_env_instance number) (base_env_errors messages) raw_env ≡ inr started_env
unfolding validate_env base_env_instance base_env_errors
starts = refl

refuses :
    base_env_errors messages
      (base_env_instance number (record raw_env { port = some (codes "x"); log_level = some [] }))
    ≡ record { property = codes "PORT"; constraints = some (codes "invalid" ∷ []) }
      ∷ record { property = codes "LOG_LEVEL"; constraints = some (codes "invalid" ∷ []) }
      ∷ []
unfolding base_env_instance base_env_errors
refuses = refl
