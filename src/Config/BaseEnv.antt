-- ===== src/Config/BaseEnv.antt =====
-- src/config/base-env.config.ts, environment.enum.ts and log-level.enum.ts: the variables that every
-- service has, as class-transformer and class-validator read the decorators of `BaseEnvConfig`.
--
-- Of JavaScript's `Number` it is an argument which text is which natural number; `none` is any other
-- number or NaN. The texts of the validator's messages are an argument too.
use iveri_nest_sdk.Common.{
  ℕ, ◌≤◌, ◌≡◌, ◌&&◌, Bool, true, false, leb, Option, none, some, List, [], ◌∷◌, ◌++◌, map,
}
use iveri_nest_sdk.Common.Text.{Text, codes, includes}
use iveri_nest_sdk.Config.{ValidationError}

pub data Environment : Type 0 where
  local test staging production : Environment

pub data LogLevel : Type 0 where
  trace debug info warn error fatal : LogLevel

abbrev environment_value : Environment → Text
environment_value local = codes "local"
environment_value test = codes "test"
environment_value staging = codes "staging"
environment_value production = codes "production"

abbrev pub log_level_value : LogLevel → Text
log_level_value trace = codes "trace"
log_level_value debug = codes "debug"
log_level_value info = codes "info"
log_level_value warn = codes "warn"
log_level_value error = codes "error"
log_level_value fatal = codes "fatal"

abbrev pub environments : List Text
environments = map environment_value (local ∷ test ∷ staging ∷ production ∷ [])

abbrev pub log_levels : List Text
log_levels = map log_level_value (trace ∷ debug ∷ info ∷ warn ∷ error ∷ fatal ∷ [])

-- The variables of the process, `none` where unset.
pub record RawEnv : Type 0 where
  pub node_env : Option Text
  pub port : Option Text
  pub log_level : Option Text

-- `port` is `none` where the variable is unset or is no natural number.
pub record BaseEnvConfig : Type 0 where
  pub node_env : Option Text
  pub port : Option ℕ
  pub log_level : Option Text

-- `plainToInstance`: `@Type(() => Number)` converts the port, and the initialiser stays where the
-- variable is unset.
unfoldable pub base_env_instance : (Text → Option ℕ) → RawEnv → BaseEnvConfig
base_env_instance number raw = record {
  node_env = raw.node_env;
  port = elim raw.port [ none ↦ none | some text ↦ number text ];
  log_level = elim raw.log_level [ none ↦ some (log_level_value info) | some text ↦ some text ];
}

abbrev pub is_enum : List Text → Option Text → Bool
is_enum values none = false
is_enum values (some value) = includes values value

-- `@IsInt() @Min(1) @Max(65535)`
abbrev pub is_port : Option ℕ → Bool
is_port none = false
is_port (some n) = leb 1 n && leb n 65535

-- `@IsOptional()`
abbrev pub is_optional_enum : List Text → Option Text → Bool
is_optional_enum values none = true
is_optional_enum values (some value) = includes values value

abbrev pub failing : Bool → Text → List Text → List ValidationError
failing true property messages = []
failing false property messages = record { property = property; constraints = some messages } ∷ []

-- `validateSync`, a service's own variables left aside.
unfoldable pub base_env_errors : (Text → List Text) → BaseEnvConfig → List ValidationError
base_env_errors messages config =
    failing (is_enum environments config.node_env) (codes "NODE_ENV") (messages (codes "NODE_ENV"))
    ++ failing (is_port config.port) (codes "PORT") (messages (codes "PORT"))
    ++ failing (is_optional_enum log_levels config.log_level) (codes "LOG_LEVEL")
        (messages (codes "LOG_LEVEL"))

-- What a service that starts can rely on.
pub record IsValidEnv (config : BaseEnvConfig) : Type 0 where
  pub environment : Text
  pub is_environment : config.node_env ≡ some environment
  pub is_known : includes environments environment ≡ true
  pub port : ℕ
  pub is_port : config.port ≡ some port
  pub at_least : 1 ≤ port
  pub at_most : port ≤ 65535
  pub level : Text
  pub is_level : config.log_level ≡ some level
  pub level_known : includes log_levels level ≡ true
