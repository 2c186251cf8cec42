-- ===== src/Redis.antt =====
-- src/redis: the one connection of a process, and the throttle on the lines about its errors.
--
-- `ioredis` is a parameter: `connect` stands for `new Redis(url, options)`.
pub mod Throttle
mod Tests
use iveri_nest_sdk.Common.{
  ℕ, ◌+◌, ◌*◌, min, Bool, true, false, ltb, Option, none, some, List, [], ◌∷◌, if◌then◌else◌,
}
use iveri_nest_sdk.Common.Text.{Text}

abbrev pub redis_error_log_interval_ms : ℕ
redis_error_log_interval_ms = 60000

abbrev redis_reconnect_max_delay_ms : ℕ
redis_reconnect_max_delay_ms = 5000

abbrev redis_connect_timeout_ms : ℕ
redis_connect_timeout_ms = 5000

abbrev redis_default_command_timeout_ms : ℕ
redis_default_command_timeout_ms = 1000

pub record RedisModuleOptions : Type 0 where
  pub url : Option Text
  pub command_timeout_ms : Option ℕ

-- What the client is told, the function of the reconnect delay included.
pub record RedisOptions : Type 0 where
  pub enable_offline_queue : Bool
  pub max_retries_per_request : ℕ
  pub connect_timeout : ℕ
  pub command_timeout : ℕ
  pub retry_strategy : ℕ → ℕ

abbrev retry_strategy : ℕ → ℕ
retry_strategy attempt = min (attempt * 200) redis_reconnect_max_delay_ms

abbrev redis_options : RedisModuleOptions → RedisOptions
redis_options options = record {
  enable_offline_queue = false;
  max_retries_per_request = 1;
  connect_timeout = redis_connect_timeout_ms;
  command_timeout = elim options.command_timeout_ms [
    | none ↦ redis_default_command_timeout_ms
    | some ms ↦ ms
  ];
  retry_strategy = retry_strategy;
}

pub record RedisService (Redis : Type 0) : Type 0 where
  pub client : Option Redis
  pub last_error_logged_at : ℕ
  pub suppressed_error_count : ℕ

-- A line of the log about a connection error, with the instant of its writing.
pub record ErrorLine : Type 0 where
  pub at : ℕ
  pub error : Text
  pub suppressed_since_last_log : ℕ

-- What the shutdown asks of the client.
pub data ClientCall : Type 0 where
  quit : ClientCall
  disconnect : ClientCall

module _ {Redis : Type 0} (connect : Text → RedisOptions → Redis) where
  -- No URL, or an empty one, is a service without a client.
  unfoldable pub construct : RedisModuleOptions → RedisService Redis
  construct options = record {
    client = elim options.url [
      | none ↦ none
      | some [] ↦ none
      | some (c ∷ url) ↦ some (connect (c ∷ url) (redis_options options))
    ];
    last_error_logged_at = 0;
    suppressed_error_count = 0;
  }

module _ {Redis : Type 0} where
  unfoldable pub get_client : RedisService Redis → Option Redis
  get_client service = service.client

  unfoldable pub is_configured : RedisService Redis → Bool
  is_configured service = elim service.client [ none ↦ false | some client ↦ true ]

  -- A `quit` that is rejected is followed by `disconnect`.
  unfoldable pub on_application_shutdown :
      (quit_rejected : Bool) → RedisService Redis → List ClientCall
  on_application_shutdown quit_rejected service = elim service.client [
    | none ↦ []
    | some client ↦ if quit_rejected then quit ∷ disconnect ∷ [] else quit ∷ []
  ]

  -- The service after a connection error, and the line that is written for it, if one is.
  unfoldable pub log_connection_error :
      (now : ℕ) (error : Text) → RedisService Redis → RedisService Redis × Option ErrorLine
  log_connection_error now error service =
      if ltb now (service.last_error_logged_at + redis_error_log_interval_ms)
      then (record service { suppressed_error_count = service.suppressed_error_count + 1 }, none)
      else (
        record service { last_error_logged_at = now; suppressed_error_count = 0 },
        some (record {
          at = now;
          error = error;
          suppressed_since_last_log = service.suppressed_error_count;
        }),
      )
