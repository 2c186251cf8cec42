-- ===== src/Wiring.antt =====
-- The modules of the SDK as Nest registers them: redis/redis.module.ts, auth/auth.module.ts,
-- observability/error/error-reporter.module.ts, observability/metrics/metrics.module.ts,
-- storage/object-storage.module.ts, service-token/service-token.module.ts,
-- rate-limit/rate-limit.module.ts and context/context.module.ts under src, and what the constructors
-- of their classes inject. HealthModule stands in Health.Module.
--
-- A class or an injection token is a `Token`. What a factory computes of what it injects is left
-- out: only the names count here.
pub mod Laws
pub mod Tests
use iveri_nest_sdk.Common.{
  ℕ, ◌+◌, ◌==◌, Bool, true, false, ◌&&◌, any, all, Option, none, some, List, [], ◌∷◌, ◌++◌, map,
  select,
}

pub data Token : Type 0 where
  redis_module_options redis_service : Token
  rate_limit_module_options rate_limit_service : Token
  error_reporter_module_options error_reporter_service : Token
  metrics_module_options metrics_service retention_sweep_metrics : Token
  http_metrics_middleware metrics_controller : Token
  object_storage_module_options object_storage_service : Token
  service_token_module_options service_token_service http_service : Token
  auth_module_options jwt_service access_token_service : Token
  correlation_id_service correlation_id_middleware : Token
  of_service : ℕ → Token

abbrev number_of : Token → ℕ
number_of Token.redis_module_options = 0
number_of Token.redis_service = 1
number_of Token.rate_limit_module_options = 2
number_of Token.rate_limit_service = 3
number_of Token.error_reporter_module_options = 4
number_of Token.error_reporter_service = 5
number_of Token.metrics_module_options = 6
number_of Token.metrics_service = 7
number_of Token.retention_sweep_metrics = 8
number_of Token.http_metrics_middleware = 9
number_of Token.metrics_controller = 10
number_of Token.object_storage_module_options = 11
number_of Token.object_storage_service = 12
number_of Token.service_token_module_options = 13
number_of Token.service_token_service = 14
number_of Token.http_service = 15
number_of Token.auth_module_options = 16
number_of Token.jwt_service = 17
number_of Token.access_token_service = 18
number_of Token.correlation_id_service = 19
number_of Token.correlation_id_middleware = 20
number_of (of_service n) = 21 + n

abbrev pub has : List Token → Token → Bool
has tokens token = any (λ t. number_of t == number_of token) tokens

-- What is provided, and what has to be injected for it.
pub record Provider : Type 0 where
  pub provide : Token
  pub inject : List Token

abbrev provider : Token → List Token → Provider
provider token inject = record { provide = token; inject = inject }

-- An imported module, by what it exports.
pub record ModuleImport : Type 0 where
  pub exports : List Token

pub record DynamicModule : Type 0 where
  pub is_global : Bool
  pub imports : List ModuleImport
  pub controllers : List Provider
  pub providers : List Provider
  pub exports : List Token

-- `imports?`, and what `useFactory` is given by `inject?`.
pub record ModuleAsyncOptions : Type 0 where
  pub imports : Option (List ModuleImport)
  pub inject : Option (List Token)

abbrev pub imports_of : ModuleAsyncOptions → List ModuleImport
imports_of options = elim options.imports [ none ↦ [] | some imports ↦ imports ]

abbrev pub inject_of : ModuleAsyncOptions → List Token
inject_of options = elim options.inject [ none ↦ [] | some inject ↦ inject ]

-- The classes, with what their constructors inject.
abbrev redis_service_class : Provider
redis_service_class = provider redis_service (redis_module_options ∷ [])

abbrev rate_limit_service_class : Provider
rate_limit_service_class =
    provider rate_limit_service (redis_service ∷ rate_limit_module_options ∷ [])

abbrev error_reporter_service_class : Provider
error_reporter_service_class = provider error_reporter_service (error_reporter_module_options ∷ [])

abbrev metrics_service_class : Provider
metrics_service_class = provider metrics_service (metrics_module_options ∷ [])

abbrev retention_sweep_metrics_class : Provider
retention_sweep_metrics_class = provider retention_sweep_metrics (metrics_service ∷ [])

abbrev http_metrics_middleware_class : Provider
http_metrics_middleware_class =
    provider http_metrics_middleware (metrics_module_options ∷ metrics_service ∷ [])

abbrev metrics_controller_class : Provider
metrics_controller_class = provider metrics_controller (metrics_service ∷ [])

abbrev object_storage_service_class : Provider
object_storage_service_class = provider object_storage_service (object_storage_module_options ∷ [])

abbrev service_token_service_class : Provider
service_token_service_class =
    provider service_token_service (service_token_module_options ∷ http_service ∷ [])

abbrev access_token_service_class : Provider
access_token_service_class = provider access_token_service (jwt_service ∷ [])

abbrev correlation_id_service_class : Provider
correlation_id_service_class = provider correlation_id_service []

abbrev correlation_id_middleware_class : Provider
correlation_id_middleware_class = provider correlation_id_middleware (correlation_id_service ∷ [])

unfoldable pub redis_module : ModuleAsyncOptions → DynamicModule
redis_module options = record {
  is_global = true;
  imports = imports_of options;
  controllers = [];
  providers = provider redis_module_options (inject_of options) ∷ redis_service_class ∷ [];
  exports = redis_service ∷ [];
}

unfoldable pub error_reporter_module : ModuleAsyncOptions → DynamicModule
error_reporter_module options = record {
  is_global = true;
  imports = imports_of options;
  controllers = [];
  providers =
      provider error_reporter_module_options (inject_of options)
      ∷ error_reporter_service_class
      ∷ [];
  exports = error_reporter_service ∷ [];
}

-- `forRoot`: the options are a value.
unfoldable pub metrics_module : DynamicModule
metrics_module = record {
  is_global = true;
  imports = [];
  controllers = metrics_controller_class ∷ [];
  providers =
      provider metrics_module_options []
      ∷ metrics_service_class
      ∷ retention_sweep_metrics_class
      ∷ http_metrics_middleware_class
      ∷ [];
  exports = metrics_service ∷ retention_sweep_metrics ∷ [];
}

unfoldable pub object_storage_module : ModuleAsyncOptions → DynamicModule
object_storage_module options = record {
  is_global = false;
  imports = imports_of options;
  controllers = [];
  providers =
      provider object_storage_module_options (inject_of options)
      ∷ object_storage_service_class
      ∷ [];
  exports = object_storage_service ∷ [];
}

-- `HttpModule` of @nestjs/axios, which exports `HttpService`.
abbrev pub http_module : ModuleImport
http_module = record { exports = http_service ∷ [] }

unfoldable pub service_token_module : ModuleAsyncOptions → DynamicModule
service_token_module options = record {
  is_global = true;
  imports = http_module ∷ imports_of options;
  controllers = [];
  providers =
      provider service_token_module_options (inject_of options) ∷ service_token_service_class ∷ [];
  exports = service_token_service ∷ [];
}

unfoldable pub rate_limit_module : DynamicModule
rate_limit_module = record {
  is_global = true;
  imports = [];
  controllers = [];
  providers = provider rate_limit_module_options [] ∷ rate_limit_service_class ∷ [];
  exports = rate_limit_service ∷ [];
}

unfoldable pub context_module : DynamicModule
context_module = record {
  is_global = true;
  imports = [];
  controllers = [];
  providers = correlation_id_service_class ∷ correlation_id_middleware_class ∷ [];
  exports = correlation_id_service ∷ correlation_id_middleware ∷ [];
}

-- `AuthModule.build`: `forRoot` gives it a value, and `forRootAsync` a factory with its imports.
unfoldable build_auth_module : Provider → Option (List ModuleImport) → DynamicModule
build_auth_module options_provider imports = record {
  is_global = true;
  imports = elim imports [ none ↦ [] | some imports' ↦ imports' ];
  controllers = [];
  providers =
      options_provider
      ∷ provider jwt_service (auth_module_options ∷ [])
      ∷ access_token_service_class
      ∷ [];
  exports = access_token_service ∷ [];
}

unfoldable pub auth_module_for_root : DynamicModule
unfolding build_auth_module
auth_module_for_root = build_auth_module (provider auth_module_options []) none

unfoldable pub auth_module_for_root_async : ModuleAsyncOptions → DynamicModule
unfolding build_auth_module
auth_module_for_root_async options =
    build_auth_module (provider auth_module_options (inject_of options)) options.imports
