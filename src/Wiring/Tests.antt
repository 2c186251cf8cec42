-- ===== src/Wiring/Tests.antt =====
-- A service that reads its options out of its own global ConfigService.
use iveri_nest_sdk.Common.{◌≡◌, refl, true, false, all, none, some, [], ◌∷◌}
use iveri_nest_sdk.Wiring.{
  Token, of_service, ModuleAsyncOptions, redis_module, error_reporter_module, metrics_module,
  object_storage_module, service_token_module, rate_limit_module, context_module,
  auth_module_for_root_async,
}
use iveri_nest_sdk.Wiring.Laws.{SdkOptions, sdk_modules, globals_of, is_resolved}

abbrev config_service : Token
config_service = of_service 1

abbrev from_config : ModuleAsyncOptions
from_config = record { imports = none; inject = some (config_service ∷ []) }

abbrev options : SdkOptions
options = record {
  redis = from_config;
  errors = from_config;
  storage = from_config;
  service_token = from_config;
  auth = some from_config;
}

resolved : all (is_resolved (globals_of options (config_service ∷ []))) (sdk_modules options) ≡ true
unfolding redis_module error_reporter_module metrics_module object_storage_module
    service_token_module rate_limit_module context_module auth_module_for_root_async
resolved = refl

-- The limiter needs the client that RedisModule exports to every module.
unresolved_alone : is_resolved [] rate_limit_module ≡ false
unfolding rate_limit_module
unresolved_alone = refl
