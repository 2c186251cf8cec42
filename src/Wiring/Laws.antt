-- ===== src/Wiring/Laws.antt =====
-- What Nest asks of the modules of an application: that it can inject what each class wants, and
-- that a module exports only what it provides.
use iveri_nest_sdk.Common.{
  ◌≡◌, refl, arith, Bool, true, false, ◌&&◌, ◌||◌, not, any, all, Option, none, some, List, [], ◌∷◌,
  ◌++◌, map, Option-cases, inl, inr,
}
use iveri_nest_sdk.Wiring.{
  Token, has, ModuleImport, DynamicModule, ModuleAsyncOptions, imports_of, inject_of, redis_module,
  error_reporter_module, metrics_module, object_storage_module, service_token_module,
  rate_limit_module, context_module, auth_module_for_root, auth_module_for_root_async, http_module,
  redis_service, jwt_service, redis_module_options, rate_limit_module_options,
  error_reporter_module_options, metrics_module_options, object_storage_module_options,
  service_token_module_options, auth_module_options,
}

-- A service's configuration; of AuthModule, `none` is `forRoot`.
pub record SdkOptions : Type 0 where
  pub redis : ModuleAsyncOptions
  pub errors : ModuleAsyncOptions
  pub storage : ModuleAsyncOptions
  pub service_token : ModuleAsyncOptions
  pub auth : Option ModuleAsyncOptions

abbrev auth_module : Option ModuleAsyncOptions → DynamicModule
auth_module none = auth_module_for_root
auth_module (some options) = auth_module_for_root_async options

abbrev pub sdk_modules : SdkOptions → List DynamicModule
sdk_modules o =
    redis_module o.redis
    ∷ error_reporter_module o.errors
    ∷ metrics_module
    ∷ object_storage_module o.storage
    ∷ service_token_module o.service_token
    ∷ rate_limit_module
    ∷ context_module
    ∷ auth_module o.auth
    ∷ []

-- What global modules export, to every module.
abbrev global_exports : List DynamicModule → List Token
global_exports [] = []
global_exports (m ∷ modules) = elim m.is_global [
  | true ↦ m.exports ++ global_exports modules
  | false ↦ global_exports modules
]

-- What Nest finds for a class of the module: the module's own, what is global, what is imported.
abbrev is_injectable : List Token → DynamicModule → Token → Bool
is_injectable globals m token =
    has (map (λ p. p.provide) m.providers) token
    || has globals token
    || any (λ i. has i.exports token) m.imports

abbrev pub is_resolved : List Token → DynamicModule → Bool
is_resolved globals m =
    all (λ p. all (is_injectable globals m) p.inject) (m.providers ++ m.controllers)
    && all (has (map (λ p. p.provide) m.providers)) m.exports

-- What a factory wants is global or imported.
abbrev is_given : List Token → ModuleAsyncOptions → Bool
is_given globals o =
    all (λ t. has globals t || any (λ i. has i.exports t) (imports_of o)) (inject_of o)

all_mono :
    (p q : Token → Bool) (ts : List Token)
    → ((t : Token) → p t ≡ true → q t ≡ true)
    → all p ts ≡ true
    → all q ts ≡ true
all_mono p q [] f h = refl
all_mono p q (t ∷ ts) f h = ground (arith, h, f t, all_mono p q ts f)

any-append :
    (p : ModuleImport → Bool) (is js : List ModuleImport)
    → any p (is ++ js) ≡ (any p is || any p js)
any-append p [] js = refl
any-append p (i ∷ is) js = ground (arith, any-append p is js)

widen :
    (own globals before imports : Bool)
    → (globals || imports) ≡ true
    → (own || globals || (before || imports)) ≡ true
widen own globals before imports h = ground arith

module _ (globals : List Token) (o : ModuleAsyncOptions) (given : is_given globals o ≡ true) where
  factory-resolved :
      (own : List Token) (before : List ModuleImport)
      → all
          (λ t. has own t || has globals t || any (λ i. has i.exports t) (before ++ imports_of o))
          (inject_of o)
        ≡ true
  factory-resolved own before =
      all_mono _ _ (inject_of o)
        (λ t h. rw (any-append (λ i. has i.exports t) before (imports_of o)) (
          widen (has own t) (has globals t) (any (λ i. has i.exports t) before)
            (any (λ i. has i.exports t) (imports_of o)) h))
        given

  redis-resolved : is_resolved globals (redis_module o) ≡ true
  unfolding redis_module
  redis-resolved = rw (factory-resolved (map (λ p. p.provide) (redis_module o).providers) []) refl

  errors-resolved : is_resolved globals (error_reporter_module o) ≡ true
  unfolding error_reporter_module
  errors-resolved =
      rw (factory-resolved (map (λ p. p.provide) (error_reporter_module o).providers) []) refl

  storage-resolved : is_resolved globals (object_storage_module o) ≡ true
  unfolding object_storage_module
  storage-resolved =
      rw (factory-resolved (map (λ p. p.provide) (object_storage_module o).providers) []) refl

  service_token-resolved : is_resolved globals (service_token_module o) ≡ true
  unfolding service_token_module
  service_token-resolved =
      rw
        (factory-resolved (map (λ p. p.provide) (service_token_module o).providers)
          (http_module ∷ []))
        (ground arith)

  auth-resolved : is_resolved globals (auth_module_for_root_async o) ≡ true
  unfolding auth_module_for_root_async
  auth-resolved =
      rw (factory-resolved (map (λ p. p.provide) (auth_module_for_root_async o).providers) []) refl

abbrev is_given_auth : List Token → Option ModuleAsyncOptions → Bool
is_given_auth globals none = true
is_given_auth globals (some o) = is_given globals o

auth_module-resolved :
    (globals : List Token) (auth : Option ModuleAsyncOptions)
    → is_given_auth globals auth ≡ true
    → is_resolved globals (auth_module auth) ≡ true
unfolding auth_module_for_root
auth_module-resolved globals none h = refl
auth_module-resolved globals (some o) h = auth-resolved globals o h

metrics-resolved : (globals : List Token) → is_resolved globals metrics_module ≡ true
unfolding metrics_module
metrics-resolved globals = refl

context-resolved : (globals : List Token) → is_resolved globals context_module ≡ true
unfolding context_module
context-resolved globals = refl

rate_limit-resolved :
    (globals : List Token)
    → has globals redis_service ≡ true
    → is_resolved globals rate_limit_module ≡ true
unfolding rate_limit_module
rate_limit-resolved globals h = rw h refl

-- What the SDK and the service's own global modules export.
abbrev pub globals_of : SdkOptions → List Token → List Token
globals_of o of_the_service = global_exports (sdk_modules o) ++ of_the_service

redis-IsGlobal :
    (o : SdkOptions) (of_the_service : List Token)
    → has (globals_of o of_the_service) redis_service ≡ true
unfolding redis_module
redis-IsGlobal o of_the_service = refl

-- Where each of the service's factories injects only what is global or what its `imports` export,
-- Nest can inject whatever any class of the SDK's modules wants, AuthModule registered in either
-- way, and no module exports what it does not provide.
sdk_modules-resolved :
    (o : SdkOptions) (of_the_service : List Token)
    → is_given (globals_of o of_the_service) o.redis ≡ true
    → is_given (globals_of o of_the_service) o.errors ≡ true
    → is_given (globals_of o of_the_service) o.storage ≡ true
    → is_given (globals_of o of_the_service) o.service_token ≡ true
    → is_given_auth (globals_of o of_the_service) o.auth ≡ true
    → all (is_resolved (globals_of o of_the_service)) (sdk_modules o) ≡ true
sdk_modules-resolved o of_the_service redis errors storage service_token auth =
    let globals = globals_of o of_the_service in
    rw
      (
        redis-resolved globals o.redis redis,
        errors-resolved globals o.errors errors,
        metrics-resolved globals,
        storage-resolved globals o.storage storage,
        service_token-resolved globals o.service_token service_token,
        rate_limit-resolved globals (redis-IsGlobal o of_the_service),
        context-resolved globals,
        auth_module-resolved globals o.auth auth,
      )
      refl

-- The tokens whose values hold a secret or could sign with one.
abbrev pub secrets : List Token
secrets =
    redis_module_options ∷ rate_limit_module_options ∷ error_reporter_module_options
    ∷ metrics_module_options ∷ object_storage_module_options ∷ service_token_module_options
    ∷ auth_module_options ∷ jwt_service ∷ []

-- Whatever the configuration, no module of the SDK exports its options or the `JwtService`, which
-- holds the signing secret: the rest of the service cannot inject them.
sdk_modules-private :
    (o : SdkOptions) → all (λ m. all (λ t. not (has secrets t)) m.exports) (sdk_modules o) ≡ true
unfolding redis_module error_reporter_module metrics_module object_storage_module
    service_token_module rate_limit_module context_module auth_module_for_root
    auth_module_for_root_async
sdk_modules-private o = elim (Option-cases o.auth) [
  | inl for_root ↦ rw for_root refl
  | inr (options, for_root_async) ↦ rw for_root_async refl
]
