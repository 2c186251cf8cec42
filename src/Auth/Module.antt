-- ===== src/Auth/Module.antt =====
-- src/auth/auth.module.ts and auth-module-options.interface.ts: how the options that a service gives
-- become the options of the JWT library, and what the guards let through by them.
--
-- The library is a parameter. Of it is assumed what it documents: it verifies only a token that is
-- signed with the secret, whose algorithm is one of `algorithms` and that has the `issuer` and the
-- `audience`, of which it does not check one that is the empty text.
mod Tests
use iveri_nest_sdk.Common.{
  ◌≡◌, ◌≢◌, ◌⊎◌, inl, inr, refl, sym, ap, ◌∙◌, Bool, true, false, Option, none, some, List, [], ◌∷◌,
  arith, any,
}
use iveri_nest_sdk.Common.Text.{Text, codes, includes, text_eq, text_eq_sound}
use iveri_nest_sdk.Auth.AccessToken.{
  ClaimValue, text, array, Claims, JwtResult, verified, PrincipalType, Rejection,
}
use iveri_nest_sdk.Auth.Guard.{
  AuthenticatedRequestContext, Request, ExecutionContext, is_public, read_bearer_token,
}
use iveri_nest_sdk.Auth.Permission.{run_guards}
use iveri_nest_sdk.Auth.Laws.{run_guards-IsFromToken}

pub data Algorithm : Type 0 where
  hs256 hs384 hs512 : Algorithm

pub record AuthModuleOptions : Type 0 where
  pub secret : Text
  pub issuer : Text
  pub audience : Text
  pub algorithm : Option Algorithm

abbrev algorithm_name : Algorithm → Text
algorithm_name hs256 = codes "HS256"
algorithm_name hs384 = codes "HS384"
algorithm_name hs512 = codes "HS512"

pub record VerifyOptions : Type 0 where
  pub algorithms : List Text
  pub issuer : Text
  pub audience : Text

-- Of `JwtModuleOptions`, what the module sets; there are no `signOptions`.
pub record JwtModuleOptions : Type 0 where
  pub secret : Text
  pub verify_options : VerifyOptions

-- `options.algorithm ?? 'HS256'`
abbrev accepted_algorithm : AuthModuleOptions → Text
accepted_algorithm options = elim options.algorithm [
  | none ↦ codes "HS256"
  | some a ↦ algorithm_name a
]

unfoldable pub jwt_module_options : AuthModuleOptions → JwtModuleOptions
jwt_module_options options = record {
  secret = options.secret;
  verify_options = record {
    algorithms = accepted_algorithm options ∷ [];
    issuer = options.issuer;
    audience = options.audience;
  };
}

-- The library: `new JwtService(options).verifyAsync`, the `alg` that a token's own header names, and
-- whether a token is signed with a secret.
pub record JwtLibrary : Type 0 where
  pub verify_async : JwtModuleOptions → Text → JwtResult
  pub header_algorithm : Text → Option Text
  pub is_signed_with : Text → Text → Bool

abbrev pub is_entry : Text → Option Text → Bool
is_entry audience none = false
is_entry audience (some entry) = text_eq entry audience

-- The claim is the audience, or an array that has it.
abbrev NamesAudience : Option ClaimValue → Text → Type 0
NamesAudience aud audience =
    (aud ≡ some (text audience))
    ⊎ ((entries : List (Option Text)) × (aud ≡ some (array entries))
        × (any (is_entry audience) entries ≡ true))

pub record IsJwtLibrary (lib : JwtLibrary) : Type 0 where
  pub algorithm :
      (o : JwtModuleOptions) (token : Text) (claims : Claims)
      → lib.verify_async o token ≡ verified claims
      → (a : Text) × (lib.header_algorithm token ≡ some a)
        × (includes o.verify_options.algorithms a ≡ true)
  pub signature :
      (o : JwtModuleOptions) (token : Text) (claims : Claims)
      → lib.verify_async o token ≡ verified claims
      → lib.is_signed_with token o.secret ≡ true
  pub issuer :
      (o : JwtModuleOptions) (token : Text) (claims : Claims)
      → lib.verify_async o token ≡ verified claims
      → o.verify_options.issuer ≢ []
      → claims.iss ≡ some (text o.verify_options.issuer)
  pub audience :
      (o : JwtModuleOptions) (token : Text) (claims : Claims)
      → lib.verify_async o token ≡ verified claims
      → o.verify_options.audience ≢ []
      → NamesAudience claims.aud o.verify_options.audience

-- The guards of a service that registered the module with these options.
unfoldable pub guarded :
    PrincipalType
    → JwtLibrary
    → AuthModuleOptions
    → ExecutionContext
    → Request
    → Rejection ⊎ (Bool × Request)
unfolding run_guards jwt_module_options
guarded kinds lib options context request =
    run_guards kinds (lib.verify_async (jwt_module_options options)) context request

-- The algorithms that tokens may be signed with, by the options: the one that is named, or HS256.
pub data Names : Option Algorithm → Text → Type 0 where
  unnamed : Names none (codes "HS256")
  named_256 : Names (some hs256) (codes "HS256")
  named_384 : Names (some hs384) (codes "HS384")
  named_512 : Names (some hs512) (codes "HS512")

Names-accepted :
    (options : AuthModuleOptions) → Names options.algorithm (accepted_algorithm options)
Names-accepted options =
    elim options.algorithm
      as (λ a. Names a (elim a [ none ↦ codes "HS256" | some a ↦ algorithm_name a ])) [
        | none ↦ unnamed
        | some hs256 ↦ named_256
        | some hs384 ↦ named_384
        | some hs512 ↦ named_512
      ]

-- A token that the module's options stand for.
pub record IsAccepted (lib : JwtLibrary) (options : AuthModuleOptions) (token : Text)
    (claims : Claims) : Type 0 where
  pub algorithm : (a : Text) × (lib.header_algorithm token ≡ some a) × Names options.algorithm a
  pub signature : lib.is_signed_with token options.secret ≡ true
  pub issuer : claims.iss ≡ some (text options.issuer)
  pub audience : NamesAudience claims.aud options.audience

only_one : (a b : Text) → includes (b ∷ []) a ≡ true → a ≡ b
only_one a b h = sym (text_eq_sound b a (ground arith))

verified-IsAccepted :
    (lib : JwtLibrary) (options : AuthModuleOptions) (token : Text) (claims : Claims)
    → IsJwtLibrary lib
    → options.issuer ≢ []
    → options.audience ≢ []
    → lib.verify_async (jwt_module_options options) token ≡ verified claims
    → IsAccepted lib options token claims
unfolding jwt_module_options
verified-IsAccepted lib options token claims law issuer audience h =
    let o = jwt_module_options options in
    let (a, named, listed) = law.algorithm o token claims h in
    record {
      algorithm = (
        accepted_algorithm options,
        named ∙ ap some (only_one a (accepted_algorithm options) listed),
        Names-accepted options,
      );
      signature = law.signature o token claims h;
      issuer = law.issuer o token claims h issuer;
      audience = law.audience o token claims h audience;
    }

-- Where the issuer and the audience of the options are not empty: whatever algorithm a token's own
-- header names, a request reaches the handler of a route that is
-- not public only with a token that names the one algorithm that the module was given, or HS256
-- where it was given none, that is signed with its secret and carries its issuer and its audience,
-- and the request's tenant is that token's.
pub guarded-IsAccepted :
    (kinds : PrincipalType) (lib : JwtLibrary) (options : AuthModuleOptions)
    (context : ExecutionContext) (request request' : Request)
    → IsJwtLibrary lib
    → options.issuer ≢ []
    → options.audience ≢ []
    → context.is_http ≡ true
    → is_public context ≡ false
    → guarded kinds lib options context request ≡ inr (true, request')
    → (token : Text) × (claims : Claims) × (granted : AuthenticatedRequestContext)
      × (read_bearer_token request.headers ≡ some token)
      × IsAccepted lib options token claims
      × (request'.context ≡ some granted)
      × (claims.tid ≡ some (text granted.tenant_id))
unfolding guarded
guarded-IsAccepted kinds lib options context request request' law issuer audience http closed h =
    let verify_async = lib.verify_async (jwt_module_options options) in
    let (granted, is_set, from, permitted) =
      run_guards-IsFromToken kinds verify_async context request request' http closed h in
    (
      from.token,
      from.claims,
      granted,
      from.is_borne,
      verified-IsAccepted lib options from.token from.claims law issuer audience from.is_verified,
      is_set,
      from.tenant,
    )
