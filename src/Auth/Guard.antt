-- ===== src/Auth/Guard.antt =====
-- src/auth/auth.guard.ts: `AuthGuard` and what it reads of the request.
use iveri_nest_sdk.Common.{
  Bool, true, false, not, ◌||◌, Option, none, some, List, [], ◌∷◌, ◌⊎◌, inl, inr, if◌then◌else◌,
}
use iveri_nest_sdk.Common.Text.{Text, codes, text_eq, trim, before, after, to_lower_case}
use iveri_nest_sdk.Http.{Headers, read_header, truthy}
use iveri_nest_sdk.Auth.AccessToken.{
  JwtResult, PrincipalType, AccessTokenPayload, Rejection, unauthenticated, verify,
}

pub record AuthenticatedRequestContext : Type 0 where
  pub tenant_id : Text
  pub user_id : Option Text
  pub api_key_id : Option Text
  pub permissions : List Text
  pub locale : Text
  pub correlation_id : Text

-- The request, with the property that the guard sets.
pub record Request : Type 0 where
  pub headers : Headers
  pub context : Option AuthenticatedRequestContext

-- The execution context: whether it is of an HTTP request, and the metadata that the reflector
-- finds for the handler or its class.
pub record ExecutionContext : Type 0 where
  pub is_http : Bool
  pub public_metadata : Option Bool
  pub required_permissions : Option (List Text)

abbrev pub is_public : ExecutionContext → Bool
is_public context = elim context.public_metadata [ none ↦ false | some b ↦ b ]

abbrev pub is_empty : Text → Bool
is_empty [] = true
is_empty (c ∷ s) = false

abbrev or_else : Text → Text → Text
or_else [] t = t
or_else (c ∷ s) t = c ∷ s

unfoldable pub bearer_of : Text → Option Text
bearer_of header =
    let token = trim (after 32 header) in
    if not (text_eq (to_lower_case (before 32 header)) (codes "bearer")) || is_empty token
    then none
    else some token

unfoldable pub read_bearer_token : Headers → Option Text
unfolding bearer_of
read_bearer_token headers = elim (truthy (read_header headers "authorization")) [
  | none ↦ none
  | some header ↦ bearer_of header
]

unfoldable pub read_locale : Headers → Text
read_locale headers = elim (truthy (read_header headers "accept-language")) [
  | none ↦ codes "en"
  | some header ↦ or_else (trim (before b';' (before b',' header))) (codes "en")
]

abbrev or_empty : Option Text → Text
or_empty none = []
or_empty (some s) = s

unfoldable pub context_of :
    PrincipalType → Headers → AccessTokenPayload → AuthenticatedRequestContext
unfolding read_locale
context_of kinds headers payload =
    let is_service = text_eq payload.pt kinds.service in
    record {
      tenant_id = payload.tid;
      user_id = if is_service then none else some payload.sub;
      api_key_id = if is_service then some payload.sub else none;
      permissions = payload.perms;
      locale = read_locale headers;
      correlation_id = or_empty (read_header headers "x-correlation-id");
    }

-- The end of the guard, once the token is verified or refused.
unfoldable pub admit :
    PrincipalType → Request → Rejection ⊎ AccessTokenPayload → Rejection ⊎ (Bool × Request)
unfolding context_of
admit kinds request (inl error) = inl error
admit kinds request (inr payload) =
    inr (true, record request { context = some (context_of kinds request.headers payload) })

unfoldable pub authenticate_token :
    PrincipalType → (Text → JwtResult) → Request → Option Text → Rejection ⊎ (Bool × Request)
unfolding verify admit
authenticate_token kinds verify_async request none =
    inl (unauthenticated "No credentials presented")
authenticate_token kinds verify_async request (some token) =
    admit kinds request (verify kinds verify_async token)

-- `AuthGuard.canActivate`: the answer with the request as it leaves it, or what it throws.
unfoldable pub authenticate :
    PrincipalType → (Text → JwtResult) → ExecutionContext → Request → Rejection ⊎ (Bool × Request)
unfolding read_bearer_token authenticate_token
authenticate kinds verify_async context request =
    if not context.is_http || is_public context
    then inr (true, request)
    else authenticate_token kinds verify_async request (read_bearer_token request.headers)
