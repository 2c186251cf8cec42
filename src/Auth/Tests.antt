-- ===== src/Auth/Tests.antt =====
-- A token that two requests bear, and witnesses.
use iveri_nest_sdk.Common.{
  ◌≡◌, ◌≢◌, inr, refl, true, Option, none, some, [], ◌∷◌, if◌then◌else◌, all,
}
use iveri_nest_sdk.Common.Text.{
  Text, codes, text_eq, includes, to_lower_case, before, after, trim, is_space,
}
use iveri_nest_sdk.Http.{single, repeated, read_header}
use iveri_nest_sdk.Auth.AccessToken.{
  Claims, text, number, array, JwtResult, verified, expired, invalid, PrincipalType, principal_of,
  payload_of, narrow_claims, judge_token, verify,
}
use iveri_nest_sdk.Auth.Guard.{
  Request, ExecutionContext, AuthenticatedRequestContext, bearer_of, read_bearer_token, read_locale,
  context_of, admit, authenticate_token, authenticate,
}
use iveri_nest_sdk.Auth.Permission.{
  missing_of, permit, required_of, check_permissions, next_guard, run_guards,
}
use iveri_nest_sdk.Auth.Laws.{IsFromToken, run_guards-IsFromToken}

abbrev pub kinds : PrincipalType
kinds = record { user = codes "user"; service = codes "service" }

abbrev pub claims : Claims
claims = record {
  sub = some (text (codes "k1"));
  tid = some (text (codes "t1"));
  perms = some (array (some (codes "read") ∷ none ∷ some (codes "write") ∷ []));
  pt = some (text (codes "service"));
  iat = some (number 1);
  exp = none;
  iss = none;
  aud = none;
}

-- A library that knows one token.
abbrev jwt : Text → JwtResult
jwt token =
    if text_eq token (codes "abc")
    then verified claims
    else if text_eq token (codes "old")
    then expired
    else invalid

abbrev pub gated : ExecutionContext
gated = record {
  is_http = true;
  public_metadata = none;
  required_permissions = some (codes "write" ∷ []);
}

abbrev contradictory : ExecutionContext
contradictory = record {
  is_http = true;
  public_metadata = some true;
  required_permissions = some (codes "write" ∷ []);
}

abbrev pub request : Request
request = record { headers = ("authorization", single (codes "bEARER  abc ")) ∷ []; context = none }

abbrev other_request : Request
other_request = record {
  headers =
      ("authorization", repeated (codes "Bearer abc" ∷ []))
      ∷ ("x-tenant-id", single (codes "t2"))
      ∷ ("accept-language", single (codes "fr-CH;q=0.9, en"))
      ∷ [];
  context = none;
}

abbrev pub granted : Text → AuthenticatedRequestContext
granted locale = record {
  tenant_id = codes "t1";
  user_id = none;
  api_key_id = some (codes "k1");
  permissions = codes "read" ∷ codes "write" ∷ [];
  locale = locale;
  correlation_id = [];
}

enters :
    run_guards kinds jwt gated request
    ≡ inr (true, record request { context = some (granted (codes "en")) })
unfolding run_guards next_guard check_permissions permit missing_of authenticate authenticate_token
    admit verify judge_token narrow_claims payload_of principal_of context_of read_locale
    read_bearer_token bearer_of read_header to_lower_case before trim after is_space
enters = refl

first_guard :
    authenticate kinds jwt gated request
    ≡ inr (true, record request { context = some (granted (codes "en")) })
unfolding authenticate authenticate_token admit verify judge_token narrow_claims payload_of
    principal_of context_of read_locale read_bearer_token bearer_of read_header to_lower_case before
    trim after is_space
first_guard = refl

other_first_guard :
    authenticate kinds jwt gated other_request
    ≡ inr (true, record other_request { context = some (granted (codes "fr-CH")) })
unfolding authenticate authenticate_token admit verify judge_token narrow_claims payload_of
    principal_of context_of read_locale read_bearer_token bearer_of read_header to_lower_case before
    trim after is_space
other_first_guard = refl

same_token : read_bearer_token request.headers ≡ read_bearer_token other_request.headers
unfolding read_bearer_token bearer_of read_header to_lower_case before trim after is_space
same_token = refl

run_guards-IsFromToken_example :
    (c : AuthenticatedRequestContext) × (Option.some (granted (codes "en")) ≡ some c)
    × IsFromToken kinds jwt request.headers c
    × (all (includes c.permissions) (codes "write" ∷ []) ≡ true)
run_guards-IsFromToken_example =
    run_guards-IsFromToken kinds jwt gated request
      (record request { context = some (granted (codes "en")) }) refl refl enters

needs_write : required_of contradictory ≢ []
needs_write h = absurd (cc)
