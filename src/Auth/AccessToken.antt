-- ===== src/Auth/AccessToken.antt =====
-- src/auth/access-token.service.ts. The JWT library is a parameter: what it says of a token.
use Prim.Native.String.{String}
use iveri_nest_sdk.Common.{ℕ, ◌||◌, Option, none, some, List, [], ◌∷◌, ◌⊎◌, inl, inr, if◌then◌else◌}
use iveri_nest_sdk.Common.Text.{Text, text_eq}

-- A claim's JSON value: of an array's entries, those that are no text are `none`.
pub data ClaimValue : Type 0 where
  text : Text → ClaimValue
  number : ℕ → ClaimValue
  array : List (Option Text) → ClaimValue
  other : ClaimValue

-- A claim that is missing is `none`.
pub record Claims : Type 0 where
  pub sub : Option ClaimValue
  pub tid : Option ClaimValue
  pub perms : Option ClaimValue
  pub pt : Option ClaimValue
  pub iat : Option ClaimValue
  pub exp : Option ClaimValue
  pub iss : Option ClaimValue
  pub aud : Option ClaimValue

-- What `verifyAsync` does: it resolves, or rejects with a `TokenExpiredError` or another error.
pub data JwtResult : Type 0 where
  verified : Claims → JwtResult
  expired : JwtResult
  invalid : JwtResult

-- The values of the contracts' `PrincipalType`.
pub record PrincipalType : Type 0 where
  pub user : Text
  pub service : Text

pub record AccessTokenPayload : Type 0 where
  pub sub : Text
  pub pt : Text
  pub tid : Text
  pub perms : List Text
  pub iat : Option ℕ
  pub exp : Option ℕ
  pub iss : Option Text
  pub aud : Option Text

-- The exceptions that the guards throw.
pub data Rejection : Type 0 where
  unauthenticated : String → Rejection
  token_expired : String → Rejection
  insufficient_permission : String → (required missing : List Text) → Rejection

-- A text that is not empty.
abbrev pub named : Option ClaimValue → Option Text
named (some (text (c ∷ s))) = some (c ∷ s)
named _ = none

abbrev text_claim : Option ClaimValue → Option Text
text_claim (some (text s)) = some s
text_claim _ = none

abbrev number_claim : Option ClaimValue → Option ℕ
number_claim (some (number n)) = some n
number_claim _ = none

abbrev pub texts : List (Option Text) → List Text
texts [] = []
texts (none ∷ entries) = texts entries
texts (some s ∷ entries) = s ∷ texts entries

abbrev pub permissions_of : Option ClaimValue → List Text
permissions_of (some (array entries)) = texts entries
permissions_of _ = []

unfoldable pub principal_of : PrincipalType → Option ClaimValue → Option Text
principal_of kinds (some (text s)) =
    if text_eq s kinds.user || text_eq s kinds.service then some s else none
principal_of kinds _ = none

-- The payload, once the subject, the tenant and the kind of principal are read.
unfoldable pub payload_of : Claims → (sub tid pt : Option Text) → Rejection ⊎ AccessTokenPayload
payload_of claims none _ _ =
    inl (unauthenticated "Access token is missing its subject or tenant claim")
payload_of claims (some sub) none _ =
    inl (unauthenticated "Access token is missing its subject or tenant claim")
payload_of claims (some sub) (some tid) none =
    inl (unauthenticated "Access token does not say what kind of principal it names")
payload_of claims (some sub) (some tid) (some pt) = inr (record {
  sub = sub;
  pt = pt;
  tid = tid;
  perms = permissions_of claims.perms;
  iat = number_claim claims.iat;
  exp = number_claim claims.exp;
  iss = text_claim claims.iss;
  aud = text_claim claims.aud;
})

unfoldable pub narrow_claims : PrincipalType → Claims → Rejection ⊎ AccessTokenPayload
unfolding principal_of payload_of
narrow_claims kinds claims =
    payload_of claims (named claims.sub) (named claims.tid) (principal_of kinds claims.pt)

unfoldable pub judge_token : PrincipalType → JwtResult → Rejection ⊎ AccessTokenPayload
unfolding narrow_claims
judge_token kinds (verified claims) = narrow_claims kinds claims
judge_token kinds expired = inl (token_expired "Access token has expired")
judge_token kinds invalid = inl (unauthenticated "Access token is not valid")

unfoldable pub verify : PrincipalType → (Text → JwtResult) → Text → Rejection ⊎ AccessTokenPayload
unfolding judge_token
verify kinds verify_async token = judge_token kinds (verify_async token)
