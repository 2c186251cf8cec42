-- ===== src/ServiceToken/Service.antt =====
-- src/service-token/service-token.service.ts. The HTTP exchange is an argument: its outcome.
use iveri_nest_sdk.Common.{
  ℕ, ◌+◌, ◌*◌, Bool, ◌&&◌, ◌||◌, not, ltb, leb, ◌==◌, Option, none, some, [], ◌∷◌, ◌++◌, ◌⊎◌, inl,
  inr, if◌then◌else◌,
}
use iveri_nest_sdk.Common.Text.{Text, codes}
use iveri_nest_sdk.Auth.Guard.{is_empty}

-- An absent URL or key stands as the empty text: the code treats both alike.
pub record ServiceTokenModuleOptions : Type 0 where
  pub identity_api_url : Text
  pub identity_api_key : Text
  pub refresh_skew_seconds : ℕ

pub record CachedToken : Type 0 where
  pub access_token : Text
  pub expires_at : ℕ

-- A response's body: for an object, its `accessToken` if that is a text and its `expiresInSeconds`
-- if that is a number, one below 0 standing as 0.
pub data Body : Type 0 where
  no_object : Body
  object : (access_token : Option Text) (expires_in_seconds : Option ℕ) → Body

-- What the HTTP client does: it fails, or there is a response of whatever status.
pub data Exchange : Type 0 where
  unreachable : Text → Exchange
  response : (status : ℕ) (body : Body) → Exchange

-- The `ExternalServiceException`s.
pub data Refusal : Type 0 where
  not_configured : Refusal
  not_reached : Text → Refusal
  refused : (status : ℕ) → Refusal
  not_valid : Refusal
  not_usable : Refusal

unfoldable pub is_configured : ServiceTokenModuleOptions → Bool
is_configured options =
    not (is_empty options.identity_api_url) && not (is_empty options.identity_api_key)

-- `replace(/\/+$/, '')`
abbrev keep_unless_slash : ℕ → Text → Text
keep_unless_slash c [] = if c == b'/' then [] else c ∷ []
keep_unless_slash c (d ∷ s) = c ∷ d ∷ s

unfoldable pub strip_slashes : Text → Text
strip_slashes [] = []
strip_slashes (c ∷ s) = keep_unless_slash c (strip_slashes s)

unfoldable pub token_url : ServiceTokenModuleOptions → Text
unfolding strip_slashes
token_url options = strip_slashes options.identity_api_url ++ codes "/api/v1/auth/token"

-- A token and its lifetime in seconds.
unfoldable pub narrow_token : Body → Refusal ⊎ (Text × ℕ)
narrow_token no_object = inl not_valid
narrow_token (object (some (c ∷ s)) (some seconds)) =
    if leb seconds 0 then inl not_usable else inr (c ∷ s, seconds)
narrow_token (object _ _) = inl not_usable

-- What `fetchToken` makes of the exchange.
unfoldable pub read_exchange : ServiceTokenModuleOptions → Exchange → Refusal ⊎ (Text × ℕ)
unfolding is_configured narrow_token
read_exchange options (unreachable reason) =
    if not (is_configured options) then inl not_configured else inl (not_reached reason)
read_exchange options (response status body) =
    if not (is_configured options)
    then inl not_configured
    else if ltb status 200 || leb 300 status
    then inl (refused status)
    else narrow_token body

-- The cache after `fetchToken` settles: a failure leaves what is there.
unfoldable pub cache_token : ℕ → Refusal ⊎ (Text × ℕ) → Option CachedToken → Option CachedToken
cache_token now (inl refusal) cached = cached
cache_token now (inr (token, seconds)) cached =
    some (record { access_token = token; expires_at = now + seconds * 1000 })

unfoldable pub is_fresh : ServiceTokenModuleOptions → ℕ → CachedToken → Bool
is_fresh options now cached = ltb (now + options.refresh_skew_seconds * 1000) cached.expires_at

-- What a call of `getAccessToken` gets: a token from the cache, or the exchange that it awaits.
pub data Answer : Type 0 where
  at_once : Text → Answer
  awaiting : ℕ → Answer

-- `this.inFlight ??= …`: the exchange under way, or a new one under the number `next`.
abbrev join_flight : (next : ℕ) → Option ℕ → ℕ
join_flight next none = next
join_flight next (some handle) = handle

unfoldable pub get_access_token :
    ServiceTokenModuleOptions → (now next : ℕ) → Option CachedToken → Option ℕ → Answer
unfolding is_fresh
get_access_token options now next none in_flight = awaiting (join_flight next in_flight)
get_access_token options now next (some cached) in_flight =
    if is_fresh options now cached
    then at_once cached.access_token
    else awaiting (join_flight next in_flight)
