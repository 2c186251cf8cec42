-- ===== src/Auth/Laws.antt =====
-- Who gets past the guards, and with which context.
use iveri_nest_sdk.Common.{
  inr-injective, inl-is_no-inr, ◌≡◌, ◌≢◌, ◌⊎◌, inl, inr, refl, sym, ap, ◌∙◌, Bool, true, false,
  Bool-cases, not, ◌||◌, Option, none, some, List, [], arith, all,
}
use iveri_nest_sdk.Common.Text.{Text, text_eq, text_eq_sound, includes}
use iveri_nest_sdk.Http.{Headers}
use iveri_nest_sdk.Auth.AccessToken.{
  text, Claims, JwtResult, verified, PrincipalType, AccessTokenPayload, Rejection, unauthenticated,
  permissions_of, verify,
}
use iveri_nest_sdk.Auth.Guard.{
  AuthenticatedRequestContext, Request, ExecutionContext, is_public, is_empty, read_bearer_token,
  context_of, authenticate, authenticate_token, admit,
}
use iveri_nest_sdk.Auth.Permission.{
  required_of, permit, check_permissions, run_guards, next_guard, with_request,
}
use iveri_nest_sdk.Auth.Narrow.{IsNarrowed, verify-IsNarrowed}
use iveri_nest_sdk.Auth.Gate.{permit-absent, next_guard-both, gated-granted}

-- The context of a request that bears a verified token: its tenant, its principal and its
-- permissions are the token's claims.
pub record IsFromToken (kinds : PrincipalType) (verify_async : Text → JwtResult) (headers : Headers)
    (context : AuthenticatedRequestContext) : Type 0 where
  pub token : Text
  pub is_borne : read_bearer_token headers ≡ some token
  pub claims : Claims
  pub is_verified : verify_async token ≡ verified claims
  pub tenant : claims.tid ≡ some (text context.tenant_id)
  pub tenant_named : is_empty context.tenant_id ≡ false
  pub subject : Text
  pub is_subject : claims.sub ≡ some (text subject)
  pub principal :
      (context.user_id ≡ some subject)
        × (context.api_key_id ≡ none)
        × (claims.pt ≡ some (text kinds.user))
      ⊎ (context.user_id ≡ none)
        × (context.api_key_id ≡ some subject)
        × (claims.pt ≡ some (text kinds.service))
  pub permissions : context.permissions ≡ permissions_of claims.perms

-- The tenant, the user, the API key and the permissions of a context.
abbrev pub Identity : Type 0
Identity = Text × Option Text × Option Text × List Text

abbrev identity_of : Option AuthenticatedRequestContext → Option Identity
identity_of none = none
identity_of (some c) = some (c.tenant_id, c.user_id, c.api_key_id, c.permissions)

principal_of-context :
    (kinds : PrincipalType) (headers : Headers) (claims : Claims) (payload : AccessTokenPayload)
    → IsNarrowed kinds claims payload
    → ((context_of kinds headers payload).user_id ≡ some payload.sub)
        × ((context_of kinds headers payload).api_key_id ≡ none)
        × (claims.pt ≡ some (text kinds.user))
      ⊎ ((context_of kinds headers payload).user_id ≡ none)
        × ((context_of kinds headers payload).api_key_id ≡ some payload.sub)
        × (claims.pt ≡ some (text kinds.service))
unfolding context_of
principal_of-context kinds headers claims payload n =
    elim (Bool-cases (text_eq payload.pt kinds.service)) [
      | inl e ↦ inr (rw e refl, rw e refl, n.pt ∙ ap (λ s. some (text s)) (text_eq_sound _ _ e))
      | inr e ↦ inl (
        rw e refl,
        rw e refl,
        n.pt
            ∙ ap (λ s. some (text s))
                (text_eq_sound payload.pt kinds.user (ground (arith, n.pt_known, e))),
      )
    ]

module _ (kinds : PrincipalType) (verify_async : Text → JwtResult) where
  token-context :
      (headers : Headers) (token : Text) (payload : AccessTokenPayload)
      → read_bearer_token headers ≡ some token
      → verify kinds verify_async token ≡ inr payload
      → IsFromToken kinds verify_async headers (context_of kinds headers payload)
  unfolding verify context_of
  token-context headers token payload borne h =
      let (claims, is_verified, n) = verify-IsNarrowed kinds (verify_async token) payload h in
      record {
        token = token;
        is_borne = borne;
        claims = claims;
        is_verified = is_verified;
        tenant = n.tid;
        tenant_named = n.tid_named;
        subject = payload.sub;
        is_subject = n.sub;
        principal = principal_of-context kinds headers claims payload n;
        permissions = n.perms;
      }

  -- What a guarded request gets out of the first guard.
  Admitted : Request → Request → Type 0
  Admitted request request' =
      (context : AuthenticatedRequestContext) × (request'.context ≡ some context)
      × IsFromToken kinds verify_async request.headers context

  admitted :
      (request request' : Request) (ok : Bool) (token : Text)
      (result : Rejection ⊎ AccessTokenPayload)
      → read_bearer_token request.headers ≡ some token
      → verify kinds verify_async token ≡ result
      → admit kinds request result ≡ inr (ok, request')
      → Admitted request request'
  unfolding admit Admitted
  admitted request request' ok token (inl error) borne v h = absurd (inl-is_no-inr h)
  admitted request request' ok token (inr payload) borne v h = (
    context_of kinds request.headers payload,
    sym (ap (λ p. p.1.context) (inr-injective h)),
    token-context request.headers token payload borne v,
  )

  answered :
      (request request' : Request) (ok : Bool) (bearer : Option Text)
      → read_bearer_token request.headers ≡ bearer
      → authenticate_token kinds verify_async request bearer ≡ inr (ok, request')
      → Admitted request request'
  unfolding authenticate_token
  answered request request' ok none borne h = absurd (inl-is_no-inr h)
  answered request request' ok (some token) borne h =
      admitted request request' ok token _ borne refl h

  -- On a route of HTTP that is not public the first guard looks at the token.
  authenticate-closed :
      (context : ExecutionContext) (request : Request)
      → context.is_http ≡ true
      → is_public context ≡ false
      → authenticate kinds verify_async context request
        ≡ authenticate_token kinds verify_async request (read_bearer_token request.headers)
  unfolding authenticate
  authenticate-closed context request http closed = rw (http, closed) refl

  authenticate-Admitted :
      (context : ExecutionContext) (request request' : Request) (ok : Bool)
      → context.is_http ≡ true
      → is_public context ≡ false
      → authenticate kinds verify_async context request ≡ inr (ok, request')
      → Admitted request request'
  authenticate-Admitted context request request' ok http closed h =
      answered request request' ok _ refl
        (sym (authenticate-closed context request http closed) ∙ h)

  authenticate-opened :
      (context : ExecutionContext) (request : Request)
      → (not context.is_http || is_public context) ≡ true
      → authenticate kinds verify_async context request ≡ inr (true, request)
  unfolding authenticate
  authenticate-opened context request opened = rw opened refl

  -- Who a payload says the caller is.
  identified : Rejection ⊎ AccessTokenPayload → Option Identity
  identified (inl error) = none
  identified (inr payload) = identity_of (some (context_of kinds [] payload))

  identified_bearer : Option Text → Option Identity
  identified_bearer none = none
  identified_bearer (some token) = identified (verify kinds verify_async token)

  identity-admit :
      (request r : Request) (ok : Bool) (result : Rejection ⊎ AccessTokenPayload)
      → admit kinds request result ≡ inr (ok, r)
      → identity_of r.context ≡ identified result
  unfolding admit identified context_of
  identity-admit request r ok (inl error) h = absurd (inl-is_no-inr h)
  identity-admit request r ok (inr payload) h =
      sym (ap (λ p. identity_of p.1.context) (inr-injective h))

  identity-answered :
      (request r : Request) (ok : Bool) (bearer : Option Text)
      → authenticate_token kinds verify_async request bearer ≡ inr (ok, r)
      → identity_of r.context ≡ identified_bearer bearer
  unfolding authenticate_token identified_bearer
  identity-answered request r ok none h = absurd (inl-is_no-inr h)
  identity-answered request r ok (some token) h = identity-admit request r ok _ h

  -- A request that reaches the handler of a route that is not public bears a verified token, its
  -- context is that token's, a tenant named and one principal of a known kind, and the token
  -- grants every permission that the route declares.
  pub run_guards-IsFromToken :
      (context : ExecutionContext) (request request' : Request)
      → context.is_http ≡ true
      → is_public context ≡ false
      → run_guards kinds verify_async context request ≡ inr (true, request')
      → (granted : AuthenticatedRequestContext) × (request'.context ≡ some granted)
        × IsFromToken kinds verify_async request.headers granted
        × (all (includes granted.permissions) (required_of context) ≡ true)
  unfolding run_guards Admitted
  run_guards-IsFromToken context request request' http closed h =
      let (first, gated) =
        next_guard-both context request' (authenticate kinds verify_async context request) h in
      let got = authenticate-Admitted context request request' true http closed first in
      (got.0, got.1, got.2, gated-granted context request' got.0 got.1 gated)

  -- What a route gets of its caller is a function of the token: whatever else two requests that
  -- bear one token carry, they are given one tenant, one principal and the same permissions.
  authenticate-token_only :
      (context context' : ExecutionContext)
      (request request' admitted_request admitted_request' : Request) (ok ok' : Bool)
      → (context.is_http ≡ true) × (is_public context ≡ false)
      → (context'.is_http ≡ true) × (is_public context' ≡ false)
      → read_bearer_token request.headers ≡ read_bearer_token request'.headers
      → authenticate kinds verify_async context request ≡ inr (ok, admitted_request)
      → authenticate kinds verify_async context' request' ≡ inr (ok', admitted_request')
      → identity_of admitted_request.context ≡ identity_of admitted_request'.context
  authenticate-token_only context context' request request' r r' ok ok' (http, closed)
        (http', closed') same h h' =
      identity-answered request r ok _ (sym (authenticate-closed context request http closed) ∙ h)
      ∙ ap identified_bearer same
      ∙ sym (
          identity-answered request' r' ok' _
            (sym (authenticate-closed context' request' http' closed') ∙ h'))

  -- A route that is gated by a permission and yet public, or that is not of HTTP, is closed to a
  -- request with no context.
  run_guards-closed :
      (context : ExecutionContext) (request : Request)
      → (not context.is_http || is_public context) ≡ true
      → required_of context ≢ []
      → request.context ≡ none
      → run_guards kinds verify_async context request
        ≡ inl (unauthenticated "Permission-gated route reached with no authenticated context")
  unfolding run_guards next_guard check_permissions
  run_guards-closed context request opened gated absent =
      ap (next_guard context) (authenticate-opened context request opened)
      ∙ ap (with_request request)
          (ap (permit (required_of context)) absent ∙ permit-absent (required_of context) gated)
