-- ===== src/Auth/Gate.antt =====
-- What it takes to pass the permission guard.
use iveri_nest_sdk.Common.{
  inr-injective, inl-is_no-inr, ◌≡◌, ◌≢◌, ◌⊎◌, inl, inr, refl, sym, ap, ◌∙◌, Bool, true, false,
  Bool-cases, not, none, some, List, [], ◌∷◌, arith, select, all,
}
use iveri_nest_sdk.Common.Text.{Text, includes}
use iveri_nest_sdk.Auth.AccessToken.{Rejection, unauthenticated}
use iveri_nest_sdk.Auth.Guard.{AuthenticatedRequestContext, Request, ExecutionContext}
use iveri_nest_sdk.Auth.Permission.{
  required_of, missing_of, judge, permit, check_permissions, next_guard, with_request,
}

pub permit-absent :
    (required : List Text)
    → required ≢ []
    → permit required none
      ≡ inl (unauthenticated "Permission-gated route reached with no authenticated context")
unfolding permit
permit-absent [] h = absurd (h refl)
permit-absent (p ∷ ps) h = refl

with_request-both :
    (context : ExecutionContext) (r request : Request) (second : Rejection ⊎ Bool)
    → check_permissions context r ≡ second
    → with_request r second ≡ inr (true, request)
    → (◌≡◌ {A = Rejection ⊎ (Bool × Request)} (inr (true, r)) (inr (true, request)))
      × (check_permissions context request ≡ inr true)
with_request-both context r request (inl error) c h = absurd (inl-is_no-inr h)
with_request-both context r request (inr ok) c h =
    let same = ap (λ p. p.1) (inr-injective h) in
    let yes = ap (λ p. p.0) (inr-injective h) in
    (ap (λ q. inr (true, q)) same, rw (sym same) (c ∙ ap inr yes))

select-all :
    (granted required : List Text)
    → select (λ p. not (includes granted p)) required ≡ []
    → all (includes granted) required ≡ true
select-all granted [] h = refl
select-all granted (p ∷ ps) h = elim (Bool-cases (includes granted p)) [
  | inl e ↦ ground (arith, h, e, select-all granted ps)
  | inr e ↦ ground (arith, h, e)
]

judge-none : (required missing : List Text) → judge required missing ≡ inr true → missing ≡ []
judge-none required [] h = refl
judge-none required (p ∷ ps) h = absurd (inl-is_no-inr h)

permit-granted :
    (required : List Text) (granted : AuthenticatedRequestContext)
    → permit required (some granted) ≡ inr true
    → all (includes granted.permissions) required ≡ true
unfolding permit missing_of
permit-granted [] granted h = refl
permit-granted (p ∷ ps) granted h =
    select-all granted.permissions (p ∷ ps) (judge-none (p ∷ ps) _ h)

pub gated-granted :
    (context : ExecutionContext) (request : Request) (granted : AuthenticatedRequestContext)
    → request.context ≡ some granted
    → check_permissions context request ≡ inr true
    → all (includes granted.permissions) (required_of context) ≡ true
unfolding check_permissions
gated-granted context request granted is_set h =
    permit-granted (required_of context) granted
      (sym (ap (permit (required_of context)) is_set) ∙ h)

-- Both guards have answered true.
pub next_guard-both :
    (context : ExecutionContext) (request : Request) (first : Rejection ⊎ (Bool × Request))
    → next_guard context first ≡ inr (true, request)
    → (first ≡ inr (true, request)) × (check_permissions context request ≡ inr true)
unfolding next_guard
next_guard-both context request (inl error) h = absurd (inl-is_no-inr h)
next_guard-both context request (inr (false, r)) h = absurd (cc)
next_guard-both context request (inr (true, r)) h = with_request-both context r request _ refl h
