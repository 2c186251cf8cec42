-- ===== src/Auth/Permission.antt =====
-- src/auth/permission.guard.ts, and the two guards in the order in which a service registers them.
use iveri_nest_sdk.Common.{
  Bool, true, false, not, Option, none, some, List, [], ◌∷◌, ◌⊎◌, inl, inr, select,
}
use iveri_nest_sdk.Common.Text.{Text, includes}
use iveri_nest_sdk.Auth.AccessToken.{
  JwtResult, PrincipalType, Rejection, unauthenticated, insufficient_permission,
}
use iveri_nest_sdk.Auth.Guard.{Request, ExecutionContext, authenticate, AuthenticatedRequestContext}

-- The permissions that a route declares: none where it has no metadata.
abbrev pub required_of : ExecutionContext → List Text
required_of context = elim context.required_permissions [ none ↦ [] | some ps ↦ ps ]

unfoldable pub missing_of : List Text → AuthenticatedRequestContext → List Text
missing_of required context = select (λ p. not (includes context.permissions p)) required

abbrev pub judge : List Text → List Text → Rejection ⊎ Bool
judge required [] = inr true
judge required (p ∷ missing) =
    inl (insufficient_permission "Missing required permission" required (p ∷ missing))

unfoldable pub permit : List Text → Option AuthenticatedRequestContext → Rejection ⊎ Bool
unfolding missing_of
permit [] context = inr true
permit (p ∷ ps) none =
    inl (unauthenticated "Permission-gated route reached with no authenticated context")
permit (p ∷ ps) (some context) = judge (p ∷ ps) (missing_of (p ∷ ps) context)

-- `PermissionGuard.canActivate`
unfoldable pub check_permissions : ExecutionContext → Request → Rejection ⊎ Bool
unfolding permit
check_permissions context request = permit (required_of context) request.context

abbrev pub with_request : Request → Rejection ⊎ Bool → Rejection ⊎ (Bool × Request)
with_request request (inl error) = inl error
with_request request (inr ok) = inr (ok, request)

unfoldable pub next_guard :
    ExecutionContext → Rejection ⊎ (Bool × Request) → Rejection ⊎ (Bool × Request)
unfolding check_permissions
next_guard context (inl error) = inl error
next_guard context (inr (false, request)) = inr (false, request)
next_guard context (inr (true, request)) = with_request request (check_permissions context request)

-- A request reaches its handler if both guards answer true.
unfoldable pub run_guards :
    PrincipalType → (Text → JwtResult) → ExecutionContext → Request → Rejection ⊎ (Bool × Request)
unfolding authenticate next_guard
run_guards kinds verify_async context request =
    next_guard context (authenticate kinds verify_async context request)
