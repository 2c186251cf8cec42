-- ===== src/Registered/Guarded.antt =====
-- The listed routes against the guards that read the same metadata.
use iveri_nest_sdk.Common.{
  ◌≡◌, ◌≢◌, ◌↔◌, ◌⊎◌, inl, inr, refl, sym, ap, ◌∙◌, Bool, true, false, ◌||◌, Option, none, some,
  List, [], ◌∷◌, ◌++◌, inl-is_no-inr, Option-cases,
}
use mathlib.Core.List.{append-nil}
use iveri_nest_sdk.Common.Text.{Text}
use iveri_nest_sdk.Auth.Guard.{AuthenticatedRequestContext, Request, ExecutionContext, is_public}
use iveri_nest_sdk.Auth.Permission.{required_of, missing_of, judge, permit, check_permissions}
use iveri_nest_sdk.Registered.{
  Handler, Controller, RegisteredRoute, is_true, or_default, route_of, undeclared_routes,
}

-- `Reflector.getAllAndOverride` for a handler and its class, on the metadata of either key.
pub record Reflector : Type 0 where
  pub override_flag : Option Bool → Option Bool → Option Bool
  pub override_texts : Option (List Text) → Option (List Text) → Option (List Text)

-- The first of the two that is defined.
pub record IsReflector (r : Reflector) : Type 0 where
  pub flag-some : (a : Bool) (c : Option Bool) → r.override_flag (some a) c ≡ some a
  pub flag-none : (c : Option Bool) → r.override_flag none c ≡ c
  pub texts-some :
      (ts : List Text) (c : Option (List Text)) → r.override_texts (some ts) c ≡ some ts
  pub texts-none : (c : Option (List Text)) → r.override_texts none c ≡ c

required_of-default :
    (context : ExecutionContext) → required_of context ≡ or_default context.required_permissions []
required_of-default context = elim (Option-cases context.required_permissions) [
  | inl absent ↦ rw absent refl
  | inr (ts, found) ↦ rw found refl
]

is_public-true : (context : ExecutionContext) → is_public context ≡ is_true context.public_metadata
is_public-true context = elim (Option-cases context.public_metadata) [
  | inl absent ↦ rw absent refl
  | inr (b, found) ↦ rw found refl
]

passes_all :
    (required : List Text)
    → ((request : Request) → permit required request.context ≡ inr true) ↔ (required ≡ [])
unfolding permit
passes_all [] = (λ h. refl, λ e request. refl)
passes_all (p ∷ ps) =
    (λ h. absurd (inl-is_no-inr (h (record { headers = []; context = none }))), λ e. absurd (cc))

permitted :
    (required : List Text) (caller : AuthenticatedRequestContext)
    → missing_of required caller ≡ []
    → permit required (some caller) ≡ inr true
unfolding permit
permitted [] caller h = refl
permitted (p ∷ ps) caller h = ap (judge (p ∷ ps)) h

listed_parts :
    (signature : Text) (is_public : Bool) (permissions : List Text)
    → (undeclared_routes
          (record { signature = signature; is_public = is_public; permissions = permissions } ∷ [])
        ≡ signature ∷ [])
      ↔ ((is_public ≡ false) × (permissions ≡ []))
unfolding undeclared_routes
listed_parts signature true permissions = (λ h. absurd (cc), λ h. let e = h.0 in absurd (cc))
listed_parts signature false [] = (λ h. (refl, refl), λ h. refl)
listed_parts signature false (p ∷ ps) = (λ h. absurd (cc), λ h. let e = h.1 in absurd (cc))

listed :
    (route : RegisteredRoute)
    → (undeclared_routes (route ∷ []) ≡ route.signature ∷ [])
      ↔ ((route.is_public ≡ false) × (route.permissions ≡ []))
unfolding undeclared_routes
listed route = listed_parts route.signature route.is_public route.permissions

module _ (reflector : Reflector) where
  -- What the guards read for a handler of a controller.
  abbrev pub context_for : Controller → Handler → ExecutionContext
  context_for controller handler = record {
    is_http = true;
    public_metadata = reflector.override_flag handler.public_metadata controller.public_metadata;
    required_permissions =
        reflector.override_texts handler.required_permissions controller.required_permissions;
  }

  module _ (laws : IsReflector reflector) where
    -- `@Public()` sets true, so that a handler that is marked is not `false`.
    public_agrees :
        (handler controller : Option Bool)
        → handler ≢ some false
        → is_true (reflector.override_flag handler controller)
          ≡ (is_true handler || is_true controller)
    public_agrees none controller h = ap is_true (laws.flag-none controller)
    public_agrees (some true) controller h = ap is_true (laws.flag-some true controller)
    public_agrees (some false) controller h = absurd (h refl)

    texts_agree :
        (handler controller : Option (List Text))
        → (handler ≡ none) ⊎ (controller ≡ none)
        → or_default (reflector.override_texts handler controller) []
          ≡ or_default handler [] ++ or_default controller []
    texts_agree none controller h = ap (λ ts. or_default ts []) (laws.texts-none controller)
    texts_agree (some ts) none h =
        ap (λ us. or_default us []) (laws.texts-some ts none) ∙ sym (append-nil ts)
    texts_agree (some ts) (some us) (inl h) = absurd (cc)
    texts_agree (some ts) (some us) (inr h) = absurd (cc)

    required_agrees :
        (controller : Controller) (handler : Handler) (path : Text)
        → (handler.required_permissions ≡ none) ⊎ (controller.required_permissions ≡ none)
        → required_of (context_for controller handler)
          ≡ (route_of controller handler path).permissions
    unfolding route_of
    required_agrees controller handler path h =
        required_of-default (context_for controller handler)
        ∙ texts_agree handler.required_permissions controller.required_permissions h

    flags_agree :
        (controller : Controller) (handler : Handler) (path : Text)
        → handler.public_metadata ≢ some false
        → is_public (context_for controller handler) ≡ (route_of controller handler path).is_public
    unfolding route_of
    flags_agree controller handler path h =
        is_public-true (context_for controller handler)
        ∙ public_agrees handler.public_metadata controller.public_metadata h

    -- A route is on the list that must stay empty exactly if the guards leave it to anyone who is
    -- logged in: `AuthGuard` demands a token of it, and `PermissionGuard` passes every request;
    -- provided that not both the handler and its controller declare permissions, and that neither
    -- `@Public()` nor anything else marks the handler as not public.
    pub undeclared-open :
        (controller : Controller) (handler : Handler) (path : Text)
        → (handler.required_permissions ≡ none) ⊎ (controller.required_permissions ≡ none)
        → handler.public_metadata ≢ some false
        → (undeclared_routes (route_of controller handler path ∷ [])
            ≡ (route_of controller handler path).signature ∷ [])
          ↔ ((is_public (context_for controller handler) ≡ false)
              × ((request : Request)
                  → check_permissions (context_for controller handler) request ≡ inr true))
    unfolding check_permissions
    undeclared-open controller handler path one marked =
        let route = route_of controller handler path in
        let flags = flags_agree controller handler path marked in
        let required = required_agrees controller handler path one in
        let lists = listed route in
        let passes = passes_all (required_of (context_for controller handler)) in
        (
          λ h. (flags ∙ (lists.0 h).0, passes.1 (required ∙ (lists.0 h).1)),
          λ (a, b). lists.1 (sym flags ∙ a, sym required ∙ passes.0 b),
        )

    -- Where both declare permissions, the guard asks for the handler's alone, and a caller who has
    -- none of the controller's is let through; the route is listed as if it took both.
    pub listed-overridden :
        (controller : Controller) (handler : Handler) (path : Text) (own others : List Text)
        (caller : AuthenticatedRequestContext) (request : Request)
        → handler.required_permissions ≡ some own
        → controller.required_permissions ≡ some others
        → request.context ≡ some caller
        → missing_of own caller ≡ []
        → (check_permissions (context_for controller handler) request ≡ inr true)
          × ((route_of controller handler path).permissions ≡ own ++ others)
    unfolding check_permissions route_of
    listed-overridden controller handler path own others caller request of_handler of_class known
          has =
        (
          rw (of_handler, laws.texts-some own controller.required_permissions, known)
              (permitted own caller has),
          rw (of_handler, of_class) refl,
        )
