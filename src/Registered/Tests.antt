-- ===== src/Registered/Tests.antt =====
-- The routes of a small controller, and the theorems at concrete inputs.
use iveri_nest_sdk.Common.{◌≡◌, ◌↔◌, refl, inl, inr, true, false, Option, none, some, [], ◌∷◌}
use iveri_nest_sdk.Common.Text.{codes}
use iveri_nest_sdk.Auth.Guard.{AuthenticatedRequestContext, Request, is_public}
use iveri_nest_sdk.Auth.Permission.{missing_of, check_permissions}
use iveri_nest_sdk.Registered.{
  Handler, Controller, route_of, registered_routes, undeclared_routes, permission_matrix,
}
use iveri_nest_sdk.Registered.Guarded.{
  Reflector, IsReflector, context_for, undeclared-open, listed-overridden,
}

abbrev first : {A : Type 0} → Option A → Option A → Option A
first none c = c
first (some a) c = some a

abbrev reflector : Reflector
reflector = record { override_flag = first; override_texts = first }

reflector_laws : IsReflector reflector
reflector_laws = record {
  flag-some = λ a c. refl;
  flag-none = λ c. refl;
  texts-some = λ ts c. refl;
  texts-none = λ c. refl;
}

abbrev bare : Handler
bare = record {
  path = some (codes ":id/");
  verb = none;
  public_metadata = none;
  required_permissions = none;
}

abbrev gated : Handler
gated = record {
  path = some (codes "list");
  verb = some (codes "POST");
  public_metadata = none;
  required_permissions = some (codes "b:read" ∷ codes "a:read" ∷ []);
}

abbrev things : Controller
things = record {
  prefix = some (codes "things");
  public_metadata = none;
  required_permissions = none;
  methods = some bare ∷ none ∷ some gated ∷ [];
}

undeclared_test :
    undeclared_routes (registered_routes ((none ∷ some things ∷ []) ∷ [] ∷ []))
    ≡ codes "GET /things/:id" ∷ []
unfolding undeclared_routes registered_routes
undeclared_test = refl

matrix_test :
    permission_matrix (registered_routes ((some things ∷ []) ∷ []))
    ≡ (codes "GET /things/:id", []) ∷ (codes "POST /things/list", codes "a:read+b:read") ∷ []
unfolding permission_matrix registered_routes
matrix_test = refl

undeclared-open_example :
    (undeclared_routes (route_of things bare (codes ":id/") ∷ [])
      ≡ (route_of things bare (codes ":id/")).signature ∷ [])
    ↔ ((is_public (context_for reflector things bare) ≡ false)
        × ((request : Request)
            → check_permissions (context_for reflector things bare) request ≡ inr true))
undeclared-open_example =
    undeclared-open reflector reflector_laws things bare (codes ":id/") (inl refl) (λ h. cc)

-- A controller for administrators, of which one handler declares that it takes no permission.
abbrev admin : Controller
admin = record {
  prefix = some (codes "admin");
  public_metadata = none;
  required_permissions = some (codes "admin:write" ∷ []);
  methods = [];
}

abbrev opened : Handler
opened = record {
  path = some (codes "purge");
  verb = some (codes "POST");
  public_metadata = none;
  required_permissions = some [];
}

abbrev caller : AuthenticatedRequestContext
caller = record {
  tenant_id = codes "t1";
  user_id = some (codes "u1");
  api_key_id = none;
  permissions = [];
  locale = codes "en";
  correlation_id = codes "c1";
}

listed-overridden_example :
    (check_permissions
        (context_for reflector admin opened)
        (record { headers = []; context = some caller })
      ≡ inr true)
    × ((route_of admin opened (codes "purge")).permissions ≡ codes "admin:write" ∷ [])
unfolding missing_of
listed-overridden_example =
    listed-overridden reflector reflector_laws admin opened (codes "purge") []
      (codes "admin:write" ∷ []) caller (record { headers = []; context = some caller }) refl refl
      refl refl
