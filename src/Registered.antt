-- ===== src/Registered.antt =====
-- src/testing/registered-route.ts: the routes that a service registers, with what they declare.
--
-- Nest's container and its metadata are the values that the code reads of them.
pub mod Guarded
mod Tests
use iveri_nest_sdk.Common.{
  ℕ, Bool, true, false, not, ◌&&◌, ◌||◌, ◌==◌, Option, none, some, List, [], ◌∷◌, ◌++◌, map, select,
  if◌then◌else◌,
}
use iveri_nest_sdk.Common.Text.{Text, codes, join, assign, sort}

-- The metadata of a handler: a member without a path is no route.
pub record Handler : Type 0 where
  pub path : Option Text
  pub verb : Option Text
  pub public_metadata : Option Bool
  pub required_permissions : Option (List Text)

-- A controller with its members, of which one may have nothing behind it.
pub record Controller : Type 0 where
  pub prefix : Option Text
  pub public_metadata : Option Bool
  pub required_permissions : Option (List Text)
  pub methods : List (Option Handler)

pub record RegisteredRoute : Type 0 where
  pub signature : Text
  pub is_public : Bool
  pub permissions : List Text

abbrev pub or_default {ℓ} : {A : Type ℓ} → Option A → A → A
or_default none d = d
or_default (some a) d = a

abbrev is_slash : ℕ → Bool
is_slash c = c == b'/'

-- `.replace(/\/+/g, '/')`
unfoldable collapse_slashes : Text → Text
collapse_slashes [] = []
collapse_slashes (c ∷ []) = c ∷ []
collapse_slashes (c ∷ d ∷ s) =
    let rest = collapse_slashes (d ∷ s) in if is_slash c && is_slash d then rest else c ∷ rest

-- `.replace(/\/$/, '')`
unfoldable drop_last_slash : Text → Text
drop_last_slash [] = []
drop_last_slash (c ∷ []) = if is_slash c then [] else c ∷ []
drop_last_slash (c ∷ d ∷ s) = c ∷ drop_last_slash (d ∷ s)

unfoldable signature_of : (verb prefix path : Text) → Text
unfolding collapse_slashes drop_last_slash
signature_of verb prefix path =
    drop_last_slash (collapse_slashes (verb ++ codes " /" ++ prefix ++ (b'/' ∷ []) ++ path))

abbrev pub is_true : Option Bool → Bool
is_true none = false
is_true (some b) = b

unfoldable pub route_of : Controller → Handler → Text → RegisteredRoute
unfolding signature_of
route_of controller handler path = record {
  signature =
      signature_of (or_default handler.verb (codes "GET")) (or_default controller.prefix []) path;
  is_public = is_true handler.public_metadata || is_true controller.public_metadata;
  permissions =
      or_default handler.required_permissions [] ++ or_default controller.required_permissions [];
}

abbrev with_route : Controller → Option Handler → List RegisteredRoute → List RegisteredRoute
with_route controller none routes = routes
with_route controller (some handler) routes = elim handler.path [
  | none ↦ routes
  | some path ↦ route_of controller handler path ∷ routes
]

unfoldable routes_of : Controller → List (Option Handler) → List RegisteredRoute
unfolding route_of
routes_of controller [] = []
routes_of controller (member ∷ members) =
    with_route controller member (routes_of controller members)

-- The modules' controllers, of which one may have no class.
unfoldable pub registered_routes : List (List (Option Controller)) → List RegisteredRoute
unfolding routes_of
registered_routes [] = []
registered_routes ([] ∷ modules) = registered_routes modules
registered_routes ((none ∷ controllers) ∷ modules) = registered_routes (controllers ∷ modules)
registered_routes ((some controller ∷ controllers) ∷ modules) =
    routes_of controller controller.methods ++ registered_routes (controllers ∷ modules)

abbrev lacks_permissions : RegisteredRoute → Bool
lacks_permissions route = elim route.permissions [ [] ↦ true | p ∷ ps ↦ false ]

unfoldable pub undeclared_routes : List RegisteredRoute → List Text
undeclared_routes routes =
    map (λ route. route.signature)
      (select (λ route. not route.is_public && lacks_permissions route) routes)

-- `Object.fromEntries`: of two entries with one key the later value stays.
unfoldable from_entries : List (Text × Text) → List (Text × Text) → List (Text × Text)
unfolding assign
from_entries object [] = object
from_entries object ((k, v) ∷ entries) = from_entries (assign k v object) entries

unfoldable pub permission_matrix : List RegisteredRoute → List (Text × Text)
unfolding from_entries join sort
permission_matrix routes = from_entries [] (
    map (λ route. (route.signature, join b'+' (sort route.permissions)))
      (select (λ route. not route.is_public) routes))
