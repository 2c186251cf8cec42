-- ===== src/Exception/Route.antt =====
-- src/observability/route-pattern.util.ts and src/constant/infrastructure-route.constant.ts.
use iveri_nest_sdk.Common.{Bool, ◌||◌, any, Option, none, some, List, [], ◌∷◌, ◌++◌}
use iveri_nest_sdk.Common.Text.{Text, codes, text_eq, has_prefix, join}
use iveri_nest_sdk.Exception.Value.{JsValue, text, array, object, get_property, all_texts}

abbrev pub infrastructure_route_prefixes : List Text
infrastructure_route_prefixes = codes "/health" ∷ codes "/metrics" ∷ []

unfoldable pub is_infrastructure_route : Text → List Text → Bool
is_infrastructure_route path prefixes =
    any (λ p. text_eq path p || has_prefix (p ++ (b'/' ∷ [])) path) prefixes

abbrev unmatched_route_label : Text
unmatched_route_label = codes "unmatched"

-- The route's label, once its path is read.
unfoldable label_path : Text → Option JsValue → Text
label_path base_url (some (text path)) = base_url ++ path
label_path base_url (some (array entries)) = elim (all_texts entries) [
  | none ↦ unmatched_route_label
  | some paths ↦ base_url ++ join b'|' paths
]
label_path base_url _ = unmatched_route_label

unfoldable pub read_route_pattern : Text → JsValue → Text
unfolding label_path all_texts
read_route_pattern base_url (object route) = label_path base_url (get_property "path" route)
read_route_pattern base_url _ = unmatched_route_label
