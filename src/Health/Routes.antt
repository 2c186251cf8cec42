-- ===== src/Health/Routes.antt =====
-- src/health/health.constant.ts, database-readiness.check.ts and the liveness probe of
-- health.controller.ts. The driver's query is an argument: `none` if it resolves.
use iveri_nest_sdk.Common.{
  ◌≡◌, ◌↔◌, refl, true, Option, none, some, List, [], ◌∷◌, ◌++◌, inl-is_no-inr, inr,
}
use iveri_nest_sdk.Common.Text.{Text, codes}
use iveri_nest_sdk.Health.Controller.{
  CheckRun, ProbeResponse, ready, run, all_up, run_one, result_of,
}

abbrev health_route_path : Text
health_route_path = codes "health"

abbrev health_liveness_route : Text
health_liveness_route = health_route_path ++ codes "/live"

abbrev health_readiness_route : Text
health_readiness_route = health_route_path ++ codes "/ready"

abbrev health_startup_route : Text
health_startup_route = health_route_path ++ codes "/startup"

pub data RequestMethod : Type 0 where
  get other : RequestMethod

pub record RouteInfo : Type 0 where
  pub path : Text
  pub method : RequestMethod

abbrev health_route_exclusions : List RouteInfo
health_route_exclusions =
    record { path = health_liveness_route; method = get }
    ∷ record { path = health_readiness_route; method = get }
    ∷ record { path = health_startup_route; method = get }
    ∷ []

-- `live`, on any controller.
abbrev pub live : Text
live = codes "ok"

-- `DatabaseReadinessCheck`: what `query('SELECT 1')` rejects with is what `check` throws.
unfoldable check_database : (query : Text → Option (Option Text)) → CheckRun
check_database query = record { name = codes "database"; failure = query (codes "SELECT 1") }

lone-ready :
    (name : Text) (failure : Option (Option Text))
    → (failure ≡ none) ↔ (
        (body : ProbeResponse) × (ready (record { name = name; failure = failure } ∷ [])
          ≡ inr body))
unfolding ready run run_one all_up
lone-ready name none = (
  λ resolves. (record { is_positive = true; checks = result_of name none ∷ [] }, refl),
  λ answer. refl,
)
lone-ready name (some message) =
    (λ resolves. absurd (cc), λ answer. absurd (inl-is_no-inr answer.1))

-- A service whose only check is the database's is ready exactly if the query resolves.
check_database-ready :
    (query : Text → Option (Option Text))
    → (query (codes "SELECT 1") ≡ none)
      ↔ ((body : ProbeResponse) × (ready (check_database query ∷ []) ≡ inr body))
unfolding check_database
check_database-ready query = lone-ready (codes "database") (query (codes "SELECT 1"))
