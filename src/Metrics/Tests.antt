-- ===== src/Metrics/Tests.antt =====
-- Small runs of the metrics, with simple clients, and the theorems at concrete inputs.
use iveri_nest_sdk.Common.{
  ℕ, ◌+◌, ◌-◌, ◌≡◌, refl, Bool, false, Option, none, some, List, [], ◌∷◌, ◌++◌, if◌then◌else◌,
}
use iveri_nest_sdk.Common.Text.{Text, codes, text_eq, includes}
use iveri_nest_sdk.Outbox.Retry.{Fraction}
use iveri_nest_sdk.Exception.Value.{object, property, no_more, text}
use iveri_nest_sdk.Exception.Route.{is_infrastructure_route, infrastructure_route_prefixes}
use iveri_nest_sdk.Metrics.Client.{Meters, LabelledGauge, IsLabelledGauge}
use iveri_nest_sdk.Metrics.Http.{MetricsService, Request, Tracked, Ending}
use iveri_nest_sdk.Metrics.Http.InFlight.{Event, arrive, end_at, Server, run}
use iveri_nest_sdk.Metrics.Depth.{pending, Collected, DepthLabels, refresh_queue_depth}
use iveri_nest_sdk.Metrics.Depth.Scrape.{labels_eq, refresh_queue_depth-exact}
use iveri_nest_sdk.Metrics.Pool.{PoolState, in_use, pool_state_eq, number, other, Master, refresh}
use iveri_nest_sdk.Metrics.Sweep.{LabelledCounter, IsLabelledCounter, SweepMetrics, Success, added}
use iveri_nest_sdk.Metrics.Registry.{MetricsModuleOptions, RegistryClient, IsRegistryClient}

-- A gauge and a counter that count, and a histogram that counts its observations.
abbrev meters : Meters ℕ ℕ ℕ
meters = record {
  inc = λ g. g + 1;
  dec = λ g. g - 1;
  count = λ l c. c + 1;
  observe = λ l d h. h + 1;
  total = λ c. c;
}

abbrev get_users : Request
get_users = record { method = codes "GET"; original_url = codes "/users?page=2"; url = codes "/" }

abbrev scrape : Request
scrape = record { method = codes "GET"; original_url = codes "/metrics"; url = codes "/" }

abbrev ending : Ending
ending = record {
  base_url = [];
  route = object (property "path" (text (codes "/users")) no_more);
  status_code = 200;
  now = 900;
}

abbrev idle : MetricsService ℕ ℕ ℕ
idle = record { http_in_flight = 0; http_requests = 0; http_duration = 0 }

abbrev tracked_at : ℕ → Tracked
tracked_at now = record { method = codes "GET"; started_at = now; recorded = false }

abbrev quiet : Server ℕ ℕ ℕ
quiet = record { service = idle; tracked = [] }

-- Two requests and a scrape, of which the first request is ended twice.
abbrev traffic : List Event
traffic =
    arrive get_users 100
    ∷ arrive scrape 150
    ∷ arrive get_users 200
    ∷ end_at 1 ending
    ∷ end_at 1 ending
    ∷ end_at 7 ending
    ∷ []

traffic_test : (run meters infrastructure_route_prefixes traffic quiet).service.http_in_flight ≡ 1
unfolding run is_infrastructure_route
traffic_test = refl

-- A gauge as the function of its values.
abbrev function_gauge :
    {Label Value : Type 0}
    → (Label → Label → Bool)
    → LabelledGauge Label Value (Label → Option Value)
function_gauge same = record {
  same = same;
  set = λ k v s l. if same k l then some v else s l;
  reset = λ s l. none;
  value = λ l s. s l;
}

function_gauge_laws :
    {Label Value : Type 0} (same : Label → Label → Bool)
    → IsLabelledGauge (function_gauge {Value = Value} same)
function_gauge_laws same = record { value-set = λ l k v s. refl; value-reset = λ l s. refl }

abbrev depths : LabelledGauge DepthLabels ℕ (DepthLabels → Option ℕ)
depths = function_gauge labels_eq

abbrev deliveries : Collected ℕ
deliveries = record {
  queue = codes "delivery";
  readings = some (record { state = pending; depth = 4 } ∷ []);
}

abbrev dispatches : Collected ℕ
dispatches = record { queue = codes "dispatch"; readings = none }

abbrev stale : DepthLabels → Option ℕ
stale l = some 9

refresh_queue_depth-exact_example :
    refresh_queue_depth depths
      (dispatches ∷ deliveries ∷ [])
      stale
      (record { queue = codes "delivery"; state = pending })
    ≡ some 4
refresh_queue_depth-exact_example =
    refresh_queue_depth-exact depths (function_gauge_laws labels_eq) (λ k l. refl) (dispatches ∷ [])
      [] deliveries pending stale (refl, tt) tt

failed_test :
    refresh_queue_depth depths
      (dispatches ∷ deliveries ∷ [])
      stale
      (record { queue = codes "dispatch"; state = pending })
    ≡ none
unfolding refresh_queue_depth
failed_test = refl

abbrev connections : LabelledGauge PoolState ℕ (PoolState → Option ℕ)
connections = function_gauge pool_state_eq

-- A pool whose counts are all 7, and one that does not count.
abbrev pool : Master ℕ
pool = Master.object (λ name. number 7)

abbrev odd_pool : Master ℕ
odd_pool = Master.object (λ name. other)

odd_pool_test : refresh (λ a b. a - b) connections odd_pool (λ state. some 3) in_use ≡ none
unfolding refresh
odd_pool_test = refl

abbrev rows : LabelledCounter Text (Text → Option ℕ)
rows = record {
  inc = λ k n s l. if text_eq k l then some (added n (s l)) else s l;
  count = λ l s. s l;
}

rows_laws : IsLabelledCounter rows
rows_laws = record { count-inc = λ l k n s. refl }

abbrev last_success : LabelledGauge Text Fraction (Text → Option Fraction)
last_success = function_gauge text_eq

abbrev unswept : SweepMetrics (Text → Option Fraction) (Text → Option ℕ)
unswept = record { last_success = λ l. none; rows = λ l. none }

abbrev sweeps : List Success
sweeps =
    record { sweep = codes "tokens"; rows = 5; now = 3000 }
    ∷ record { sweep = codes "outbox"; rows = 2; now = 3500 }
    ∷ record { sweep = codes "tokens"; rows = 0; now = 7000 }
    ∷ []

-- A registry as the list of its names.
abbrev default_names : List Text
default_names = codes "process_cpu_user_seconds_total" ∷ codes "nodejs_eventloop_lag_seconds" ∷ []

abbrev registry : RegistryClient (List Text)
registry = record {
  set_default_labels = λ labels s. s;
  collect_default_metrics = λ s. default_names ++ s;
  register = λ c s. if includes s c.name then none else some (c.name ∷ s);
  clear = λ s. [];
  names = λ s. s;
}

registry_laws : IsRegistryClient registry default_names
registry_laws = record {
  names-labels = λ labels s. refl;
  names-default = λ s. refl;
  register-free = λ c s free. (c.name ∷ s, rw free refl, refl);
  register-taken = λ c s taken. rw taken refl;
  names-clear = λ s. refl;
}

abbrev options : MetricsModuleOptions
options = record {
  service_name = codes "conduit-api";
  default_labels = [];
  collect_default_metrics = none;
  ignored_routes = none;
}
