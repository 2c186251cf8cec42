-- ===== src/Metrics/Registry.antt =====
-- What the constructors of src/observability/metrics register, and under which names.
--
-- The registry of the Prometheus client is a parameter; the constructor of a metric throws on a
-- name that is taken.
pub mod Names
use Prim.Native.String.{String}
use iveri_nest_sdk.Common.{
  ℕ, ◌≡◌, Bool, true, false, Option, none, some, List, [], ◌∷◌, ◌++◌, if◌then◌else◌,
}
use iveri_nest_sdk.Common.Text.{Text, codes, assign, text_eq, includes}
use iveri_nest_sdk.Outbox.Retry.{Fraction}

abbrev http_requests_total : Text
http_requests_total = codes "http_server_requests_total"

abbrev http_requests_in_flight : Text
http_requests_in_flight = codes "http_server_requests_in_flight"

abbrev http_request_duration_seconds : Text
http_request_duration_seconds = codes "http_server_request_duration_seconds"

abbrev status_code_label : Text
status_code_label = codes "status_code"

abbrev queue_depth_gauge : Text
queue_depth_gauge = codes "iveri_queue_depth"

abbrev database_pool_gauge : Text
database_pool_gauge = codes "iveri_database_pool_connections"

abbrev retention_sweep_last_success_gauge : Text
retention_sweep_last_success_gauge = codes "iveri_retention_sweep_last_success_timestamp_seconds"

abbrev retention_sweep_rows_total : Text
retention_sweep_rows_total = codes "iveri_retention_sweep_rows_total"

abbrev retention_sweep_label : Text
retention_sweep_label = codes "sweep"

abbrev thousandths : ℕ → Fraction
thousandths n = record { numerator = n; denominator = 1000 }

abbrev http_duration_buckets_seconds : List Fraction
http_duration_buckets_seconds =
    thousandths 5
    ∷ thousandths 10
    ∷ thousandths 25
    ∷ thousandths 50
    ∷ thousandths 100
    ∷ thousandths 250
    ∷ thousandths 500
    ∷ thousandths 1000
    ∷ thousandths 2500
    ∷ thousandths 5000
    ∷ thousandths 10000
    ∷ []

abbrev http_label_names : List Text
http_label_names = codes "method" ∷ codes "route" ∷ status_code_label ∷ []

pub data MetricKind : Type 0 where
  counter : MetricKind
  gauge : MetricKind
  histogram : MetricKind

pub record MetricConfiguration : Type 0 where
  pub kind : MetricKind
  pub name : Text
  pub help : String
  pub label_names : List Text
  pub buckets : List Fraction

pub record MetricsModuleOptions : Type 0 where
  pub service_name : Text
  pub default_labels : List (Text × Text)
  pub collect_default_metrics : Option Bool
  pub ignored_routes : Option (List Text)

-- What is called of a registry: `register` is the constructor of a metric with that registry, and
-- `none` where it throws.
pub record RegistryClient (Registry : Type 0) : Type 0 where
  pub set_default_labels : List (Text × Text) → Registry → Registry
  pub collect_default_metrics : Registry → Registry
  pub register : MetricConfiguration → Registry → Option Registry
  pub clear : Registry → Registry
  pub names : Registry → List Text

pub record IsRegistryClient {Registry : Type 0} (r : RegistryClient Registry)
    (default_names : List Text) : Type 0 where
  pub names-labels :
      (labels : List (Text × Text)) (s : Registry)
      → r.names (r.set_default_labels labels s) ≡ r.names s
  pub names-default :
      (s : Registry) → r.names (r.collect_default_metrics s) ≡ default_names ++ r.names s
  pub register-free :
      (c : MetricConfiguration) (s : Registry)
      → includes (r.names s) c.name ≡ false
      → (t : Registry) × (r.register c s ≡ some t) × (r.names t ≡ c.name ∷ r.names s)
  pub register-taken :
      (c : MetricConfiguration) (s : Registry)
      → includes (r.names s) c.name ≡ true
      → r.register c s ≡ none
  pub names-clear : (s : Registry) → r.names (r.clear s) ≡ []

-- `{ ...labels, ...others }`
unfoldable pub spread : List (Text × Text) → List (Text × Text) → List (Text × Text)
unfolding assign
spread labels [] = labels
spread labels ((k, v) ∷ others) = spread (assign k v labels) others

abbrev http_requests_configuration : MetricConfiguration
http_requests_configuration = record {
  kind = counter;
  name = http_requests_total;
  help = "Total HTTP requests served, by method, route pattern and status code.";
  label_names = http_label_names;
  buckets = [];
}

abbrev http_duration_configuration : MetricConfiguration
http_duration_configuration = record {
  kind = histogram;
  name = http_request_duration_seconds;
  help = "HTTP request duration in seconds, by method, route pattern and status code.";
  label_names = http_label_names;
  buckets = http_duration_buckets_seconds;
}

abbrev http_in_flight_configuration : MetricConfiguration
http_in_flight_configuration = record {
  kind = gauge;
  name = http_requests_in_flight;
  help = "Requests currently being served.";
  label_names = [];
  buckets = [];
}

abbrev queue_depth_configuration : MetricConfiguration
queue_depth_configuration = record {
  kind = gauge;
  name = queue_depth_gauge;
  help = "Rows still outstanding in a durable work queue, by queue and state.";
  label_names = codes "queue" ∷ codes "state" ∷ [];
  buckets = [];
}

abbrev pub last_success_configuration : MetricConfiguration
last_success_configuration = record {
  kind = gauge;
  name = retention_sweep_last_success_gauge;
  help = "Unix seconds at which a retention sweep last completed, by sweep.";
  label_names = retention_sweep_label ∷ [];
  buckets = [];
}

abbrev rows_configuration : MetricConfiguration
rows_configuration = record {
  kind = counter;
  name = retention_sweep_rows_total;
  help = "Rows a retention sweep has expired, by sweep.";
  label_names = retention_sweep_label ∷ [];
  buckets = [];
}

abbrev connections_configuration : MetricConfiguration
connections_configuration = record {
  kind = gauge;
  name = database_pool_gauge;
  help = "Postgres connections held by this process, by state.";
  label_names = codes "state" ∷ [];
  buckets = [];
}

abbrev pub service_configurations : List MetricConfiguration
service_configurations =
    http_requests_configuration ∷ http_duration_configuration ∷ http_in_flight_configuration
    ∷ queue_depth_configuration ∷ []

abbrev pub sweep_configurations : List MetricConfiguration
sweep_configurations = last_success_configuration ∷ rows_configuration ∷ []

abbrev pub pool_configurations : List MetricConfiguration
pool_configurations = connections_configuration ∷ []

module _ {Registry : Type 0} (r : RegistryClient Registry) where
  -- Metrics that are constructed one after the other.
  unfoldable pub register_all : List MetricConfiguration → Registry → Option Registry
  register_all [] s = some s
  register_all (c ∷ cs) s = elim (r.register c s) [ none ↦ none | some t ↦ register_all cs t ]

  abbrev pub with_defaults : MetricsModuleOptions → Registry → Registry
  with_defaults options s =
      let labelled =
        r.set_default_labels
          (spread ((codes "service", options.service_name) ∷ []) options.default_labels) s in
      elim options.collect_default_metrics [
        | some false ↦ labelled
        | _ ↦ r.collect_default_metrics labelled
      ]

  -- The constructor of `MetricsService`.
  unfoldable pub construct_service : MetricsModuleOptions → Registry → Option Registry
  unfolding register_all spread
  construct_service options s = register_all service_configurations (with_defaults options s)

  -- The constructor of `RetentionSweepMetrics`.
  unfoldable pub construct_sweeps : Registry → Option Registry
  unfolding register_all
  construct_sweeps = register_all sweep_configurations

  -- The constructor of `DatabasePoolMetricSource`.
  unfoldable pub construct_pool : Registry → Option Registry
  unfolding register_all
  construct_pool = register_all pool_configurations

  -- `onApplicationShutdown`
  unfoldable shut_down : Registry → Registry
  shut_down s = r.clear s
