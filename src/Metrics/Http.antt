-- ===== src/Metrics/Http.antt =====
-- src/observability/metrics/http-metrics.middleware.ts and the HTTP series of metrics.service.ts.
--
-- A clock is in nanoseconds and does not run backwards; a duration is an exact fraction.
pub mod Once
pub mod InFlight
use iveri_nest_sdk.Common.{
  ℕ, zero, suc, ◌-◌, Bool, true, false, Option, none, some, List, [], ◌∷◌, ◌++◌, if◌then◌else◌,
}
use iveri_nest_sdk.Common.Text.{Text, before}
use iveri_nest_sdk.Outbox.Retry.{Fraction}
use iveri_nest_sdk.Exception.Value.{JsValue}
use iveri_nest_sdk.Exception.Route.{
  is_infrastructure_route, infrastructure_route_prefixes, read_route_pattern,
}
use iveri_nest_sdk.Metrics.Registry.{MetricsModuleOptions}
use iveri_nest_sdk.Metrics.Client.{HttpLabels, Meters}

abbrev nanoseconds_per_second : ℕ
nanoseconds_per_second = 1000000000

-- `metrics`, as far as a request moves them.
pub record MetricsService (Gauge Counter Histogram : Type 0) : Type 0 where
  pub http_in_flight : Gauge
  pub http_requests : Counter
  pub http_duration : Histogram

pub record HttpRequestObservation : Type 0 where
  pub labels : HttpLabels
  pub duration_seconds : Fraction

pub record Request : Type 0 where
  pub method : Text
  pub original_url : Text
  pub url : Text

-- A request between `use` and the end of its response: what `record` closes over.
pub record Tracked : Type 0 where
  pub method : Text
  pub started_at : ℕ
  pub recorded : Bool

-- A `finish` or a `close` of a response, with what the request and the response then hold.
pub record Ending : Type 0 where
  pub base_url : Text
  pub route : JsValue
  pub status_code : ℕ
  pub now : ℕ

-- The routes that are not counted, `DEFAULT_IGNORED_METRICS_ROUTES` if the options name none.
unfoldable ignored_routes_of : MetricsModuleOptions → List Text
ignored_routes_of options = elim options.ignored_routes [
  | none ↦ infrastructure_route_prefixes
  | some routes ↦ routes
]

-- The path without the query; an `originalUrl` that is empty gives way to `url`.
unfoldable pub read_path : Request → Text
unfolding before
read_path request = elim request.original_url [
  | [] ↦ before b'?' request.url
  | c ∷ s ↦ before b'?' (c ∷ s)
]

unfoldable pub observation_of : Tracked → Ending → HttpRequestObservation
unfolding read_route_pattern
observation_of tracked ending = record {
  labels = record {
    method = tracked.method;
    route = read_route_pattern ending.base_url ending.route;
    status_code = ending.status_code;
  };
  duration_seconds = record {
    numerator = ending.now - tracked.started_at;
    denominator = nanoseconds_per_second;
  };
}

module _ {Gauge Counter Histogram : Type 0} (m : Meters Gauge Counter Histogram) where
  unfoldable track_request_started :
      MetricsService Gauge Counter Histogram → MetricsService Gauge Counter Histogram
  track_request_started s = record s { http_in_flight = m.inc s.http_in_flight }

  unfoldable track_request_finished :
      MetricsService Gauge Counter Histogram → MetricsService Gauge Counter Histogram
  track_request_finished s = record s { http_in_flight = m.dec s.http_in_flight }

  unfoldable pub observe_http_request :
      HttpRequestObservation
      → MetricsService Gauge Counter Histogram
      → MetricsService Gauge Counter Histogram
  observe_http_request o s = record s {
    http_requests = m.count o.labels s.http_requests;
    http_duration = m.observe o.labels o.duration_seconds s.http_duration;
  }

  -- `use`: an ignored route is not tracked.
  unfoldable pub begin_request :
      (ignored_routes : List Text) (request : Request) (now : ℕ)
      → MetricsService Gauge Counter Histogram
      → Option Tracked × MetricsService Gauge Counter Histogram
  unfolding read_path track_request_started
  begin_request ignored_routes request now s =
      if is_infrastructure_route (read_path request) ignored_routes then (none, s) else (
        some (record { method = request.method; started_at = now; recorded = false }),
        track_request_started s,
      )

  -- `record`, the listener of both events.
  unfoldable pub record_end :
      Ending
      → Tracked
      → MetricsService Gauge Counter Histogram
      → Tracked × MetricsService Gauge Counter Histogram
  unfolding observation_of track_request_finished observe_http_request
  record_end ending tracked s = if tracked.recorded then (tracked, s) else (
    record tracked { recorded = true },
    observe_http_request (observation_of tracked ending) (track_request_finished s),
  )
