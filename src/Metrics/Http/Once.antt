-- ===== src/Metrics/Http/Once.antt =====
-- A request is recorded once, at the first end of its response.
use iveri_nest_sdk.Common.{
  ℕ, ◌≡◌, refl, true, false, Option, none, some, List, [], ◌∷◌, Bool-cases, inl, inr, if◌then◌else◌,
}
use iveri_nest_sdk.Common.Text.{Text}
use iveri_nest_sdk.Exception.Route.{is_infrastructure_route}
use iveri_nest_sdk.Metrics.Client.{Meters, IsMeters}
use iveri_nest_sdk.Metrics.Http.{
  MetricsService, Request, Tracked, Ending, read_path, observation_of, observe_http_request,
  begin_request, record_end,
}

module _ {Gauge Counter Histogram : Type 0} (m : Meters Gauge Counter Histogram) where
  -- The events of one response, in their order.
  unfoldable end_all :
      List Ending
      → Option Tracked
      → MetricsService Gauge Counter Histogram
      → MetricsService Gauge Counter Histogram
  unfolding record_end
  end_all endings none s = s
  end_all [] (some tracked) s = s
  end_all (ending ∷ endings) (some tracked) s =
      let ended = record_end m ending tracked s in end_all endings (some ended.0) ended.1

  unfoldable serve :
      (ignored_routes : List Text) (request : Request) (now : ℕ)
      → List Ending
      → MetricsService Gauge Counter Histogram
      → MetricsService Gauge Counter Histogram
  unfolding end_all begin_request
  serve ignored_routes request now endings s =
      let begun = begin_request m ignored_routes request now s in end_all endings begun.0 begun.1

  end_all-recorded :
      (method : Text) (now : ℕ) (endings : List Ending) (s : MetricsService Gauge Counter Histogram)
      → end_all endings (some (record { method = method; started_at = now; recorded = true })) s ≡ s
  unfolding end_all
  end_all-recorded method now [] s = refl
  end_all-recorded method now (ending ∷ endings) s = end_all-recorded method now endings s

  -- Whatever ends a response, `finish`, `close` or both in any order and number: a request that is
  -- not ignored leaves the service as one observation leaves it, that of its first end, and the
  -- in-flight gauge as it was; a request that is ignored leaves the service as it was.
  serve-once :
      (laws : IsMeters m) (ignored_routes : List Text) (request : Request) (now : ℕ)
      (first : Ending) (later : List Ending) (s : MetricsService Gauge Counter Histogram)
      → serve ignored_routes request now (first ∷ later) s ≡ (
          if is_infrastructure_route (read_path request) ignored_routes
          then s
          else observe_http_request m
              (observation_of
                (record { method = request.method; started_at = now; recorded = false })
                first)
              s)
  unfolding serve
  serve-once laws ignored_routes request now first later s =
      elim (Bool-cases (is_infrastructure_route (read_path request) ignored_routes)) [
        | inl ignored ↦ rw ignored refl
        | inr counted ↦
            rw (counted, laws.dec-inc s.http_in_flight)
              (end_all-recorded request.method now later (
                observe_http_request m
                  (observation_of
                    (record { method = request.method; started_at = now; recorded = false }) first)
                  s))
      ]
