-- ===== src/Metrics/Http/InFlight.antt =====
-- The gauge of the requests in flight, over any interleaving of any number of requests.
use iveri_nest_sdk.Common.{ℕ, zero, suc, ◌+◌, ◌≡◌, Option, none, some, List, [], ◌∷◌, if◌then◌else◌}
use iveri_nest_sdk.Common.Text.{Text}
use iveri_nest_sdk.Metrics.Client.{Meters, IsMeters}
use iveri_nest_sdk.Metrics.Http.{
  MetricsService, Request, Tracked, Ending, begin_request, record_end,
}

-- What reaches the middleware: a request with the clock, or an end of the response of the tracked
-- request at a place in the list of those, the last to arrive first.
pub data Event : Type 0 where
  arrive : Request → (now : ℕ) → Event
  end_at : ℕ → Ending → Event

pub record Server (Gauge Counter Histogram : Type 0) : Type 0 where
  pub service : MetricsService Gauge Counter Histogram
  pub tracked : List Tracked

abbrev open_count : List Tracked → ℕ
open_count [] = 0
open_count (t ∷ ts) = if t.recorded then open_count ts else suc (open_count ts)

abbrev ended_count : List Tracked → ℕ
ended_count [] = 0
ended_count (t ∷ ts) = if t.recorded then suc (ended_count ts) else ended_count ts

-- `track` puts a request in front of the others, if it is tracked.
abbrev track : Option Tracked → List Tracked → List Tracked
track none ts = ts
track (some t) ts = t ∷ ts

module _ {Gauge Counter Histogram : Type 0} (m : Meters Gauge Counter Histogram) where
  unfoldable end_request :
      ℕ
      → Ending
      → List Tracked
      → MetricsService Gauge Counter Histogram
      → List Tracked × MetricsService Gauge Counter Histogram
  unfolding record_end
  end_request i ending [] s = ([], s)
  end_request zero ending (t ∷ ts) s =
      let ended = record_end m ending t s in (ended.0 ∷ ts, ended.1)
  end_request (suc i) ending (t ∷ ts) s =
      let rest = end_request i ending ts s in (t ∷ rest.0, rest.1)

  unfoldable pub step :
      List Text → Event → Server Gauge Counter Histogram → Server Gauge Counter Histogram
  unfolding end_request begin_request
  step ignored_routes (arrive request now) s =
      let begun = begin_request m ignored_routes request now s.service in
      record { service = begun.1; tracked = track begun.0 s.tracked }
  step ignored_routes (end_at i ending) s =
      let ended = end_request i ending s.tracked s.service in
      record { service = ended.1; tracked = ended.0 }

  unfoldable pub run :
      List Text → List Event → Server Gauge Counter Histogram → Server Gauge Counter Histogram
  unfolding step
  run ignored_routes [] s = s
  run ignored_routes (event ∷ events) s = run ignored_routes events (step ignored_routes event s)

  -- The gauge after `n` calls of `inc`.
  abbrev raised : ℕ → Gauge → Gauge
  raised zero g = g
  raised (suc n) g = m.inc (raised n g)

  -- The gauge stands one above `g` for each open request, and the counter has counted each ended one
  -- since `c`.
  abbrev pub IsAccounted : Gauge → Counter → Server Gauge Counter Histogram → Type 0
  IsAccounted g c s =
      (s.service.http_in_flight ≡ raised (open_count s.tracked) g)
      × (m.total s.service.http_requests ≡ m.total c + ended_count s.tracked)

  module _ (laws : IsMeters m) (g : Gauge) (c : Counter) where
    abbrev Stands : MetricsService Gauge Counter Histogram → ℕ → ℕ → Type 0
    Stands s opened ended =
        ((n : ℕ) → n ≡ opened → s.http_in_flight ≡ raised n g)
        × (m.total s.http_requests ≡ m.total c + ended)
