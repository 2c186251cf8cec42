-- ===== src/Metrics/Depth.antt =====
-- src/observability/metrics/metrics.service.ts: the gauges that a scrape samples.
--
-- What a collector answers is an argument, in the order in which the collectors answer. The registry
-- and the gauge of the Prometheus client are parameters.
pub mod Scrape
use iveri_nest_sdk.Common.{Bool, Option, none, some, List, [], ◌∷◌, ◌++◌, if◌then◌else◌}
use iveri_nest_sdk.Common.Text.{Text}
use iveri_nest_sdk.Metrics.Client.{LabelledGauge}

pub data QueueState : Type 0 where
  pending : QueueState
  in_flight : QueueState
  dead_lettered : QueueState

pub record QueueDepthReading (Number : Type 0) : Type 0 where
  pub state : QueueState
  pub depth : Number

pub record DepthLabels : Type 0 where
  pub queue : Text
  pub state : QueueState

-- What a collector answers: `none` is a rejection.
pub record Collected (Number : Type 0) : Type 0 where
  pub queue : Text
  pub readings : Option (List (QueueDepthReading Number))

-- The collectors and sources that features have registered, the last one last.
pub record Registered (Collector Source : Type 0) : Type 0 where
  pub queue_depth_collectors : List Collector
  pub metric_sources : List Source

module _ {Collector Source : Type 0} where
  unfoldable pub register_queue_depth_collector :
      Collector → Registered Collector Source → Registered Collector Source
  register_queue_depth_collector collector r = record r {
    queue_depth_collectors = r.queue_depth_collectors ++ (collector ∷ []);
  }

  unfoldable pub register_source :
      Source → Registered Collector Source → Registered Collector Source
  register_source source r = record r { metric_sources = r.metric_sources ++ (source ∷ []) }

module _ {Number Gauge : Type 0} (g : LabelledGauge DepthLabels Number Gauge) where
  -- The `for` loop over the readings of one queue.
  unfoldable pub set_all : Text → List (QueueDepthReading Number) → Gauge → Gauge
  set_all queue [] s = s
  set_all queue (r ∷ rs) s =
      set_all queue rs (g.set (record { queue = queue; state = r.state }) r.depth s)

  -- The gauge after one collector, and the queue that the warning names, if there is one.
  unfoldable pub refresh_one : Collected Number → Gauge → Gauge × Option Text
  unfolding set_all
  refresh_one c s = elim c.readings [
    | none ↦ (s, some c.queue)
    | some readings ↦ (set_all c.queue readings s, none)
  ]

  unfoldable pub refresh_all : List (Collected Number) → Gauge → Gauge
  unfolding refresh_one
  refresh_all [] s = s
  refresh_all (c ∷ cs) s = refresh_all cs (refresh_one c s).0

  unfoldable pub refresh_queue_depth : List (Collected Number) → Gauge → Gauge
  unfolding refresh_all
  refresh_queue_depth cs s = refresh_all cs (g.reset s)

-- A source's `refresh` on the state of its metrics: what it did before it threw stays.
pub record MetricSource (Metrics : Type 0) : Type 0 where
  pub name : Text
  pub refresh : Metrics → Metrics
  pub throws : Bool

-- Each source is sampled, whatever another one does; the names are those of the warnings.
unfoldable refresh_sources :
    {Metrics : Type 0} → List (MetricSource Metrics) → Metrics → Metrics × List Text
refresh_sources [] s = (s, [])
refresh_sources (source ∷ sources) s =
    let rest = refresh_sources sources (source.refresh s) in
    (rest.0, if source.throws then source.name ∷ rest.1 else rest.1)

-- What a page shows, and what is set on its response.
pub record Scraped : Type 0 where
  pub content_type : Text
  pub page : Text

module _ {Number Gauge Metrics : Type 0} (g : LabelledGauge DepthLabels Number Gauge)
    (metrics : Gauge → Metrics → Text) where
  -- The queues and the sources are sampled side by side, on metrics of their own; `metrics` writes
  -- the registry out.
  unfoldable render : List (Collected Number) → List (MetricSource Metrics) → Gauge → Metrics → Text
  unfolding refresh_queue_depth refresh_sources
  render answers sources depths s =
      metrics (refresh_queue_depth g answers depths) (refresh_sources sources s).0

  unfoldable pub scrape :
      (content_type : Text)
      → List (Collected Number)
      → List (MetricSource Metrics)
      → Gauge
      → Metrics
      → Scraped
  unfolding render
  scrape content_type answers sources depths s = record {
    content_type = content_type;
    page = render answers sources depths s;
  }
