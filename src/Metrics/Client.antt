-- ===== src/Metrics/Client.antt =====
-- What the metrics call of the Prometheus client, and what is documented of it.
use iveri_nest_sdk.Common.{ℕ, ◌+◌, ◌≡◌, Bool, Option, none, some, if◌then◌else◌}
use iveri_nest_sdk.Common.Text.{Text}
use iveri_nest_sdk.Outbox.Retry.{Fraction}

-- The labels that the two HTTP series share.
pub record HttpLabels : Type 0 where
  pub method : Text
  pub route : Text
  pub status_code : ℕ

-- A gauge without labels, and a counter and a histogram with those labels. `total` sums the series
-- of a counter.
pub record Meters (Gauge Counter Histogram : Type 0) : Type 0 where
  pub inc : Gauge → Gauge
  pub dec : Gauge → Gauge
  pub count : HttpLabels → Counter → Counter
  pub observe : HttpLabels → Fraction → Histogram → Histogram
  pub total : Counter → ℕ

pub record IsMeters {Gauge Counter Histogram : Type 0} (m : Meters Gauge Counter Histogram)
    : Type 0 where
  pub dec-inc : (g : Gauge) → m.dec (m.inc g) ≡ g
  pub total-count : (l : HttpLabels) (c : Counter) → m.total (m.count l c) ≡ m.total c + 1

-- A gauge with labels: a series that was never set, or that was reset, has no value.
pub record LabelledGauge (Label Value Gauge : Type 0) : Type 0 where
  pub same : Label → Label → Bool
  pub set : Label → Value → Gauge → Gauge
  pub reset : Gauge → Gauge
  pub value : Label → Gauge → Option Value

pub record IsLabelledGauge {Label Value Gauge : Type 0} (g : LabelledGauge Label Value Gauge)
    : Type 0 where
  pub value-set :
      (l k : Label) (v : Value) (s : Gauge)
      → g.value l (g.set k v s) ≡ (if g.same k l then some v else g.value l s)
  pub value-reset : (l : Label) (s : Gauge) → g.value l (g.reset s) ≡ none
