-- ===== src/Metrics/Pool.antt =====
-- src/observability/metrics/database-pool.metric-source.ts.
--
-- The numbers of JavaScript and their subtraction are parameters, as is the gauge.
use Prim.Native.String.{String}
use iveri_nest_sdk.Common.{◌≡◌, refl, ◌∙◌, Bool, true, false, Option, none, some, if◌then◌else◌}
use iveri_nest_sdk.Metrics.Client.{LabelledGauge, IsLabelledGauge}

pub data PoolState : Type 0 where
  total : PoolState
  idle : PoolState
  in_use : PoolState
  waiting : PoolState

abbrev pub pool_state_eq : PoolState → PoolState → Bool
pool_state_eq total total = true
pool_state_eq idle idle = true
pool_state_eq in_use in_use = true
pool_state_eq waiting waiting = true
pool_state_eq _ _ = false

-- What a property of the driver's pool holds, and what the driver's `master` is.
pub data Property (Number : Type 0) : Type 0 where
  number : Number → Property Number
  other : Property Number

pub data Master (Number : Type 0) : Type 0 where
  object : (String → Property Number) → Master Number
  no_object : Master Number

pub record PoolCounts (Number : Type 0) : Type 0 where
  pub total : Number
  pub idle : Number
  pub waiting : Number

module _ {Number : Type 0} where
  unfoldable pub read_number : (String → Property Number) → String → Option Number
  read_number source property = elim (source property) [ number n ↦ some n | other ↦ none ]

  unfoldable pub all_counts :
      Option Number → Option Number → Option Number → Option (PoolCounts Number)
  all_counts (some t) (some i) (some w) = some (record { total = t; idle = i; waiting = w })
  all_counts _ _ _ = none

  -- Nothing is read unless all three counts are numbers.
  unfoldable pub read_pool_counts : Master Number → Option (PoolCounts Number)
  unfolding read_number all_counts
  read_pool_counts no_object = none
  read_pool_counts (object pool) =
      all_counts (read_number pool "totalCount") (read_number pool "idleCount")
        (read_number pool "waitingCount")

module _ {Number Gauge : Type 0} (sub : Number → Number → Number)
    (g : LabelledGauge PoolState Number Gauge) where
  unfoldable set_counts : Option (PoolCounts Number) → Gauge → Gauge
  set_counts none s = g.reset s
  set_counts (some counts) s = g.set waiting counts.waiting (
      g.set in_use (sub counts.total counts.idle)
        (g.set idle counts.idle (g.set total counts.total s)))

  unfoldable pub refresh : Master Number → Gauge → Gauge
  unfolding read_pool_counts set_counts
  refresh master s = set_counts (read_pool_counts master) s

  -- What the pool's counts say of a state.
  abbrev pub sampled : PoolState → Option (PoolCounts Number) → Option Number
  sampled state none = none
  sampled total (some counts) = some counts.total
  sampled idle (some counts) = some counts.idle
  sampled in_use (some counts) = some (sub counts.total counts.idle)
  sampled waiting (some counts) = some counts.waiting

  module _ (laws : IsLabelledGauge g)
      (same : (k l : PoolState) → g.same k l ≡ pool_state_eq k l) where
    value-set :
        (l k : PoolState) (v : Number) (s : Gauge)
        → g.value l (g.set k v s) ≡ (if pool_state_eq k l then some v else g.value l s)
    value-set l k v s = rw (laws.value-set l k v s, same k l) refl

    set_counts-sampled :
        (state : PoolState) (counts : Option (PoolCounts Number)) (s : Gauge)
        → g.value state (set_counts counts s) ≡ sampled state counts
    unfolding set_counts
    set_counts-sampled state none s = laws.value-reset state s
    set_counts-sampled waiting (some counts) s = value-set waiting waiting counts.waiting _
    set_counts-sampled in_use (some counts) s =
        value-set in_use waiting counts.waiting _ ∙ value-set in_use in_use _ _
    set_counts-sampled idle (some counts) s =
        value-set idle waiting counts.waiting _
        ∙ value-set idle in_use _ _
        ∙ value-set idle idle counts.idle _
    set_counts-sampled total (some counts) s =
        value-set total waiting counts.waiting _
        ∙ value-set total in_use _ _
        ∙ value-set total idle counts.idle _
        ∙ value-set total total counts.total s

    -- After a refresh each of the four series has the value that this reading of the pool gives, the
    -- connections in use being the total less the idle ones, or, if any of the three counts could
    -- not be read, none of the four has a value, whatever the gauge had before.
    refresh-sampled :
        (state : PoolState) (master : Master Number) (s : Gauge)
        → g.value state (refresh master s) ≡ sampled state (read_pool_counts master)
    unfolding refresh
    refresh-sampled state master s = set_counts-sampled state (read_pool_counts master) s
