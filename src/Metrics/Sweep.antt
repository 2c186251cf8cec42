-- ===== src/Metrics/Sweep.antt =====
-- src/observability/metrics/retention-sweep.metrics.ts.
--
-- The gauge and the counter are parameters; a clock is in milliseconds, and its quotient by 1000 an
-- exact fraction.
use iveri_nest_sdk.Common.{
  ℕ, ◌+◌, ◌≡◌, refl, ap, ◌∙◌, arith, ltb, Option, none, some, List, [], ◌∷◌, if◌then◌else◌,
  Bool-cases, inl, inr,
}
use iveri_nest_sdk.Common.Text.{Text, text_eq, text_eq_refl}
use iveri_nest_sdk.Outbox.Retry.{Fraction}
use iveri_nest_sdk.Metrics.Client.{LabelledGauge, IsLabelledGauge}

abbrev milliseconds_per_second : ℕ
milliseconds_per_second = 1000

-- A counter with labels: `inc` by 0 makes a series that has the value 0.
pub record LabelledCounter (Label Counter : Type 0) : Type 0 where
  pub inc : Label → ℕ → Counter → Counter
  pub count : Label → Counter → Option ℕ

abbrev pub added : ℕ → Option ℕ → ℕ
added n none = n
added n (some m) = m + n

pub record IsLabelledCounter {Counter : Type 0} (c : LabelledCounter Text Counter) : Type 0 where
  pub count-inc :
      (l k : Text) (n : ℕ) (s : Counter)
      → c.count l (c.inc k n s)
        ≡ (if text_eq k l then some (added n (c.count l s)) else c.count l s)

pub record SweepMetrics (Gauge Counter : Type 0) : Type 0 where
  pub last_success : Gauge
  pub rows : Counter

abbrev pub seconds : ℕ → Fraction
seconds now = record { numerator = now; denominator = milliseconds_per_second }

-- A completed sweep, with the clock at its report.
pub record Success : Type 0 where
  pub sweep : Text
  pub rows : ℕ
  pub now : ℕ

module _ {Gauge Counter : Type 0} (g : LabelledGauge Text Fraction Gauge)
    (c : LabelledCounter Text Counter) where
  unfoldable pub register :
      (sweep : Text) (now : ℕ) → SweepMetrics Gauge Counter → SweepMetrics Gauge Counter
  register sweep now s = record {
    last_success = g.set sweep (seconds now) s.last_success;
    rows = c.inc sweep 0 s.rows;
  }

  unfoldable record_success : Success → SweepMetrics Gauge Counter → SweepMetrics Gauge Counter
  record_success dto s = record {
    last_success = g.set dto.sweep (seconds dto.now) s.last_success;
    rows = if ltb 0 dto.rows then c.inc dto.sweep dto.rows s.rows else s.rows;
  }

  unfoldable record_all : List Success → SweepMetrics Gauge Counter → SweepMetrics Gauge Counter
  unfolding record_success
  record_all [] s = s
  record_all (dto ∷ dtos) s = record_all dtos (record_success dto s)

  -- The rows that the successes of a sweep expired, and the clock at the last of them.
  abbrev pub expired : Text → List Success → ℕ
  expired sweep [] = 0
  expired sweep (dto ∷ dtos) =
      if text_eq dto.sweep sweep then dto.rows + expired sweep dtos else expired sweep dtos

  abbrev last_at : Text → List Success → ℕ → ℕ
  last_at sweep [] now = now
  last_at sweep (dto ∷ dtos) now =
      last_at sweep dtos (if text_eq dto.sweep sweep then dto.now else now)

  module _ (gauge_laws : IsLabelledGauge g) (laws : IsLabelledCounter c)
      (same : (k l : Text) → g.same k l ≡ text_eq k l) where
    -- What the two series of a sweep say.
    abbrev Says : Text → ℕ → ℕ → SweepMetrics Gauge Counter → Type 0
    Says sweep at n s =
        (g.value sweep s.last_success ≡ some (seconds at)) × (c.count sweep s.rows ≡ some n)

    set-value :
        (l k : Text) (v : Fraction) (s : Gauge)
        → g.value l (g.set k v s) ≡ (if text_eq k l then some v else g.value l s)
    set-value l k v s = rw (gauge_laws.value-set l k v s, same k l) refl

    register-Says :
        (sweep : Text) (now : ℕ) (s : SweepMetrics Gauge Counter)
        → c.count sweep s.rows ≡ none
        → Says sweep now 0 (register sweep now s)
    unfolding register
    register-Says sweep now s absent = (
      rw (set-value sweep sweep (seconds now) s.last_success, text_eq_refl sweep) refl,
      rw (laws.count-inc sweep sweep 0 s.rows, text_eq_refl sweep, absent) refl,
    )

    counted :
        (sweep : Text) (n : ℕ) (dto : Success) (rows : Counter)
        → c.count sweep rows ≡ some n
        → c.count sweep (if ltb 0 dto.rows then c.inc dto.sweep dto.rows rows else rows)
          ≡ some (if text_eq dto.sweep sweep then n + dto.rows else n)
    counted sweep n dto rows h = elim (Bool-cases (text_eq dto.sweep sweep)) [
      | inl it ↦ elim (Bool-cases (ltb 0 dto.rows)) [
        | inl more ↦ rw (more, laws.count-inc sweep dto.sweep dto.rows rows, it, h) refl
        | inr none_left ↦
            let same_count : n ≡ n + dto.rows = ground (arith) in
            rw (none_left, it) (h ∙ ap some same_count)
      ]
      | inr other ↦ elim (Bool-cases (ltb 0 dto.rows)) [
        | inl more ↦ rw (more, laws.count-inc sweep dto.sweep dto.rows rows, other) h
        | inr none_left ↦ rw (none_left, other) h
      ]
    ]

    record_success-Says :
        (sweep : Text) (at n : ℕ) (dto : Success) (s : SweepMetrics Gauge Counter)
        → Says sweep at n s
        → Says sweep
            (if text_eq dto.sweep sweep then dto.now else at)
            (if text_eq dto.sweep sweep then n + dto.rows else n)
            (record_success dto s)
    unfolding record_success
    record_success-Says sweep at n dto s h = (
      elim (Bool-cases (text_eq dto.sweep sweep)) [
        | inl it ↦ rw (set-value sweep dto.sweep (seconds dto.now) s.last_success, it) refl
        | inr other ↦ rw (set-value sweep dto.sweep (seconds dto.now) s.last_success, other) h.0
      ],
      counted sweep n dto s.rows h.1,
    )

    record_all-Says :
        (sweep : Text) (dtos : List Success) (at n : ℕ) (s : SweepMetrics Gauge Counter)
        → Says sweep at n s
        → Says sweep (last_at sweep dtos at) (n + expired sweep dtos) (record_all dtos s)
    unfolding record_all
    record_all-Says sweep [] at n s h = (h.0, h.1 ∙ ap some (omega arith))
    record_all-Says sweep (dto ∷ dtos) at n s h =
        let rest =
          record_all-Says sweep dtos _ _ (record_success dto s)
            (record_success-Says sweep at n dto s h) in
        (rest.0, rest.1 ∙ ap some (ground arith))

    -- From its registration on, a sweep has both its series: the gauge has the instant of its last
    -- success, or that of the registration if it had none, and the counter the rows that all its
    -- successes expired, whatever other sweeps report in between.
    record_all-register :
        (sweep : Text) (now : ℕ) (dtos : List Success) (s : SweepMetrics Gauge Counter)
        → c.count sweep s.rows ≡ none
        → (g.value sweep (record_all dtos (register sweep now s)).last_success
            ≡ some (seconds (last_at sweep dtos now)))
          × (c.count sweep (record_all dtos (register sweep now s)).rows
              ≡ some (expired sweep dtos))
    record_all-register sweep now dtos s absent =
        let all =
          record_all-Says sweep dtos now 0 (register sweep now s)
            (register-Says sweep now s absent) in
        (all.0, all.1 ∙ ap some (omega arith))
