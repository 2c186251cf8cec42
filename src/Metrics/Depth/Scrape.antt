-- ===== src/Metrics/Depth/Scrape.antt =====
-- What the queue depth gauge shows to a scrape.
use iveri_nest_sdk.Common.{
  ◌≡◌, refl, ap, ◌∙◌, Bool, true, false, Option, none, some, List, [], ◌∷◌, ◌++◌, if◌then◌else◌,
  Option-cases, inl, inr, ◌&&◌, All,
}
use iveri_nest_sdk.Common.Text.{Text, text_eq, text_eq_refl}
use iveri_nest_sdk.Metrics.Client.{LabelledGauge, IsLabelledGauge}
use iveri_nest_sdk.Metrics.Depth.{
  QueueState, pending, in_flight, dead_lettered, QueueDepthReading, DepthLabels, Collected, set_all,
  refresh_one, refresh_all, refresh_queue_depth,
}

abbrev state_eq : QueueState → QueueState → Bool
state_eq pending pending = true
state_eq in_flight in_flight = true
state_eq dead_lettered dead_lettered = true
state_eq _ _ = false

-- Two label sets name one series where the queues and the states agree.
abbrev pub labels_eq : DepthLabels → DepthLabels → Bool
labels_eq k l = text_eq k.queue l.queue && state_eq k.state l.state

-- The depth that readings report of a state: the last of them.
abbrev pub reported :
    {Number : Type 0} → QueueState → List (QueueDepthReading Number) → Option Number → Option Number
reported state [] earlier = earlier
reported state (r ∷ rs) earlier =
    reported state rs (if state_eq r.state state then some r.depth else earlier)

abbrev depth_of :
    {Number : Type 0} → QueueState → Option (List (QueueDepthReading Number)) → Option Number
depth_of state none = none
depth_of state (some rs) = reported state rs none

module _ {Number Gauge : Type 0} (g : LabelledGauge DepthLabels Number Gauge)
    (laws : IsLabelledGauge g) (same : (k l : DepthLabels) → g.same k l ≡ labels_eq k l) where
  -- No collector of the list is for the queue.
  abbrev Others : Text → List (Collected Number) → Type 0
  Others queue cs = All (λ c. text_eq c.queue queue ≡ false) cs

  value-set_all :
      (queue : Text) (state : QueueState) (rs : List (QueueDepthReading Number)) (s : Gauge)
      → g.value (record { queue = queue; state = state }) (set_all g queue rs s)
        ≡ reported state rs (g.value (record { queue = queue; state = state }) s)
  unfolding set_all
  value-set_all queue state [] s = refl
  value-set_all queue state (r ∷ rs) s =
      value-set_all queue state rs (g.set (record { queue = queue; state = r.state }) r.depth s)
      ∙ ap (reported state rs) (
          rw
            (
              laws.value-set (record { queue = queue; state = state })
                  (record { queue = queue; state = r.state }) r.depth s,
              same (record { queue = queue; state = r.state })
                  (record { queue = queue; state = state }),
              text_eq_refl queue,
            )
            refl)

  value-set_all_other :
      (queue other : Text) (state : QueueState) (rs : List (QueueDepthReading Number)) (s : Gauge)
      → text_eq other queue ≡ false
      → g.value (record { queue = queue; state = state }) (set_all g other rs s)
        ≡ g.value (record { queue = queue; state = state }) s
  unfolding set_all
  value-set_all_other queue other state [] s ne = refl
  value-set_all_other queue other state (r ∷ rs) s ne =
      value-set_all_other queue other state rs
        (g.set (record { queue = other; state = r.state }) r.depth s) ne
      ∙ (rw
          (
            laws.value-set (record { queue = queue; state = state })
                (record { queue = other; state = r.state }) r.depth s,
            same (record { queue = other; state = r.state })
                (record { queue = queue; state = state }),
            ne,
          )
          refl)

  refresh_one-other :
      (queue : Text) (state : QueueState) (c : Collected Number) (s : Gauge)
      → text_eq c.queue queue ≡ false
      → g.value (record { queue = queue; state = state }) (refresh_one g c s).0
        ≡ g.value (record { queue = queue; state = state }) s
  unfolding refresh_one
  refresh_one-other queue state c s ne = elim (Option-cases c.readings) [
    | inl rejected ↦ rw rejected refl
    | inr (rs, answered) ↦ rw answered (value-set_all_other queue c.queue state rs s ne)
  ]

  refresh_one-depth :
      (state : QueueState) (c : Collected Number) (s : Gauge)
      → g.value (record { queue = c.queue; state = state }) s ≡ none
      → g.value (record { queue = c.queue; state = state }) (refresh_one g c s).0
        ≡ depth_of state c.readings
  unfolding refresh_one
  refresh_one-depth state c s absent = elim (Option-cases c.readings) [
    | inl rejected ↦ rw rejected absent
    | inr (rs, answered) ↦
        rw answered (value-set_all c.queue state rs s ∙ ap (reported state rs) absent)
  ]

  refresh_all-elsewhere :
      (queue : Text) (state : QueueState) (cs : List (Collected Number)) (s : Gauge)
      → Others queue cs
      → g.value (record { queue = queue; state = state }) (refresh_all g cs s)
        ≡ g.value (record { queue = queue; state = state }) s
  unfolding refresh_all
  refresh_all-elsewhere queue state [] s h = refl
  refresh_all-elsewhere queue state (c ∷ cs) s h =
      refresh_all-elsewhere queue state cs (refresh_one g c s).0 h.1
      ∙ refresh_one-other queue state c s h.0

  refresh_all-append :
      (cs ds : List (Collected Number)) (s : Gauge)
      → refresh_all g (cs ++ ds) s ≡ refresh_all g ds (refresh_all g cs s)
  unfolding refresh_all
  refresh_all-append [] ds s = refl
  refresh_all-append (c ∷ cs) ds s = refresh_all-append cs ds (refresh_one g c s).0

  at_one :
      (later : List (Collected Number)) (c : Collected Number) (state : QueueState) (s : Gauge)
      → Others c.queue later
      → g.value (record { queue = c.queue; state = state }) s ≡ none
      → g.value (record { queue = c.queue; state = state }) (refresh_all g (c ∷ later) s)
        ≡ depth_of state c.readings
  unfolding refresh_all
  at_one later c state s after_it absent =
      refresh_all-elsewhere c.queue state later (refresh_one g c s).0 after_it
      ∙ refresh_one-depth state c s absent

  -- After a sampling that no other scrape interrupts, a queue with one collector shows, for each
  -- state, exactly the last depth that its collector reported of it, wherever the collector stands
  -- in the order of the answers and whatever the others did; nothing is shown of a state that was
  -- not reported, nor of a queue whose collector was rejected, even if the gauge had a value.
  pub refresh_queue_depth-exact :
      (earlier later : List (Collected Number)) (c : Collected Number) (state : QueueState)
      (s : Gauge)
      → Others c.queue earlier
      → Others c.queue later
      → g.value
          (record { queue = c.queue; state = state })
          (refresh_queue_depth g (earlier ++ (c ∷ later)) s)
        ≡ depth_of state c.readings
  unfolding refresh_queue_depth
  refresh_queue_depth-exact earlier later c state s before_it after_it =
      let l : DepthLabels = record { queue = c.queue; state = state } in
      let start = refresh_all g earlier (g.reset s) in
      ap (g.value l) (refresh_all-append earlier (c ∷ later) (g.reset s))
      ∙ at_one later c state start after_it
          (refresh_all-elsewhere c.queue state earlier (g.reset s) before_it ∙ laws.value-reset l s)
