-- ===== src/Metrics/Registry/Names.antt =====
-- The names of one process' metrics are taken once.
use mathlib.Core.List.{append-nil}
use iveri_nest_sdk.Common.{
  ◌≡◌, refl, ap, ◌∙◌, Bool, true, false, Option, none, some, List, [], ◌∷◌, ◌++◌, Bool-cases,
  Option-cases, inl, inr, All, if◌then◌else◌,
}
use iveri_nest_sdk.Common.Text.{Text, codes, includes}
use iveri_nest_sdk.Metrics.Registry.{
  MetricConfiguration, MetricsModuleOptions, RegistryClient, IsRegistryClient, register_all,
  with_defaults, construct_service, construct_sweeps, construct_pool, service_configurations,
  sweep_configurations, pool_configurations, last_success_configuration, spread,
}

-- The names after configurations, of those before.
abbrev extend : List MetricConfiguration → List Text → List Text
extend [] names = names
extend (c ∷ cs) names = extend cs (c.name ∷ names)

abbrev AreFree : List MetricConfiguration → List Text → Type 0
AreFree [] names = Unit
AreFree (c ∷ cs) names = (includes names c.name ≡ false) × AreFree cs (c.name ∷ names)

-- All that a service constructs, in the order of its modules.
abbrev all_configurations : List MetricConfiguration
all_configurations = service_configurations ++ (sweep_configurations ++ pool_configurations)

abbrev then_ {ℓ} : {A : Type ℓ} → Option A → (A → Option A) → Option A
then_ none f = none
then_ (some a) f = f a

abbrev collects : Option Bool → Bool
collects none = true
collects (some b) = b

module _ {Registry : Type 0} (r : RegistryClient Registry) where
  -- The three constructors, in turn; the first that throws ends the boot.
  unfoldable pub start : MetricsModuleOptions → Registry → Option Registry
  unfolding construct_service construct_sweeps construct_pool
  start options s =
      then_ (construct_service r options s)
        (λ t. then_ (construct_sweeps r t) (λ u. construct_pool r u))

module _ {Registry : Type 0} (r : RegistryClient Registry) (default_names : List Text)
    (laws : IsRegistryClient r default_names) where
  register_all-free :
      (cs : List MetricConfiguration) (s : Registry)
      → AreFree cs (r.names s)
      → (t : Registry) × (register_all r cs s ≡ some t) × (r.names t ≡ extend cs (r.names s))
  unfolding register_all
  register_all-free [] s free = (s, refl, refl)
  register_all-free (c ∷ cs) s free =
      let (t, made, named) = laws.register-free c s free.0 in
      let rest = register_all-free cs t (rw named free.1) in
      (rest.0, rw (register_all, made) rest.1, rest.2 ∙ ap (extend cs) named)

  chained :
      (cs : List MetricConfiguration) (f : Registry → Option Registry)
      (ds : List MetricConfiguration) (s : Registry)
      → ((t : Registry) → f t ≡ register_all r ds t)
      → then_ (register_all r cs s) f ≡ register_all r (cs ++ ds) s
  unfolding register_all
  chained [] f ds s h = h s
  chained (c ∷ cs) f ds s h = elim (Option-cases (r.register c s)) [
    | inl thrown ↦ rw (register_all, thrown) refl
    | inr (t, made) ↦ rw (register_all, made) (chained cs f ds t h)
  ]

  collected :
      (s : Registry) → r.names s ≡ [] → r.names (r.collect_default_metrics s) ≡ default_names
  collected s empty =
      laws.names-default s ∙ ap (λ names. default_names ++ names) empty ∙ append-nil default_names

  AreFree-All :
      (on : Bool)
      → All (λ c. includes default_names c.name ≡ false) all_configurations
      → AreFree all_configurations (if on then default_names else [])
  AreFree-All true free = free
  AreFree-All false free = (refl, (refl, (refl, (refl, (refl, (refl, (refl, tt)))))))

  start-all :
      (options : MetricsModuleOptions) (s : Registry)
      → start r options s ≡ register_all r all_configurations (with_defaults r options s)
  unfolding start
  start-all options s =
      chained service_configurations _ (sweep_configurations ++ pool_configurations)
        (with_defaults r options s)
        (λ t. chained sweep_configurations (construct_pool r) pool_configurations t (λ u. refl))

  with_defaults-names :
      (options : MetricsModuleOptions) (s : Registry)
      → r.names s ≡ []
      → r.names (with_defaults r options s)
        ≡ (if collects options.collect_default_metrics then default_names else [])
  with_defaults-names options s empty =
      let labels = spread ((codes "service", options.service_name) ∷ []) options.default_labels in
      elim (Option-cases options.collect_default_metrics) [
        | inl unset ↦
            rw unset
              (collected (r.set_default_labels labels s) (laws.names-labels labels s ∙ empty))
        | inr (on, set) ↦ elim (Bool-cases on) [
          | inl collecting ↦
              rw (set, collecting)
                (collected (r.set_default_labels labels s) (laws.names-labels labels s ∙ empty))
          | inr bare ↦ rw (set, bare) (laws.names-labels labels s ∙ empty)
        ]
      ]

  -- A service that constructs its metrics, those of its sweeps and that of its pool on a new
  -- registry, or on one that a shutdown has cleared, constructs them all, and the registry then has
  -- their seven names and no other but the default metrics', if the default metrics have none of the
  -- seven and are collected; to construct those of the sweeps a second time throws.
  start-registers :
      (options : MetricsModuleOptions) (s : Registry)
      → r.names s ≡ []
      → All (λ c. includes default_names c.name ≡ false) all_configurations
      → (t : Registry) × (start r options s ≡ some t)
        × (r.names t
            ≡ extend all_configurations
                (if collects options.collect_default_metrics then default_names else []))
        × (construct_sweeps r t ≡ none)
  unfolding construct_sweeps register_all
  start-registers options s empty free =
      let names = if collects options.collect_default_metrics then default_names else [] in
      let named = with_defaults-names options s empty in
      let (t, made, has) =
        register_all-free all_configurations (with_defaults r options s)
          (rw named (AreFree-All (collects options.collect_default_metrics) free)) in
      let names_t = has ∙ ap (extend all_configurations) named in
      let taken : r.register last_success_configuration t ≡ none =
        laws.register-taken last_success_configuration t (rw names_t refl) in
      (t, start-all options s ∙ made, names_t, rw (register_all, taken) refl)
