-- ===== src/Health/Probes.antt =====
-- When the probes are positive, and that the startup probe stays so.
use iveri_nest_sdk.Common.{
  ◌≡◌, ◌↔◌, ◌⊎◌, refl, sym, ap, ap₂, ◌∙◌, Bool, true, false, Bool-cases, not, Option, none, some,
  List, [], ◌∷◌, map, inl, inr, arith, if◌then◌else◌, All,
}
use iveri_nest_sdk.Common.Text.{Text}
use iveri_nest_sdk.Health.Controller.{
  CheckRun, HealthCheckResult, ProbeResponse, HealthController, result_of, run_one, run, all_up,
  ready, startup,
}

names-run : (runs : List CheckRun) → map (λ r. r.name) (run runs) ≡ map (λ c. c.name) runs
unfolding run run_one
names-run [] = refl
names-run (c ∷ runs) = ap₂ ◌∷◌ (name-result c.name c.failure) (names-run runs)
  where
    name-result : (n : Text) (f : Option (Option Text)) → (result_of n f).name ≡ n
    name-result n none = refl
    name-result n (some m) = refl

is_up-result : (n : Text) (f : Option (Option Text)) → ((result_of n f).is_up ≡ true) ↔ (f ≡ none)
is_up-result n none = (λ h. refl, λ h. refl)
is_up-result n (some m) = (λ h. absurd (cc), λ h. absurd (cc))

all_up-head : (c : CheckRun) → c.failure ≡ none → (result_of c.name c.failure).is_up ≡ true
all_up-head c h = (is_up-result c.name c.failure).1 h

all_up-run : (runs : List CheckRun) → (all_up (run runs) ≡ true) ↔ All (λ c. c.failure ≡ none) runs
unfolding all_up run run_one
all_up-run [] = (λ h. tt, λ h. refl)
all_up-run (c ∷ runs) = (
  λ h. (
    (is_up-result c.name c.failure).0 (ground (arith, h)),
    (all_up-run runs).0 (ground (arith, h)),
  ),
  λ h. rw (all_up-head c h.0, (all_up-run runs).1 h.1) refl,
)

module _ {A : Type 0} where
  pick_inr :
      (b : Bool) (x y r : A)
      → ◌≡◌ {A = A ⊎ A} (if not b then inl x else inr y) (inr r)
      → (b ≡ true) × (y ≡ r)
  pick_inr true x y r h = (refl, cc)
  pick_inr false x y r h = absurd (cc)

  pick_inl :
      (b : Bool) (x y r : A)
      → ◌≡◌ {A = A ⊎ A} (if not b then inl x else inr y) (inl r)
      → (b ≡ false) × (x ≡ r)
  pick_inl true x y r h = absurd (cc)
  pick_inl false x y r h = (refl, cc)

named_response :
    (runs : List CheckRun) (r : ProbeResponse)
    → run runs ≡ r.checks
    → map (λ x. x.name) r.checks ≡ map (λ c. c.name) runs
named_response runs r e = sym (ap (map (λ x. x.name)) e) ∙ names-run runs

latch :
    (started : Bool) (prior : List HealthCheckResult) (runs later : List CheckRun)
    (r : ProbeResponse)
    → let health : HealthController = record { started = started; startup_results = prior } in
      ((startup runs health).0 ≡ inl r → (startup runs health).1 ≡ health)
      × ((startup runs health).0 ≡ inr r
          → startup later (startup runs health).1 ≡ (inr r, (startup runs health).1))
unfolding startup
latch true prior runs later r = (λ h. refl, λ h. ap₂ (λ a b. (a, b)) h refl)
latch false prior runs later r = elim (Bool-cases (all_up (run runs))) [
  | inl e ↦ rw e (λ h. absurd (cc), λ h. ap₂ (λ a b. (a, b)) h refl)
  | inr e ↦ rw e (λ h. refl, λ h. absurd (cc))
]

-- The readiness probe answers 200 exactly if no registered check failed, and either answer has one
-- result for each check, in their order, under the check's name, however many fail.
ready-outcome :
    (runs : List CheckRun)
    → (((r : ProbeResponse) × (ready runs ≡ inr r)) ↔ All (λ c. c.failure ≡ none) runs)
      × ((r : ProbeResponse)
          → (ready runs ≡ inr r) ⊎ (ready runs ≡ inl r)
          → map (λ x. x.name) r.checks ≡ map (λ c. c.name) runs)
unfolding ready
ready-outcome runs =
    let up : ProbeResponse = record { is_positive = true; checks = run runs } in
    let down : ProbeResponse = record { is_positive = false; checks = run runs } in
    (
      (
        λ p. (all_up-run runs).0 (pick_inr (all_up (run runs)) down up p.0 p.1).0,
        λ h. (up, rw ((all_up-run runs).1 h) refl),
      ),
      λ r e. elim e [
        | inl f ↦
            named_response runs r (ap (λ x. x.checks) (pick_inr (all_up (run runs)) down up r f).1)
        | inr f ↦
            named_response runs r (ap (λ x. x.checks) (pick_inl (all_up (run runs)) down up r f).1)
      ],
    )

-- The startup probe answers 503 and changes nothing until a run of its checks has no failure; from
-- the first 200 on it answers the same, whatever the checks would do.
startup-latched :
    (runs later : List CheckRun) (health : HealthController) (r : ProbeResponse)
    → ((startup runs health).0 ≡ inl r → (startup runs health).1 ≡ health)
      × ((startup runs health).0 ≡ inr r
          → startup later (startup runs health).1 ≡ (inr r, (startup runs health).1))
startup-latched runs later health r = latch health.started health.startup_results runs later r
