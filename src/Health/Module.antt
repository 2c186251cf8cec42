-- ===== src/Health/Module.antt =====
-- src/health/health.module.ts: which check classes the module provides, and to which probe. A class
-- or a module is a number.
use iveri_nest_sdk.Common.{
  ℕ, ◌+◌, ◌≡◌, refl, sym, ap, ◌∙◌, arith, ◌==◌, Bool, any, Option, none, some, List, [], ◌∷◌, ◌++◌,
  if◌then◌else◌, Bool-cases, inl, inr,
}

pub record HealthModuleOptions : Type 0 where
  pub checks : Option (List ℕ)
  pub startup_checks : Option (List ℕ)
  pub imports : Option (List ℕ)

-- What is imported, the provided classes, and those whose instances each probe gets.
pub record DynamicModule : Type 0 where
  pub imports : List ℕ
  pub providers : List ℕ
  pub readiness_checks : List ℕ
  pub startup_checks : List ℕ

abbrev mem : ℕ → List ℕ → Bool
mem n ns = any (λ m. m == n) ns

-- `[...new Set(ns)]`, given what was inserted before.
unfoldable pub distinct : (before : List ℕ) → List ℕ → List ℕ
distinct before [] = []
distinct before (n ∷ ns) =
    let rest = distinct before ns in
    let others = distinct (n ∷ before) ns in if mem n before then rest else n ∷ others

unfoldable for_root : HealthModuleOptions → DynamicModule
unfolding distinct
for_root options =
    let readiness : List ℕ = elim options.checks [ none ↦ [] | some checks ↦ checks ] in
    let at_startup : List ℕ = elim options.startup_checks [
      | none ↦ readiness
      | some checks ↦ checks
    ] in
    record {
      imports = elim options.imports [ none ↦ [] | some imports ↦ imports ];
      providers = distinct [] (readiness ++ at_startup);
      readiness_checks = readiness;
      startup_checks = at_startup;
    }

abbrev pub times : ℕ → List ℕ → ℕ
times n [] = 0
times n (m ∷ ms) = if m == n then 1 + times n ms else times n ms

times-distinct :
    (n : ℕ) (before ns : List ℕ)
    → times n (distinct before ns) ≡ (if mem n before then 0 else if mem n ns then 1 else 0)
unfolding distinct
times-distinct n before [] = elim (Bool-cases (mem n before)) [
  | inl e ↦ rw e refl
  | inr e ↦ rw e refl
]
times-distinct n before (m ∷ ns) = elim (Bool-cases (m == n)) [
  | inl e ↦
      let same : m ≡ n = ground arith in
      elim (Bool-cases (mem m before)) [
        | inl old ↦
            let old_n = ap (λ k. mem k before) (sym same) ∙ old in
            rw (old, times-distinct n before ns, old_n) refl
        | inr new ↦
            let new_n = ap (λ k. mem k before) (sym same) ∙ new in
            rw (new, e, times-distinct n (m ∷ before) ns, e, new_n) refl
      ]
  | inr e ↦ elim (Bool-cases (mem m before)) [
    | inl old ↦ rw (old, times-distinct n before ns, e) refl
    | inr new ↦ rw (new, e, times-distinct n (m ∷ before) ns, e) refl
  ]
]

-- Each class that either probe runs is provided once, and no other is.
for_root-once :
    (options : HealthModuleOptions) (n : ℕ)
    → times n (for_root options).providers ≡ (
        if mem n ((for_root options).readiness_checks ++ (for_root options).startup_checks)
        then 1
        else 0)
unfolding for_root
for_root-once options n =
    times-distinct n [] ((for_root options).readiness_checks ++ (for_root options).startup_checks)
