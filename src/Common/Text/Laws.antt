-- ===== src/Common/Text/Laws.antt =====
-- Splitting a text at a separator, trimming it and putting it into lower case.
use Prim.Native.Nat.{ℕ}
use mathlib.Core.Path.{◌≡◌, refl, sym, ap, ap₂, ◌∙◌}
use mathlib.Core.Logic.{◌≢◌, inl, inr}
use mathlib.Core.Bool.{true, false, not}
use mathlib.Core.List.{List, [], ◌∷◌, ◌++◌}
use native.Mathlib.Omega.{arith}
use iveri_nest_sdk.Common.Tests.{◌==◌, ==_refl, ==_iff, Bool-cases}
use iveri_nest_sdk.Common.Lists.{All, all}
use iveri_nest_sdk.Common.Text.{
  Text, before, after, cons-injective, to_lower_case, to_lower_unit, trim, trim_start, trim_end,
  keep_unless_blank, is_space, split, join, push,
}

-- A text without the code unit `c`.
abbrev pub Lacks : ℕ → Text → Type 0
Lacks c s = All (λ d. d ≢ c) s

-- Found by running the test.
pub Lacks-tested : (c : ℕ) (s : Text) → all (λ d. not (d == c)) s ≡ true → Lacks c s
Lacks-tested c [] h = tt
Lacks-tested c (d ∷ s) h = (ground (arith, h), Lacks-tested c s (ground (arith, h)))

pub append_cancel : (s t u : Text) → s ++ t ≡ s ++ u → t ≡ u
append_cancel [] t u h = h
append_cancel (c ∷ s) t u h = append_cancel s t u (cons-injective h).1

pub split_unique :
    (c : ℕ) (s t u v : Text)
    → Lacks c s
    → Lacks c t
    → s ++ (c ∷ u) ≡ t ++ (c ∷ v)
    → (s ≡ t) × (u ≡ v)
split_unique c [] [] u v _ _ h = (refl, (cons-injective h).1)
split_unique c [] (d ∷ t) u v _ k h = absurd (k.0 (sym (cons-injective h).0))
split_unique c (d ∷ s) [] u v k _ h = absurd (k.0 (cons-injective h).0)
split_unique c (d ∷ s) (e ∷ t) u v k l h =
    let (same, rest) = cons-injective h in
    let (ih, tails) = split_unique c s t u v k.1 l.1 rest in (ap₂ ◌∷◌ same ih, tails)

pub before-append : (c : ℕ) (s t : Text) → Lacks c s → before c (s ++ (c ∷ t)) ≡ s
unfolding before
before-append c [] t k = ground arith
before-append c (d ∷ s) t k = ground (arith, before-append c s t k.1)

pub after-skip : (c : ℕ) (s t : Text) → Lacks c s → after c (s ++ t) ≡ after c t
unfolding after
after-skip c [] t k = refl
after-skip c (d ∷ s) t k = ground (arith, after-skip c s t k.1)

pub after-here : (c : ℕ) (t : Text) → after c (c ∷ t) ≡ t
unfolding after
after-here c t = ground arith

pub before-after : (c : ℕ) (s : Text) → after c s ≢ [] → s ≡ before c s ++ (c ∷ after c s)
unfolding before after
before-after c [] h = absurd (h refl)
before-after c (d ∷ s) h = elim (Bool-cases (d == c)) [
  | inl e ↦ ground (arith, e)
  | inr e ↦ ground (arith, e, h, before-after c s)
]

lower-space : (c : ℕ) → to_lower_unit c ≢ 32 → c ≢ 32
unfolding to_lower_unit
lower-space c h = ground arith

pub Lacks-lower : (s : Text) → Lacks 32 (to_lower_case s) → Lacks 32 s
unfolding to_lower_case
Lacks-lower [] h = h
Lacks-lower (c ∷ s) h = (lower-space c h.0, Lacks-lower s h.1)

trim_end-keep :
    (c : ℕ) (s : Text) → trim_end (keep_unless_blank c s) ≡ keep_unless_blank c (trim_end s)
unfolding keep_unless_blank trim_end
trim_end-keep c [] = elim (Bool-cases (is_space c)) [
  | inl e ↦ ground (arith, e)
  | inr e ↦ ground (arith, e)
]
trim_end-keep c (d ∷ s) = refl

trim_end-trim_end : (s : Text) → trim_end (trim_end s) ≡ trim_end s
unfolding trim_end
trim_end-trim_end [] = refl
trim_end-trim_end (c ∷ s) =
    trim_end-keep c (trim_end s) ∙ ap (keep_unless_blank c) (trim_end-trim_end s)

trim_start-keep :
    (c : ℕ) (s : Text)
    → is_space c ≡ false
    → trim_start (keep_unless_blank c s) ≡ keep_unless_blank c s
unfolding keep_unless_blank trim_start
trim_start-keep c [] h = ground (arith, h)
trim_start-keep c (d ∷ s) h = ground (arith, h)

trim_start-trim : (s : Text) → trim_start (trim_end (trim_start s)) ≡ trim_end (trim_start s)
unfolding trim_start trim_end
trim_start-trim [] = refl
trim_start-trim (c ∷ s) = elim (Bool-cases (is_space c)) [
  | inl e ↦ rw e (trim_start-trim s)
  | inr e ↦ rw e (trim_start-keep c (trim_end s) e)
]

pub trim-trim : (s : Text) → trim (trim s) ≡ trim s
unfolding trim
trim-trim s = ap trim_end (trim_start-trim s) ∙ trim_end-trim_end (trim_start s)

-- No part holds the separator.
abbrev pub AllLack : ℕ → List Text → Type 0
AllLack sep ps = All (λ p. Lacks sep p) ps

split-piece :
    (sep : ℕ) (p rest : Text) → Lacks sep p → split sep (p ++ (sep ∷ rest)) ≡ p ∷ split sep rest
unfolding split
split-piece sep [] rest k = rw (==_refl sep) refl
split-piece sep (c ∷ p) rest k =
    let other : (c == sep) ≡ false = ground (arith, k.0) in
    rw (other, split-piece sep p rest k.1) refl

split-last : (sep : ℕ) (p : Text) → Lacks sep p → split sep p ≡ p ∷ []
unfolding split
split-last sep [] k = refl
split-last sep (c ∷ p) k =
    let other : (c == sep) ≡ false = ground (arith, k.0) in rw (other, split-last sep p k.1) refl

pub split-join :
    (sep : ℕ) (p : Text) (ps : List Text)
    → AllLack sep (p ∷ ps)
    → split sep (join sep (p ∷ ps)) ≡ p ∷ ps
unfolding join
split-join sep p [] k = split-last sep p k.0
split-join sep p (q ∷ ps) k =
    split-piece sep p (join sep (q ∷ ps)) k.0 ∙ ap (λ r. p ∷ r) (split-join sep q ps k.1)

-- There is a part in front of the first separator.
split-parts : (sep : ℕ) (s : Text) → (p : Text) × (ps : List Text) × (split sep s ≡ p ∷ ps)
unfolding split
split-parts sep [] = ([], [], refl)
split-parts sep (c ∷ s) =
    let (p, ps, e) = split-parts sep s in
    elim (Bool-cases (c == sep)) [
      | inl same ↦ ([], p ∷ ps, rw (same, e) refl)
      | inr other ↦ (c ∷ p, ps, rw (other, e) refl)
    ]

join-push :
    (sep c : ℕ) (q : Text) (ps : List Text) → join sep (push c (q ∷ ps)) ≡ c ∷ join sep (q ∷ ps)
unfolding join
join-push sep c q [] = refl
join-push sep c q (r ∷ ps) = refl

join-split : (sep : ℕ) (s : Text) → join sep (split sep s) ≡ s
unfolding split join
join-split sep [] = refl
join-split sep (c ∷ s) =
    let (p, ps, e) = split-parts sep s in
    let rest = ap (join sep) (sym e) ∙ join-split sep s in
    elim (Bool-cases (c == sep)) [
      | inl same ↦ rw (same, e) (ap₂ ◌∷◌ (sym ((==_iff c sep).0 same)) rest)
      | inr other ↦ rw (other, e) (join-push sep c p ps ∙ ap (λ r. c ∷ r) rest)
    ]
