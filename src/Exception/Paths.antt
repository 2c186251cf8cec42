-- ===== src/Exception/Paths.antt =====
-- Which paths the probes and the scrape endpoint are served under.
use iveri_nest_sdk.Common.{
  ◌≡◌, ◌↔◌, inl, inr, refl, sym, ap, ap₂, ◌∙◌, true, Bool-cases, List, [], ◌∷◌, ◌++◌, arith,
}
use iveri_nest_sdk.Common.Text.{Text, text_eq, text_eq_sound, text_eq_refl, has_prefix}
use iveri_nest_sdk.Exception.Route.{is_infrastructure_route}

-- A path at a prefix's boundary: the prefix itself, or the prefix, a slash and more.
pub data IsUnder (path : Text) : List Text → Type 0 where
  is_prefix : {p : Text} {ps : List Text} → path ≡ p → IsUnder path (p ∷ ps)
  is_below :
      {p : Text} {ps : List Text} (rest : Text) → path ≡ p ++ (b'/' ∷ rest) → IsUnder path (p ∷ ps)
  is_later : {p : Text} {ps : List Text} → IsUnder path ps → IsUnder path (p ∷ ps)

prefix-rest : (p s : Text) → has_prefix p s ≡ true → (rest : Text) × (s ≡ p ++ rest)
prefix-rest [] s h = (s, refl)
prefix-rest (a ∷ p) [] h = absurd (cc)
prefix-rest (a ∷ p) (b ∷ s) h =
    let (rest, e) = prefix-rest p s (ground (arith, h)) in (rest, ap₂ ◌∷◌ (ground (arith, h)) e)

has_prefix-append : (p rest : Text) → has_prefix p (p ++ rest) ≡ true
has_prefix-append [] rest = refl
has_prefix-append (a ∷ p) rest = ground (arith, has_prefix-append p rest)

append-slash : (p rest : Text) → (p ++ (b'/' ∷ [])) ++ rest ≡ p ++ (b'/' ∷ rest)
append-slash [] rest = refl
append-slash (a ∷ p) rest = ap (λ s. a ∷ s) (append-slash p rest)

infrastructure-IsUnder :
    (path : Text) (ps : List Text) → is_infrastructure_route path ps ≡ true → IsUnder path ps
unfolding is_infrastructure_route
infrastructure-IsUnder path [] h = absurd (cc)
infrastructure-IsUnder path (p ∷ ps) h = elim (Bool-cases (text_eq path p)) [
  | inl e ↦ is_prefix (text_eq_sound path p e)
  | inr e ↦ elim (Bool-cases (has_prefix (p ++ (b'/' ∷ [])) path)) [
    | inl f ↦ is_below (prefix-rest _ path f).0 ((prefix-rest _ path f).1 ∙ append-slash p _)
    | inr f ↦ is_later (infrastructure-IsUnder path ps (ground (arith, h, e, f)))
  ]
]

IsUnder-infrastructure :
    (path : Text) (ps : List Text) → IsUnder path ps → is_infrastructure_route path ps ≡ true
unfolding is_infrastructure_route
IsUnder-infrastructure path [] u = elim u [ ]
IsUnder-infrastructure path (p ∷ ps) (is_prefix e) = rw e (ground (arith, text_eq_refl p))
IsUnder-infrastructure path (p ∷ ps) (is_below rest e) = ground (
  arith,
  ap (has_prefix (p ++ (b'/' ∷ []))) (e ∙ sym (append-slash p rest))
      ∙ has_prefix-append (p ++ (b'/' ∷ [])) rest,
)
IsUnder-infrastructure path (p ∷ ps) (is_later u) = ground (arith, IsUnder-infrastructure path ps u)

-- A path is an infrastructure route exactly if it is one of the prefixes or lies below one of them
-- at a slash, so a path that only begins with the same letters is none.
is_infrastructure_route-IsUnder :
    (path : Text) (prefixes : List Text)
    → (is_infrastructure_route path prefixes ≡ true) ↔ IsUnder path prefixes
is_infrastructure_route-IsUnder path ps =
    (infrastructure-IsUnder path ps, IsUnder-infrastructure path ps)
