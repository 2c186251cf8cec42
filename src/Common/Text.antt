-- ===== src/Common/Text.antt =====
-- JavaScript strings that the program walks: lists of UTF-16 code units, with the operations of
-- `String.prototype` and `Array.prototype` that it calls.
pub mod Laws
use Prim.Native.Nat.{ℕ, ◌+◌}
use Prim.Native.Char.{code}
use Prim.Native.String.{String}
use mathlib.Core.Path.{◌≡◌, refl, ap₂}
use mathlib.Core.Bool.{Bool, true, false, ◌&&◌, ◌||◌}
use mathlib.Core.List.{List, [], ◌∷◌, ◌++◌, map}
use native.Mathlib.Omega.{arith}
use iveri_nest_sdk.Common.Tests.{leb, ◌==◌, if◌then◌else◌}

abbrev pub Text : Type 0
Text = List ℕ

-- An ASCII literal as code units.
abbrev pub codes : String → Text
codes String.[] = []
codes (String.◌∷◌ c s) = code c ∷ codes s

-- `s === t`
abbrev pub text_eq : Text → Text → Bool
text_eq [] [] = true
text_eq (a ∷ s) (b ∷ t) = (a == b) && text_eq s t
text_eq _ _ = false

pub text_eq_sound : (s t : Text) → text_eq s t ≡ true → s ≡ t
text_eq_sound [] [] h = refl
text_eq_sound (a ∷ s) (b ∷ t) h = ap₂ ◌∷◌ (ground arith) (text_eq_sound s t (ground arith))
text_eq_sound [] (b ∷ t) h = ground arith
text_eq_sound (a ∷ s) [] h = ground arith

pub text_eq_refl : (s : Text) → text_eq s s ≡ true
text_eq_refl [] = refl
text_eq_refl (a ∷ s) = ground (arith, text_eq_refl s)

-- `includes`
abbrev pub includes : List Text → Text → Bool
includes [] t = false
includes (s ∷ ss) t = text_eq s t || includes ss t

-- `s.startsWith(p)`, with the prefix first
abbrev pub has_prefix : Text → Text → Bool
has_prefix [] s = true
has_prefix (a ∷ p) [] = false
has_prefix (a ∷ p) (b ∷ s) = (a == b) && has_prefix p s

-- White space and line terminators, which `trim` removes.
unfoldable pub is_space : ℕ → Bool
is_space c =
    (leb 9 c && leb c 13)
    || c == 32
    || c == 0xa0
    || c == 0x1680
    || (leb 0x2000 c && leb c 0x200a)
    || c == 0x2028
    || c == 0x2029
    || c == 0x202f
    || c == 0x205f
    || c == 0x3000
    || c == 0xfeff

unfoldable pub trim_start : Text → Text
trim_start [] = []
trim_start (c ∷ s) = if is_space c then trim_start s else c ∷ s

-- One code unit, and the trimmed end of what follows it.
unfoldable pub keep_unless_blank : ℕ → Text → Text
keep_unless_blank c [] = if is_space c then [] else c ∷ []
keep_unless_blank c (d ∷ s) = c ∷ d ∷ s

unfoldable pub trim_end : Text → Text
unfolding keep_unless_blank
trim_end [] = []
trim_end (c ∷ s) = keep_unless_blank c (trim_end s)

unfoldable pub trim : Text → Text
unfolding trim_start trim_end
trim s = trim_end (trim_start s)

-- `toLowerCase`: the ASCII capitals and the Kelvin sign, the only code units whose lower case is
-- ASCII alone. Other letters are left as they are, so a comparison with an ASCII text is exact.
unfoldable pub to_lower_unit : ℕ → ℕ
to_lower_unit c = if leb b'A' c && leb c b'Z' then c + 32 else if c == 0x212a then b'k' else c

unfoldable pub to_lower_case : Text → Text
unfolding to_lower_unit
to_lower_case s = map to_lower_unit s

-- `s.split(sep)[0]` and what follows the first separator, if there is one, at a one-unit separator.
unfoldable pub before : ℕ → Text → Text
before sep [] = []
before sep (c ∷ s) = if c == sep then [] else c ∷ before sep s

-- `s.split(sep).slice(1).join(sep)`
unfoldable pub after : ℕ → Text → Text
after sep [] = []
after sep (c ∷ s) = if c == sep then s else after sep s

-- `push` puts a unit in front of the first part.
abbrev pub push : ℕ → List Text → List Text
push c [] = (c ∷ []) ∷ []
push c (p ∷ ps) = (c ∷ p) ∷ ps

-- `s.split(sep)` at a one-unit separator
unfoldable pub split : ℕ → Text → List Text
split sep [] = [] ∷ []
split sep (c ∷ s) = let rest = split sep s in if c == sep then [] ∷ rest else push c rest

-- `parts.join(sep)`
unfoldable pub join : ℕ → List Text → Text
join sep [] = []
join sep (p ∷ []) = p
join sep (p ∷ q ∷ ps) = p ++ (sep ∷ join sep (q ∷ ps))

-- `{ ...entries, [key]: value }`, an object as the list of its entries
unfoldable pub assign {ℓ} : {A : Type ℓ} → Text → A → List (Text × A) → List (Text × A)
assign key value [] = (key, value) ∷ []
assign key value ((k, v) ∷ entries) =
    let rest = assign key value entries in
    if text_eq k key then (k, value) ∷ entries else (k, v) ∷ rest

-- `s <= t` by code units
abbrev text_leb : Text → Text → Bool
text_leb [] t = true
text_leb (a ∷ s) [] = false
text_leb (a ∷ s) (b ∷ t) = if a == b then text_leb s t else leb a b

abbrev pub insert : Text → List Text → List Text
insert s [] = s ∷ []
insert s (t ∷ ts) = if text_leb s t then s ∷ t ∷ ts else t ∷ insert s ts

-- `texts.sort()`
unfoldable pub sort : List Text → List Text
sort [] = []
sort (s ∷ ss) = insert s (sort ss)

pub cons-injective : {a b : ℕ} {s t : Text} → a ∷ s ≡ b ∷ t → (a ≡ b) × (s ≡ t)
cons-injective h = (cc, cc)
