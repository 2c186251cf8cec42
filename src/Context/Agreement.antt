-- ===== src/Context/Agreement.antt =====
-- The logger, the middleware and the exception filter settle on one id.
use Prim.Native.String.{String}
use text.Mathlib.Text.{◌==◌ as str_eq}
use iveri_nest_sdk.Common.{
  ◌≡◌, refl, ap, ap₂, ◌∙◌, true, Bool-cases, inl, inr, Option, none, some, [], ◌∷◌,
}
use iveri_nest_sdk.Common.Text.{Text, trim}
use iveri_nest_sdk.Common.Text.Laws.{trim-trim}
use iveri_nest_sdk.Http.{
  HeaderValue, single, Headers, read_header, get_header, set_header, first_value,
}
use iveri_nest_sdk.Context.Correlation.{is_usable, choose, assign_correlation_id}

-- An id that may go into a log line and a header: trimmed, not empty, at most 128 code units.
pub record IsId (t : Text) : Type 0 where
  pub is_short : is_usable t ≡ true
  pub is_trimmed : trim t ≡ t

pub get_header-set :
    (k : String) (v : HeaderValue) (hs : Headers)
    → str_eq k k ≡ true
    → get_header k (set_header k v hs) ≡ some v
get_header-set k v [] e = rw e refl
get_header-set k v ((j, w) ∷ hs) e = elim (Bool-cases (str_eq j k)) [
  | inl f ↦ rw (f, e) refl
  | inr f ↦ rw (f, f) (get_header-set k v hs e)
]

set_header-set :
    (k : String) (v : HeaderValue) (hs : Headers)
    → str_eq k k ≡ true
    → set_header k v (set_header k v hs) ≡ set_header k v hs
set_header-set k v [] e = rw e refl
set_header-set k v ((j, w) ∷ hs) e = elim (Bool-cases (str_eq j k)) [
  | inl f ↦ rw (f, e) refl
  | inr f ↦ rw (f, f) (ap (λ r. (j, w) ∷ r) (set_header-set k v hs e))
]

choose-IsId : (fresh : Text) (incoming : Option Text) → IsId fresh → IsId (choose fresh incoming)
unfolding choose
choose-IsId fresh none f = f
choose-IsId fresh (some s) f = elim (Bool-cases (is_usable (trim s))) [
  | inl e ↦ rw e (record { is_short = e; is_trimmed = trim-trim s })
  | inr e ↦ rw e f
]

choose-id : (fresh id : Text) → IsId id → choose fresh (some id) ≡ id
unfolding choose
choose-id fresh id i = rw (i.is_trimmed, i.is_short) refl

-- Whatever the caller sent, the id that a request is given is trimmed, not empty and at most 128
-- code units long, if a fresh one is; and a request that has been given its id keeps it: to assign
-- one again, with whatever fresh one, gives the same id and leaves the same headers.
pub assign_correlation_id-again :
    (fresh fresh' : Text) (headers : Headers)
    → IsId fresh
    → IsId (assign_correlation_id fresh headers).0
      × (assign_correlation_id fresh' (assign_correlation_id fresh headers).1
          ≡ assign_correlation_id fresh headers)
unfolding assign_correlation_id read_header
assign_correlation_id-again fresh fresh' headers f =
    let id = choose fresh (read_header headers "x-correlation-id") in
    let good = choose-IsId fresh (read_header headers "x-correlation-id") f in
    let same =
      ap (choose fresh')
        (ap first_value (get_header-set "x-correlation-id" (single id) headers refl))
      ∙ choose-id fresh' id good in
    (
      good,
      ap₂ (λ a b. (a, b)) same
          (ap
              (λ i.
                set_header "x-correlation-id" (single i)
                  (set_header "x-correlation-id" (single id) headers))
              same
            ∙ set_header-set "x-correlation-id" (single id) headers refl),
    )
