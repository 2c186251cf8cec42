-- ===== src/Auth/Bearer.antt =====
-- What an `authorization` header must be for the guard to read a token of it.
use iveri_nest_sdk.Common.{
  ◌≡◌, ◌≢◌, ◌↔◌, refl, sym, ap, ◌∙◌, Bool, true, false, not, ◌||◌, Option, none, some, [], ◌∷◌,
  ◌++◌, arith, if◌then◌else◌,
}
use iveri_nest_sdk.Common.Text.{
  Text, codes, text_eq, text_eq_sound, trim, trim_start, trim_end, before, after, to_lower_case,
}
use iveri_nest_sdk.Common.Text.Laws.{
  Lacks, Lacks-lower, before-append, after-skip, after-here, before-after,
}
use iveri_nest_sdk.Auth.Guard.{bearer_of, is_empty}

-- A header of the bearer scheme, in any case, that carries a token: what follows the first space,
-- trimmed, is not empty.
pub record IsBearer (header token : Text) : Type 0 where
  pub scheme : Text
  pub rest : Text
  pub is_split : header ≡ scheme ++ (32 ∷ rest)
  pub is_bearer : to_lower_case scheme ≡ codes "bearer"
  pub is_trimmed : trim rest ≡ token
  pub is_present : is_empty token ≡ false

bearer-Lacks : Lacks 32 (codes "bearer")
bearer-Lacks = ground arith

trim-absent : (s : Text) → is_empty (trim s) ≡ false → s ≢ []
unfolding trim trim_start trim_end
trim-absent [] h = ground arith
trim-absent (c ∷ s) h = ground arith

pick-some :
    (b : Bool) (s t : Text) → (if b then none else Option.some s) ≡ some t → (b ≡ false) × (s ≡ t)
pick-some true s t h = absurd (cc)
pick-some false s t h = (refl, cc)

parts-false : (a e : Bool) → (not a || e) ≡ false → (a ≡ true) × (e ≡ false)
parts-false a e h = ground arith

read-IsBearer : (header token : Text) → bearer_of header ≡ some token → IsBearer header token
unfolding bearer_of
read-IsBearer header token h =
    let rest = trim (after 32 header) in
    let (test, same) =
      pick-some (not (text_eq (to_lower_case (before 32 header)) (codes "bearer")) || is_empty rest)
        rest token h in
    let (scheme, present) =
      parts-false (text_eq (to_lower_case (before 32 header)) (codes "bearer")) (is_empty rest)
        test in
    record {
      scheme = before 32 header;
      rest = after 32 header;
      is_split = before-after 32 header (trim-absent (after 32 header) present);
      is_bearer = text_eq_sound _ _ scheme;
      is_trimmed = same;
      is_present = sym (ap is_empty same) ∙ present;
    }

IsBearer-read : (header token : Text) → IsBearer header token → bearer_of header ≡ some token
unfolding bearer_of
IsBearer-read header token b =
    let lacks = Lacks-lower b.scheme (rw b.is_bearer bearer-Lacks) in
    let start = ap (before 32) b.is_split ∙ before-append 32 b.scheme b.rest lacks in
    let end =
      ap (after 32) b.is_split
      ∙ after-skip 32 b.scheme (32 ∷ b.rest) lacks
      ∙ after-here 32 b.rest in
    rw (start, end, b.is_bearer, b.is_trimmed, b.is_present) refl

-- The guard reads a token of a header exactly if the header is of the bearer scheme and carries it.
bearer_of-IsBearer : (header token : Text) → (bearer_of header ≡ some token) ↔ IsBearer header token
bearer_of-IsBearer header token = (read-IsBearer header token, IsBearer-read header token)
