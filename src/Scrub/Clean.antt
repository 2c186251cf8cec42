-- ===== src/Scrub/Clean.antt =====
-- What a scrubbed structure cannot hold.
use iveri_nest_sdk.Common.{
  ℕ, ◌+◌, ◌≡◌, refl, sym, ap, ap₂, Bool, true, false, Bool-cases, not, ◌&&◌, ◌||◌, ltb, leb, inl,
  inr, arith,
}
use iveri_nest_sdk.Scrub.Event.{
  Value, redacted, leaf, array, object, Values, no_value, one_value, Entries, no_entry, one_entry,
  is_sensitive, scrub_value, scrub_values, scrub_record,
}

abbrev is_redacted : Value → Bool
is_redacted redacted = true
is_redacted _ = false

-- Nothing but the placeholder under a sensitive key, and nothing but it below the sixth level.
unfoldable mutual
  is_clean : ℕ → Value → Bool
  is_clean depth redacted = true
  is_clean depth (leaf x) = leb depth 6
  is_clean depth (array vs) = leb depth 6 && are_clean (depth + 1) vs
  is_clean depth (object es) = leb depth 6 && is_clean_record depth es

  are_clean : ℕ → Values → Bool
  are_clean depth no_value = true
  are_clean depth (one_value v vs) = is_clean depth v && are_clean depth vs

  pub is_clean_record : ℕ → Entries → Bool
  is_clean_record depth no_entry = true
  is_clean_record depth (one_entry key v es) =
      (not (is_sensitive key) || is_redacted v)
      && is_clean (depth + 1) v
      && is_clean_record depth es

mutual
  unfolding is_clean scrub_value

  value-clean : (d : ℕ) (v : Value) → is_clean d (scrub_value d v) ≡ true
  value-clean d redacted = refl
  value-clean d (leaf x) = elim (Bool-cases (ltb 6 d)) [
    | inl e ↦ rw e refl
    | inr e ↦ rw e (ground (arith, e))
  ]
  value-clean d (array vs) = elim (Bool-cases (ltb 6 d)) [
    | inl e ↦ rw e refl
    | inr e ↦ rw e (ground (arith, e, values-clean (d + 1) vs))
  ]
  value-clean d (object es) = elim (Bool-cases (ltb 6 d)) [
    | inl e ↦ rw e refl
    | inr e ↦ rw e (ground (arith, e, record-clean d es))
  ]

  values-clean : (d : ℕ) (vs : Values) → are_clean d (scrub_values d vs) ≡ true
  values-clean d no_value = refl
  values-clean d (one_value v vs) = ground (arith, value-clean d v, values-clean d vs)

  record-clean : (d : ℕ) (es : Entries) → is_clean_record d (scrub_record d es) ≡ true
  record-clean d no_entry = refl
  record-clean d (one_entry key v es) = elim (Bool-cases (is_sensitive key)) [
    | inl e ↦ rw e (record-clean d es)
    | inr e ↦ rw e (ground (arith, value-clean (d + 1) v, record-clean d es))
  ]

shallow : (d : ℕ) (b : Bool) → (leb d 6 && b) ≡ true → (ltb 6 d ≡ false) × (b ≡ true)
shallow d b h = (ground (arith, h), ground (arith, h))

redacted-only : (v : Value) → is_redacted v ≡ true → v ≡ redacted
redacted-only redacted h = refl
redacted-only (leaf x) h = absurd (cc)
redacted-only (array vs) h = absurd (cc)
redacted-only (object es) h = absurd (cc)

mutual
  unfolding is_clean scrub_value

  value-kept : (d : ℕ) (v : Value) → is_clean d v ≡ true → scrub_value d v ≡ v
  value-kept d redacted h = refl
  value-kept d (leaf x) h = rw (shallow d true (ground (arith, h))).0 refl
  value-kept d (array vs) h =
      rw (shallow d _ h).0 (ap array (values-kept (d + 1) vs (shallow d _ h).1))
  value-kept d (object es) h = rw (shallow d _ h).0 (ap object (record-kept d es (shallow d _ h).1))

  values-kept : (d : ℕ) (vs : Values) → are_clean d vs ≡ true → scrub_values d vs ≡ vs
  values-kept d no_value h = refl
  values-kept d (one_value v vs) h =
      ap₂ one_value (value-kept d v (ground (arith, h))) (values-kept d vs (ground (arith, h)))

  record-kept : (d : ℕ) (es : Entries) → is_clean_record d es ≡ true → scrub_record d es ≡ es
  record-kept d no_entry h = refl
  record-kept d (one_entry key v es) h = elim (Bool-cases (is_sensitive key)) [
    | inl e ↦ rw e (
        ap₂ (one_entry key) (sym (redacted-only v (ground (arith, h, e))))
          (record-kept d es (ground (arith, h))))
    | inr e ↦ rw e (
        ap₂ (one_entry key) (value-kept (d + 1) v (ground (arith, h)))
          (record-kept d es (ground (arith, h))))
  ]

-- Of a scrubbed record nothing but the placeholder stands under a key of a sensitive word, at any
-- depth, and nothing but it below the sixth level; and a record of which that is so already is
-- left as it is, so to scrub it twice is to scrub it once.
pub scrub_record-clean :
    (es : Entries)
    → (is_clean_record 0 (scrub_record 0 es) ≡ true)
      × (is_clean_record 0 es ≡ true → scrub_record 0 es ≡ es)
      × (scrub_record 0 (scrub_record 0 es) ≡ scrub_record 0 es)
scrub_record-clean es =
    (record-clean 0 es, record-kept 0 es, record-kept 0 (scrub_record 0 es) (record-clean 0 es))
