-- ===== src/RateLimit/Key/Laws.antt =====
-- Which callers share a bucket, and which a cluster slot.
use iveri_nest_sdk.Common.{ℕ, ◌≡◌, ◌≢◌, ap, ◌∙◌, Option, ◌∷◌, ◌++◌, arith}
use iveri_nest_sdk.Common.Text.{Text, to_lower_case, before, after, cons-injective}
use iveri_nest_sdk.Common.Text.Laws.{
  Lacks, append_cancel, split_unique, before-append, after-skip, after-here,
}
use iveri_nest_sdk.RateLimit.Key.{entity, suffix_part, build_rate_limit_key}

-- Two callers of one service share a bucket only if their scopes are the same but for case, their
-- hash tags are the same and so are their suffixes, a missing one being an empty one: where the
-- scopes hold no colon and the hash tags no closing brace.
pub build_rate_limit_key-injective :
    (namespace scope scope' tag tag' : Text) (suffix suffix' : Option Text)
    → Lacks b':' (to_lower_case scope)
    → Lacks b':' (to_lower_case scope')
    → Lacks b'}' tag
    → Lacks b'}' tag'
    → build_rate_limit_key
        (record { namespace = namespace; scope = scope; hash_tag = tag; suffix = suffix })
      ≡ build_rate_limit_key
          (record { namespace = namespace; scope = scope'; hash_tag = tag'; suffix = suffix' })
    → (to_lower_case scope ≡ to_lower_case scope')
      × (tag ≡ tag')
      × (suffix_part suffix ≡ suffix_part suffix')
unfolding build_rate_limit_key
build_rate_limit_key-injective ns scope scope' tag tag' suffix suffix' a b c d h =
    let tails = append_cancel ns _ _ h in
    let named = append_cancel entity _ _ (cons-injective tails).1 in
    let (scopes, rest) =
      split_unique b':' (to_lower_case scope) (to_lower_case scope') _ _ a b
        (cons-injective named).1 in
    let (tags, suffixes) = split_unique b'}' tag tag' _ _ c d (cons-injective rest).1 in
    (scopes, tags, suffixes)

-- What Redis hashes of a key: the part between its first opening brace and the next closing one.
abbrev slot_tag : Text → Text
slot_tag key = before b'}' (after b'{' key)

after-next : (c d : ℕ) (t : Text) → d ≢ c → after c (d ∷ t) ≡ after c t
unfolding after
after-next c d t k = ground arith

colon : ◌≢◌ {A = ℕ} b':' b'{'
colon = omega arith

-- All buckets of one hash tag are in one cluster slot: the part of a key that Redis hashes is the
-- hash tag, whatever the scope and the suffix, where the names before it hold no opening brace and
-- the tag no closing one.
slot_tag-key :
    (namespace scope tag : Text) (suffix : Option Text)
    → Lacks b'{' namespace
    → Lacks b'{' (to_lower_case scope)
    → Lacks b'}' tag
    → slot_tag (
        build_rate_limit_key
          (record { namespace = namespace; scope = scope; hash_tag = tag; suffix = suffix }))
      ≡ tag
unfolding build_rate_limit_key
slot_tag-key ns scope tag suffix a b c =
    let key_end = tag ++ (b'}' ∷ suffix_part suffix) in
    let in_scope = to_lower_case scope ++ (b':' ∷ b'{' ∷ key_end) in
    ap (before b'}') (
      after-skip b'{' ns (b':' ∷ (entity ++ (b':' ∷ in_scope))) a
      ∙ after-next b'{' b':' (entity ++ (b':' ∷ in_scope)) colon
      ∙ after-skip b'{' entity (b':' ∷ in_scope) (omega arith)
      ∙ after-next b'{' b':' in_scope colon
      ∙ after-skip b'{' (to_lower_case scope) (b':' ∷ b'{' ∷ key_end) b
      ∙ after-next b'{' b':' (b'{' ∷ key_end) colon
      ∙ after-here b'{' key_end)
    ∙ before-append b'}' tag (suffix_part suffix) c
