-- ===== src/RateLimit/Key.antt =====
-- src/rate-limit/rate-limit-key.util.ts: the name of a bucket.
pub mod Laws
use iveri_nest_sdk.Common.{
  ℕ, zero, suc, ◌≡◌, ◌≢◌, refl, ap, Option, none, some, List, [], ◌∷◌, ◌++◌, arith, take, length,
  ◌≤◌, length-take-le, Bool, true, false, ◌==◌, if◌then◌else◌, All,
}
use iveri_nest_sdk.Common.Text.{Text, codes, to_lower_case}

abbrev pub entity : Text
entity = codes "ratelimit"

abbrev hash_length : ℕ
hash_length = 32

pub record KeyParts : Type 0 where
  pub namespace : Text
  pub scope : Text
  pub hash_tag : Text
  pub suffix : Option Text

-- A missing suffix and an empty one are both falsy.
abbrev pub suffix_part : Option Text → Text
suffix_part none = []
suffix_part (some []) = []
suffix_part (some (c ∷ s)) = b':' ∷ c ∷ s

unfoldable pub build_rate_limit_key : KeyParts → Text
build_rate_limit_key k =
    k.namespace
    ++ (b':'
        ∷ (entity
            ++ (b':'
                ∷ (to_lower_case k.scope
                    ++ (b':' ∷ b'{' ∷ (k.hash_tag ++ (b'}' ∷ suffix_part k.suffix)))))))

-- `createHash('sha256').update(value).digest('hex')` is a parameter.
unfoldable hash_rate_limit_identifier : (Text → Text) → Text → Text
hash_rate_limit_identifier sha256_hex value = take hash_length (sha256_hex value)
