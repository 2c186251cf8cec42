-- ===== src/Auth/Narrow.antt =====
-- What verified claims say of the caller.
use iveri_nest_sdk.Common.{
  inr-injective, inl-is_no-inr, ◌≡◌, inl, inr, refl, sym, true, false, Bool-cases, ◌||◌, Option,
  none, some, [], ◌∷◌, arith,
}
use iveri_nest_sdk.Common.Text.{Text, text_eq}
use iveri_nest_sdk.Auth.AccessToken.{
  ClaimValue, text, number, array, other, Claims, JwtResult, verified, expired, invalid,
  PrincipalType, AccessTokenPayload, named, permissions_of, principal_of, payload_of, narrow_claims,
  judge_token,
}
use iveri_nest_sdk.Auth.Guard.{is_empty}

named-some :
    (v : Option ClaimValue) (s : Text)
    → named v ≡ some s
    → (v ≡ some (text s)) × (is_empty s ≡ false)
named-some none s h = absurd (cc)
named-some (some (text [])) s h = absurd (cc)
named-some (some (text (c ∷ t))) s h = (cc, ground (arith, h))
named-some (some (number n)) s h = absurd (cc)
named-some (some (array es)) s h = absurd (cc)
named-some (some other) s h = absurd (cc)

principal_of-some :
    (kinds : PrincipalType) (v : Option ClaimValue) (s : Text)
    → principal_of kinds v ≡ some s
    → (v ≡ some (text s)) × ((text_eq s kinds.user || text_eq s kinds.service) ≡ true)
unfolding principal_of
principal_of-some kinds none s h = absurd (cc)
principal_of-some kinds (some (text t)) s h =
    elim (Bool-cases (text_eq t kinds.user || text_eq t kinds.service)) [
      | inl e ↦ ground (arith, h, e)
      | inr e ↦ ground (arith, h, e)
    ]
principal_of-some kinds (some (number n)) s h = absurd (cc)
principal_of-some kinds (some (array es)) s h = absurd (cc)
principal_of-some kinds (some other) s h = absurd (cc)

-- The claims say what the payload says.
pub record IsNarrowed (kinds : PrincipalType) (claims : Claims) (payload : AccessTokenPayload)
    : Type 0 where
  pub sub : claims.sub ≡ some (text payload.sub)
  pub tid : claims.tid ≡ some (text payload.tid)
  pub tid_named : is_empty payload.tid ≡ false
  pub pt : claims.pt ≡ some (text payload.pt)
  pub pt_known : (text_eq payload.pt kinds.user || text_eq payload.pt kinds.service) ≡ true
  pub perms : payload.perms ≡ permissions_of claims.perms

payload_of-IsNarrowed :
    (kinds : PrincipalType) (claims : Claims) (sub tid pt : Option Text)
    (payload : AccessTokenPayload)
    → named claims.sub ≡ sub
    → named claims.tid ≡ tid
    → principal_of kinds claims.pt ≡ pt
    → payload_of claims sub tid pt ≡ inr payload
    → IsNarrowed kinds claims payload
unfolding payload_of
payload_of-IsNarrowed kinds claims none _ _ payload s t p h = absurd (cc)
payload_of-IsNarrowed kinds claims (some sub) none _ payload s t p h = absurd (cc)
payload_of-IsNarrowed kinds claims (some sub) (some tid) none payload s t p h = absurd (cc)
payload_of-IsNarrowed kinds claims (some sub) (some tid) (some pt) payload s t p h =
    rw (sym (inr-injective h)) (record {
      sub = (named-some claims.sub sub s).0;
      tid = (named-some claims.tid tid t).0;
      tid_named = (named-some claims.tid tid t).1;
      pt = (principal_of-some kinds claims.pt pt p).0;
      pt_known = (principal_of-some kinds claims.pt pt p).1;
      perms = refl;
    })

pub verify-IsNarrowed :
    (kinds : PrincipalType) (result : JwtResult) (payload : AccessTokenPayload)
    → judge_token kinds result ≡ inr payload
    → (claims : Claims) × (result ≡ verified claims) × IsNarrowed kinds claims payload
unfolding judge_token narrow_claims
verify-IsNarrowed kinds (verified claims) payload h =
    (claims, refl, payload_of-IsNarrowed kinds claims _ _ _ payload refl refl refl h)
verify-IsNarrowed kinds expired payload h = absurd (inl-is_no-inr h)
verify-IsNarrowed kinds invalid payload h = absurd (inl-is_no-inr h)
