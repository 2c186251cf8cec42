-- ===== src/Auth/Module/Tests.antt =====
-- A service whose JWT library knows one token, which is signed by HS256 for two audiences.
use iveri_nest_sdk.Common.{
  ◌≡◌, inr, refl, sym, ap, ◌∙◌, arith, any, Bool, true, false, ◌&&◌, Option, none, some, [], ◌∷◌,
  if◌then◌else◌,
}
use iveri_nest_sdk.Common.Text.{
  Text, codes, text_eq, text_eq_sound, includes, to_lower_case, before, after, trim, is_space,
}
use iveri_nest_sdk.Http.{read_header}
use iveri_nest_sdk.Auth.AccessToken.{
  Claims, text, array, verified, invalid, principal_of, payload_of, narrow_claims, judge_token,
  verify,
}
use iveri_nest_sdk.Auth.Guard.{
  AuthenticatedRequestContext, bearer_of, read_bearer_token, read_locale, context_of, admit,
  authenticate_token, authenticate,
}
use iveri_nest_sdk.Auth.Permission.{missing_of, permit, check_permissions, next_guard, run_guards}
use iveri_nest_sdk.Auth.Module.{
  JwtModuleOptions, JwtLibrary, IsJwtLibrary, is_entry, AuthModuleOptions, jwt_module_options,
  guarded, IsAccepted, guarded-IsAccepted,
}
use iveri_nest_sdk.Auth.Tests.{kinds, claims, gated, request, granted}

abbrev issued : Claims
issued = record claims {
  iss = some (text (codes "identity"));
  aud = some (array (some (codes "wallet") ∷ some (codes "orders") ∷ []));
}

abbrev names_audience : Text → Bool
names_audience audience =
    any (is_entry audience) (some (codes "wallet") ∷ some (codes "orders") ∷ [])

abbrev accepts : JwtModuleOptions → Bool
accepts o =
    includes o.verify_options.algorithms (codes "HS256")
    && text_eq (codes "s") o.secret
    && text_eq (codes "identity") o.verify_options.issuer
    && names_audience o.verify_options.audience

abbrev library : JwtLibrary
library = record {
  verify_async = λ o token. if accepts o then verified issued else invalid;
  header_algorithm = λ token. some (codes "HS256");
  is_signed_with = λ token secret. text_eq (codes "s") secret;
}

accepted :
    (ok : Bool) (c : Claims)
    → (if ok then verified issued else invalid) ≡ verified c
    → (ok ≡ true) × (issued ≡ c)
accepted true c h = (refl, cc)
accepted false c h = absurd (cc)

parts :
    (a b c d : Bool) → (a && b && c && d) ≡ true → (a ≡ true) × (b ≡ true) × (c ≡ true) × (d ≡ true)
parts a b c d h = ground arith

module _ (o : JwtModuleOptions) (token : Text) (c : Claims)
    (h : library.verify_async o token ≡ verified c) where
  met :
      (includes o.verify_options.algorithms (codes "HS256") ≡ true)
      × (text_eq (codes "s") o.secret ≡ true)
      × (text_eq (codes "identity") o.verify_options.issuer ≡ true)
      × (names_audience o.verify_options.audience ≡ true)
  met = parts _ _ _ _ (accepted (accepts o) c h).0

  same : issued ≡ c
  same = (accepted (accepts o) c h).1

library-IsJwtLibrary : IsJwtLibrary library
library-IsJwtLibrary = record {
  algorithm = λ o token c h. (codes "HS256", refl, (met o token c h).0);
  signature = λ o token c h. (met o token c h).1;
  issuer = λ o token c h issuer.
      sym (ap (λ k. k.iss) (same o token c h))
      ∙ ap (λ s. some (text s)) (text_eq_sound _ _ (met o token c h).2);
  audience = λ o token c h audience.
      inr (_, sym (ap (λ k. k.aud) (same o token c h)), (met o token c h).3);
}

abbrev options : AuthModuleOptions
options = record {
  secret = codes "s";
  issuer = codes "identity";
  audience = codes "orders";
  algorithm = none;
}

enters_module :
    guarded kinds library options gated request
    ≡ inr (true, record request { context = some (granted (codes "en")) })
unfolding guarded jwt_module_options run_guards next_guard check_permissions permit missing_of
    authenticate authenticate_token admit verify judge_token narrow_claims payload_of principal_of
    context_of read_locale read_bearer_token bearer_of read_header to_lower_case before trim after
    is_space
enters_module = refl

guarded-IsAccepted_example :
    (token : Text) × (c : Claims) × (g : AuthenticatedRequestContext) × (read_bearer_token
        request.headers
      ≡ some token)
    × IsAccepted library options token c
    × (Option.some (granted (codes "en")) ≡ some g)
    × (c.tid ≡ some (text g.tenant_id))
guarded-IsAccepted_example =
    guarded-IsAccepted kinds library options gated request
      (record request { context = some (granted (codes "en")) }) library-IsJwtLibrary
      (λ e. absurd (cc)) (λ e. absurd (cc)) refl refl enters_module
