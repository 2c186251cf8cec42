-- ===== src/Context/Tests.antt =====
-- A caller's id that is kept and one that is replaced, and a witness.
use iveri_nest_sdk.Common.{◌≡◌, refl, some, [], ◌∷◌}
use iveri_nest_sdk.Common.Text.{codes, trim, is_space}
use iveri_nest_sdk.Http.{Headers, repeated}
use iveri_nest_sdk.Context.Correlation.{choose}
use iveri_nest_sdk.Context.Agreement.{IsId}

keeps : choose (codes "u1") (some (codes " 17 ")) ≡ codes "17"
unfolding choose trim is_space
keeps = refl

replaces : choose (codes "u1") (some (codes "  ")) ≡ codes "u1"
unfolding choose trim is_space
replaces = refl

fresh_IsId : IsId (codes "u1")
unfolding trim is_space
fresh_IsId = record { is_short = refl; is_trimmed = refl }

abbrev sent : Headers
sent = ("x-correlation-id", repeated (codes " 17 " ∷ codes "18" ∷ [])) ∷ []
