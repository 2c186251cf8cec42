-- ===== src/Config.antt =====
-- src/config: the validation of a process' environment.
--
-- class-transformer and class-validator are parameters: the instance that the raw values make, and
-- the errors that its validation gives.
pub mod Listed
pub mod BaseEnv
pub mod Started
mod Tests
use iveri_nest_sdk.Common.{ℕ, Option, none, some, List, [], ◌∷◌, ◌++◌, ◌⊎◌, inl, inr, map}
use iveri_nest_sdk.Common.Text.{Text, codes, join}

pub record ValidationError : Type 0 where
  pub property : Text
  pub constraints : Option (List Text)

abbrev pub line_feed : ℕ
line_feed = 10

-- `texts.join(', ')`
unfoldable join_comma : List Text → Text
join_comma [] = []
join_comma (t ∷ []) = t
join_comma (t ∷ u ∷ ts) = t ++ codes ", " ++ join_comma (u ∷ ts)

unfoldable pub line_of : ValidationError → Text
unfolding join_comma
line_of error =
    codes "  "
    ++ error.property
    ++ codes ": "
    ++ join_comma (elim error.constraints [ none ↦ [] | some messages ↦ messages ])

abbrev pub report_title : Text
report_title = codes "Invalid environment configuration:"

unfoldable pub message_of : List ValidationError → Text
unfolding line_of join
message_of errors = report_title ++ (line_feed ∷ join line_feed (map line_of errors))

abbrev pub judge {ℓ} : {Config : Type ℓ} → Config → List ValidationError → Text ⊎ Config
judge config [] = inr config
judge config (error ∷ errors) = inl (message_of (error ∷ errors))

-- The configuration, or the message of what is thrown.
unfoldable pub validate_env :
    {Raw Config : Type 0}
    → (plain_to_instance : Raw → Config) (validate_sync : Config → List ValidationError) → Raw
    → Text ⊎ Config
unfolding message_of
validate_env plain_to_instance validate_sync raw =
    judge (plain_to_instance raw) (validate_sync (plain_to_instance raw))
