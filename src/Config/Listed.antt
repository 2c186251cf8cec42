-- ===== src/Config/Listed.antt =====
-- What the message of an invalid environment lists.
use iveri_nest_sdk.Common.{◌≡◌, refl, List, ◌∷◌, inl, map}
use iveri_nest_sdk.Common.Text.{Text, split, join}
use iveri_nest_sdk.Common.Text.Laws.{AllLack, Lacks-tested, split-join}
use iveri_nest_sdk.Config.{
  ValidationError, line_feed, line_of, report_title, message_of, validate_env,
}

title_lacks :
    (lines : List Text) → AllLack line_feed lines → AllLack line_feed (report_title ∷ lines)
title_lacks lines h = (Lacks-tested line_feed report_title refl, h)

-- An environment with errors is refused with a message whose lines are the title and then one line
-- for each error, in their order and none left out, provided that no line of an error has a line
-- feed in itself.
validate_env-lists :
    {Raw Config : Type 0} (plain_to_instance : Raw → Config)
    (validate_sync : Config → List ValidationError) (raw : Raw) (error : ValidationError)
    (errors : List ValidationError)
    → validate_sync (plain_to_instance raw) ≡ error ∷ errors
    → AllLack line_feed (map line_of (error ∷ errors))
    → (message : Text) × (validate_env plain_to_instance validate_sync raw ≡ inl message)
      × (split line_feed message ≡ report_title ∷ map line_of (error ∷ errors))
unfolding validate_env join
validate_env-lists plain_to_instance validate_sync raw error errors h k = (
  message_of (error ∷ errors),
  rw h refl,
  split-join line_feed report_title (map line_of (error ∷ errors))
      (title_lacks (map line_of (error ∷ errors)) k),
)
