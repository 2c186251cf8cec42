-- ===== src/Scrub/Tests.antt =====
-- An event with a token in it, and a witness.
use iveri_nest_sdk.Common.{◌≡◌, refl, true, none, some, [], ◌∷◌}
use iveri_nest_sdk.Common.Text.{codes, to_lower_unit}
use iveri_nest_sdk.Scrub.Event.{
  redacted, leaf, object, no_entry, one_entry, Entries, ErrorEvent, fold_unit, is_sensitive,
  scrub_record, scrub_event,
}
use iveri_nest_sdk.Scrub.Report.{
  is_clean_option, is_clean_request, is_clean_user, is_clean_exception, is_clean_breadcrumb, all_of,
  scrub_event-clean,
}

abbrev extra : Entries
extra =
    one_entry (codes "user")
      (object
        (one_entry (codes "refreshToken") (leaf 1) (one_entry (codes "name") (leaf 2) no_entry)))
      no_entry

scrubbed_extra :
    scrub_record 0 extra
    ≡ one_entry
        (codes "user")
        (object
          (one_entry (codes "refreshToken") redacted (one_entry (codes "name") (leaf 2) no_entry)))
        no_entry
unfolding scrub_record is_sensitive fold_unit to_lower_unit
scrubbed_extra = refl

abbrev event : ErrorEvent
event = record {
  extra = some extra;
  contexts = none;
  request = some (record {
    method = some (codes "POST");
    headers = some ((codes "Authorization", codes "x") ∷ (codes "Accept", codes "y") ∷ []);
    rest = 1 ∷ [];
  });
  user = some (record { id = some (codes "7"); rest = 2 ∷ [] });
  exception_values =
      some
        (record { frames = some (record { vars = some extra; rest = [] } ∷ []); rest = [] } ∷ []);
  breadcrumbs = none;
  rest = [];
}

scrub_event-clean_example :
    let e = scrub_event event in
    (is_clean_option e.extra ≡ true)
    × (is_clean_option e.contexts ≡ true)
    × (is_clean_request e.request ≡ true)
    × (is_clean_user e.user ≡ true)
    × (all_of is_clean_exception e.exception_values ≡ true)
    × (all_of is_clean_breadcrumb e.breadcrumbs ≡ true)
scrub_event-clean_example = scrub_event-clean event
