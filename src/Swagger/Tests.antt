-- ===== src/Swagger/Tests.antt =====
-- A page whose reader chooses the light theme on a dark system.
use iveri_nest_sdk.Common.{◌≡◌, refl, true, false, none, some, List, [], ◌∷◌}
use iveri_nest_sdk.Common.Text.{codes}
use iveri_nest_sdk.Swagger.{
  Page, Example, copy_button, button_of, toggle_of, observe, mount_controls, add_copy_buttons,
  add_copy_button, add_theme_toggle, set_theme, resolve_initial_dark, end_copy, reset_copy,
}
use iveri_nest_sdk.Swagger.Theme.{
  PageEvent, rendered, preference_changed, reloaded, after_events, IsThemed,
}
use iveri_nest_sdk.Swagger.Copying.{run, copied, timer_fired}

abbrev example : Example
example = record {
  source = some (record { inner_text = some (codes "{}"); text_content = none });
  button = none;
}

abbrev light_page : Page
light_page = record {
  saved = some (codes "light");
  prefers_dark = true;
  is_dark_mode = false;
  topbar = some (record { toggle = some (button_of false) });
  examples = [];
}

light_page-IsThemed : IsThemed light_page
light_page-IsThemed = record { saved = λ b e. refl; labelled = λ b e. cc }

abbrev events : List PageEvent
events =
    reloaded false []
    ∷ preference_changed false
    ∷ rendered true (example ∷ [])
    ∷ preference_changed true
    ∷ reloaded true (example ∷ [])
    ∷ []

shown_again : toggle_of (after_events events light_page) ≡ some (button_of false)
unfolding observe mount_controls add_copy_buttons add_copy_button add_theme_toggle set_theme
    resolve_initial_dark
shown_again = refl

abbrev fresh_page : Page
fresh_page = record {
  saved = none;
  prefers_dark = true;
  is_dark_mode = false;
  topbar = some (record { toggle = none });
  examples = example ∷ [];
}

first_visit : observe fresh_page ≡ record {
  saved = some (codes "dark");
  prefers_dark = true;
  is_dark_mode = true;
  topbar = some (record { toggle = some (button_of true) });
  examples = record example { button = some copy_button } ∷ [];
}
unfolding observe add_copy_buttons add_copy_button add_theme_toggle set_theme resolve_initial_dark
first_visit = refl

fails_then_resets :
    (run (copied true ∷ copied false ∷ timer_fired ∷ []) copy_button).text_content
    ≡ codes "Copy JSON"
unfolding end_copy reset_copy
fails_then_resets = refl
