-- ===== src/Swagger.antt =====
-- src/swagger/index.ts: the script of the documentation page, `SWAGGER_UI_CUSTOM_JS`, as functions
-- over the page that it changes, and the options that Swagger UI gets. The style sheet is a text.
--
-- Of the page only what the script reads and writes is kept. A storage that refuses to be written is
-- left out.
pub mod Theme
pub mod Copying
mod Tests
use iveri_nest_sdk.Common.{
  ℕ, zero, suc, Bool, true, false, not, Option, none, some, List, [], ◌∷◌, map, if◌then◌else◌,
}
use iveri_nest_sdk.Common.Text.{Text, codes, text_eq}

pub record SwaggerUiOptions : Type 0 where
  pub persist_authorization : Bool
  pub doc_expansion : Text
  pub tags_sorter : Text
  pub operations_sorter : Text
  -- Models are hidden where the depth is -1, which is `none`.
  pub default_models_expand_depth : Option ℕ

abbrev swagger_ui_options : SwaggerUiOptions
swagger_ui_options = record {
  persist_authorization = true;
  doc_expansion = codes "none";
  tags_sorter = codes "alpha";
  operations_sorter = codes "alpha";
  default_models_expand_depth = none;
}

abbrev swagger_ui_custom_js_path : Text
swagger_ui_custom_js_path = codes "/docs/swagger-ui.js"

pub record ToggleButton : Type 0 where
  pub text_content : Text
  pub aria_label : Text

pub record Topbar : Type 0 where
  pub toggle : Option ToggleButton

-- `timers` are the resets that are still to fire.
pub record CopyButton : Type 0 where
  pub text_content : Text
  pub is_copied : Bool
  pub timers : ℕ

pub record Source : Type 0 where
  pub inner_text : Option Text
  pub text_content : Option Text

-- A `.model-example` of the page: its `.model-box, pre, code`, if there is one, and its button.
pub record Example : Type 0 where
  pub source : Option Source
  pub button : Option CopyButton

-- `saved` is the entry of `localStorage`, `prefers_dark` the media query and `is_dark_mode` the class
-- of the document's element.
pub record Page : Type 0 where
  pub saved : Option Text
  pub prefers_dark : Bool
  pub is_dark_mode : Bool
  pub topbar : Option Topbar
  pub examples : List Example

abbrev pub copy_button : CopyButton
copy_button = record { text_content = codes "Copy JSON"; is_copied = false; timers = 0 }

unfoldable pub add_copy_button : Example → Example
add_copy_button example = elim example.button [
  | some button ↦ example
  | none ↦ elim example.source [
    | none ↦ example
    | some source ↦ record example { button = some copy_button }
  ]
]

unfoldable pub add_copy_buttons : Page → Page
unfolding add_copy_button
add_copy_buttons page = record page { examples = map add_copy_button page.examples }

-- What a click writes to the clipboard.
abbrev copied_text : Source → Text
copied_text source = elim source.inner_text [
  | some text ↦ text
  | none ↦ elim source.text_content [ some text ↦ text | none ↦ [] ]
]

-- The end of a click's handler, by whether the clipboard took the text.
unfoldable pub end_copy : Bool → CopyButton → CopyButton
end_copy true button = record {
  text_content = codes "Copied";
  is_copied = true;
  timers = suc button.timers;
}
end_copy false button = record button { text_content = codes "Copy failed" }

abbrev pub fire : ℕ → CopyButton → CopyButton
fire zero button = button
fire (suc n) button = record { text_content = codes "Copy JSON"; is_copied = false; timers = n }

unfoldable pub reset_copy : CopyButton → CopyButton
reset_copy button = fire button.timers button

unfoldable pub resolve_initial_dark : Page → Bool
resolve_initial_dark page = elim page.saved [
  | none ↦ page.prefers_dark
  | some saved ↦
      if text_eq saved (codes "dark")
      then true
      else if text_eq saved (codes "light")
      then false
      else page.prefers_dark
]

abbrev pub theme_name : Bool → Text
theme_name dark = if dark then codes "dark" else codes "light"

abbrev pub button_of : Bool → ToggleButton
button_of dark = record {
  text_content = if dark then codes "Light" else codes "Dark";
  aria_label = if dark then codes "Switch to light mode" else codes "Switch to dark mode";
}

-- `setTheme`, with the button that it labels in the topbar.
unfoldable pub set_theme : Bool → Page → Page
set_theme dark page = record page {
  is_dark_mode = dark;
  saved = some (theme_name dark);
  topbar = some (record { toggle = some (button_of dark) });
}

abbrev pub toggle_of : Page → Option ToggleButton
toggle_of page = elim page.topbar [ none ↦ none | some topbar ↦ topbar.toggle ]

unfoldable pub add_theme_toggle : Page → Page
unfolding set_theme resolve_initial_dark
add_theme_toggle page = elim page.topbar [
  | none ↦ page
  | some topbar ↦ elim topbar.toggle [
    | some button ↦ page
    | none ↦ set_theme (resolve_initial_dark page) page
  ]
]

-- Nobody clicks on a button that is not shown.
abbrev pub click : Option ToggleButton → Page → Page
click none page = page
click (some button) page = set_theme (not page.is_dark_mode) page

unfoldable pub click_toggle : Page → Page
unfolding set_theme
click_toggle page = click (toggle_of page) page

-- What the observer of the page's mutations runs.
unfoldable pub observe : Page → Page
unfolding add_copy_buttons add_theme_toggle
observe page = add_theme_toggle (add_copy_buttons page)

abbrev pub is_missing : Option ToggleButton → Bool
is_missing none = true
is_missing (some button) = false

-- The page after an attempt to mount the controls, and whether another is scheduled.
unfoldable pub mount_controls : Page → Page × Bool
unfolding observe
mount_controls page = let mounted = observe page in (mounted, is_missing (toggle_of mounted))
