-- ===== src/Swagger/Theme.antt =====
-- The theme of the documentation page over any run of clicks, renderings and reloads.
use mathlib.Core.Path.{subst}
use iveri_nest_sdk.Common.{
  ap₂, ◌≡◌, refl, ap, ◌∙◌, sym, arith, Bool, true, false, not, Option, none, some, List, [], ◌∷◌,
  map, inl, inr, Option-cases,
}
use iveri_nest_sdk.Common.Text.{Text}
use iveri_nest_sdk.Swagger.{
  Page, Topbar, Example, ToggleButton, click, is_missing, theme_name, button_of, set_theme,
  toggle_of, add_theme_toggle, add_copy_button, add_copy_buttons, click_toggle, observe,
  mount_controls, resolve_initial_dark,
}

-- What happens to a page: Swagger UI renders its examples and its topbar, which drops what the
-- script put there; the system's preference changes; the toggle is clicked; the page is loaded
-- again, with the storage kept.
pub data PageEvent : Type 0 where
  rendered : (has_topbar : Bool) → List Example → PageEvent
  preference_changed : Bool → PageEvent
  toggle_clicked : PageEvent
  reloaded : (has_topbar : Bool) → List Example → PageEvent

abbrev bare_topbar : Bool → Option Topbar
bare_topbar true = some (record { toggle = none })
bare_topbar false = none

-- The page once the event is over and the observer has run.
abbrev after_event : PageEvent → Page → Page
after_event (rendered has_topbar examples) page =
    observe (record page { topbar = bare_topbar has_topbar; examples = examples })
after_event (preference_changed dark) page = record page { prefers_dark = dark }
after_event toggle_clicked page = click_toggle page
after_event (reloaded has_topbar examples) page =
    (mount_controls (record page {
      is_dark_mode = false;
      topbar = bare_topbar has_topbar;
      examples = examples;
    })).0

abbrev pub after_events : List PageEvent → Page → Page
after_events [] page = page
after_events (e ∷ es) page = after_events es (after_event e page)

-- Where the toggle is shown, it names the other theme, and the storage has the one that is shown.
pub record IsThemed (page : Page) : Type 0 where
  pub saved :
      (button : ToggleButton)
      → toggle_of page ≡ some button
      → page.saved ≡ some (theme_name page.is_dark_mode)
  pub labelled :
      (button : ToggleButton) → toggle_of page ≡ some button → button ≡ button_of page.is_dark_mode

set_theme-IsThemed : (dark : Bool) (page : Page) → IsThemed (set_theme dark page)
unfolding set_theme
set_theme-IsThemed dark page = record { saved = λ b e. refl; labelled = λ b e. cc }

bare-IsThemed :
    (has_topbar : Bool) (page : Page)
    → page.topbar ≡ bare_topbar has_topbar
    → IsThemed (add_theme_toggle page)
unfolding add_theme_toggle
bare-IsThemed true page e = rw e (set_theme-IsThemed _ page)
bare-IsThemed false page e = rw e (record { saved = λ b h. cc; labelled = λ b h. cc })

after_event-IsThemed : (e : PageEvent) (page : Page) → IsThemed page → IsThemed (after_event e page)
unfolding observe mount_controls add_copy_buttons click_toggle
after_event-IsThemed (rendered has_topbar examples) page h = bare-IsThemed has_topbar _ refl
after_event-IsThemed (preference_changed dark) page h = record {
  saved = h.saved;
  labelled = h.labelled;
}
after_event-IsThemed toggle_clicked page h = elim (Option-cases (toggle_of page)) [
  | inl hidden ↦ subst (λ t. IsThemed (click t page)) (sym hidden) h
  | inr (button, shown) ↦
      subst (λ t. IsThemed (click t page)) (sym shown)
        (set_theme-IsThemed (not page.is_dark_mode) page)
]
after_event-IsThemed (reloaded has_topbar examples) page h = bare-IsThemed has_topbar _ refl

after_events-IsThemed :
    (es : List PageEvent) (page : Page) → IsThemed page → IsThemed (after_events es page)
after_events-IsThemed [] page h = h
after_events-IsThemed (e ∷ es) page h =
    after_events-IsThemed es (after_event e page) (after_event-IsThemed e page h)

some-injective : (b c : Text) → Option.some b ≡ some c → b ≡ c
some-injective b c h = cc

theme_name-injective : (b c : Bool) → theme_name b ≡ theme_name c → b ≡ c
theme_name-injective true true h = refl
theme_name-injective true false h = absurd (cc)
theme_name-injective false true h = absurd (cc)
theme_name-injective false false h = refl

resolve-saved :
    (dark : Bool) (page : Page)
    → page.saved ≡ some (theme_name dark)
    → resolve_initial_dark page ≡ dark
unfolding resolve_initial_dark
resolve-saved true page h = rw h refl
resolve-saved false page h = rw h refl

bare-saved :
    (dark has_topbar : Bool) (page : Page)
    → page.topbar ≡ bare_topbar has_topbar
    → page.saved ≡ some (theme_name dark)
    → (add_theme_toggle page).saved ≡ some (theme_name dark)
unfolding add_theme_toggle set_theme
bare-saved dark true page e h = rw (e, resolve-saved dark page h) refl
bare-saved dark false page e h = rw e h

-- No click among the events.
abbrev IsHandsOff : List PageEvent → Type 0
IsHandsOff [] = Unit
IsHandsOff (toggle_clicked ∷ es) = ⊥
IsHandsOff (rendered has_topbar examples ∷ es) = IsHandsOff es
IsHandsOff (preference_changed dark ∷ es) = IsHandsOff es
IsHandsOff (reloaded has_topbar examples ∷ es) = IsHandsOff es

hands_off-saved :
    (dark : Bool) (es : List PageEvent) (page : Page)
    → IsHandsOff es
    → page.saved ≡ some (theme_name dark)
    → (after_events es page).saved ≡ some (theme_name dark)
unfolding observe mount_controls add_copy_buttons
hands_off-saved dark [] page off h = h
hands_off-saved dark (toggle_clicked ∷ es) page off h = absurd off
hands_off-saved dark (rendered has_topbar examples ∷ es) page off h =
    hands_off-saved dark es _ off (bare-saved dark has_topbar _ refl h)
hands_off-saved dark (preference_changed to ∷ es) page off h = hands_off-saved dark es _ off h
hands_off-saved dark (reloaded has_topbar examples ∷ es) page off h =
    hands_off-saved dark es _ off (bare-saved dark has_topbar _ refl h)

-- The theme of a page with its toggle changes by clicks alone: whatever is rendered and however
-- often the page is loaded again or the system's preference changes, where the toggle is shown
-- again, the theme is the one of before, is the one that is saved, and the button names the other.
theme_kept :
    (es : List PageEvent) (page : Page) (button button' : ToggleButton)
    → IsThemed page
    → IsHandsOff es
    → toggle_of page ≡ some button
    → toggle_of (after_events es page) ≡ some button'
    → ((after_events es page).is_dark_mode ≡ page.is_dark_mode)
      × ((after_events es page).saved ≡ page.saved)
      × (button' ≡ button_of page.is_dark_mode)
theme_kept es page button button' h off shown shown' =
    let after = after_events-IsThemed es page h in
    let before = h.saved button shown in
    let saved = hands_off-saved page.is_dark_mode es page off before in
    let same =
      theme_name-injective (after_events es page).is_dark_mode page.is_dark_mode
        (some-injective _ _ (sym (after.saved button' shown') ∙ saved)) in
    (same, saved ∙ sym before, after.labelled button' shown' ∙ ap button_of same)

-- A click on the toggle changes to the other theme and saves it, and a second one changes back.
click_toggle-twice :
    (page : Page) (button : ToggleButton)
    → toggle_of page ≡ some button
    → ((click_toggle page).is_dark_mode ≡ not page.is_dark_mode)
      × ((click_toggle page).saved ≡ some (theme_name (not page.is_dark_mode)))
      × ((click_toggle (click_toggle page)).is_dark_mode ≡ page.is_dark_mode)
unfolding click_toggle set_theme
click_toggle-twice page button shown =
    let clicked : click_toggle page ≡ set_theme (not page.is_dark_mode) page =
      ap (λ t. click t page) shown in
    rw clicked (refl, refl, ground arith)

-- The observer changes the page, which calls it again: the second call changes nothing, so it ends.
add_copy_button-again :
    (example : Example) → add_copy_button (add_copy_button example) ≡ add_copy_button example
unfolding add_copy_button
add_copy_button-again example = ground arith

map-again :
    (es : List Example) → map add_copy_button (map add_copy_button es) ≡ map add_copy_button es
map-again [] = refl
map-again (e ∷ es) = ap₂ ◌∷◌ (add_copy_button-again e) (map-again es)

add_theme_toggle-again :
    (page : Page) → add_theme_toggle (add_theme_toggle page) ≡ add_theme_toggle page
unfolding add_theme_toggle set_theme
add_theme_toggle-again page = ground arith

add_copy_buttons-again :
    (page : Page) → add_copy_buttons (add_copy_buttons page) ≡ add_copy_buttons page
unfolding add_copy_buttons
add_copy_buttons-again page = ap (λ es. record page { examples = es }) (map-again page.examples)

add_copy_buttons-add_theme_toggle :
    (page : Page)
    → add_copy_buttons (add_theme_toggle page) ≡ add_theme_toggle (add_copy_buttons page)
unfolding add_copy_buttons add_theme_toggle set_theme resolve_initial_dark
add_copy_buttons-add_theme_toggle page = ground arith

toggle-shown :
    (page : Page) (topbar : Topbar)
    → page.topbar ≡ some topbar
    → is_missing (toggle_of (add_theme_toggle page)) ≡ false
unfolding add_theme_toggle set_theme
toggle-shown page topbar e = ground arith

toggle-absent : (page : Page) → page.topbar ≡ none → add_theme_toggle page ≡ page
unfolding add_theme_toggle
toggle-absent page e = ground arith

still-missing :
    (page : Page) → page.topbar ≡ none → is_missing (toggle_of (add_copy_buttons page)) ≡ true
unfolding add_copy_buttons
still-missing page e = rw e refl

-- A reader who has chosen no theme gets the system's, a dark one too, and it is saved as a choice.
unsaved-follows_system :
    (page : Page) (topbar : Topbar)
    → page.saved ≡ none
    → page.topbar ≡ some topbar
    → topbar.toggle ≡ none
    → ((observe page).is_dark_mode ≡ page.prefers_dark)
      × ((observe page).saved ≡ some (theme_name page.prefers_dark))
unfolding observe add_copy_buttons add_theme_toggle set_theme resolve_initial_dark
unsaved-follows_system page topbar new there bare = ground arith

-- The observer's own changes call it again, and that call leaves the page as it is, so the page comes
-- to rest. Where there is a topbar the toggle is then shown and mounting ends; where there is none,
-- the copy buttons are all that is added, and mounting is tried again.
observe-rests :
    (page : Page)
    → (observe (observe page) ≡ observe page)
      × ((topbar : Topbar) → page.topbar ≡ some topbar → (mount_controls page).1 ≡ false)
      × (page.topbar ≡ none → mount_controls page ≡ (add_copy_buttons page, true))
unfolding observe mount_controls
observe-rests page = (
  ap add_theme_toggle (add_copy_buttons-add_theme_toggle (add_copy_buttons page))
      ∙ add_theme_toggle-again (add_copy_buttons (add_copy_buttons page))
      ∙ ap add_theme_toggle (add_copy_buttons-again page),
  λ topbar e. toggle-shown (add_copy_buttons page) topbar (unfold add_copy_buttons in e),
  λ e.
      ap (λ q. (q, is_missing (toggle_of q))) (toggle-absent (add_copy_buttons page) e)
      ∙ ap (λ b. (add_copy_buttons page, b)) (still-missing page e),
)
