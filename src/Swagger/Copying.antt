-- ===== src/Swagger/Copying.antt =====
-- The label of a copy button over any run of clicks and of the resets that they schedule.
use iveri_nest_sdk.Common.{
  ℕ, zero, suc, ◌<◌, ◌≡◌, ◌≢◌, refl, arith, Bool, true, false, List, [], ◌∷◌,
}
use iveri_nest_sdk.Common.Text.{codes}
use iveri_nest_sdk.Swagger.{CopyButton, copy_button, end_copy, reset_copy, fire}

pub data CopyEvent : Type 0 where
  copied : (is_written : Bool) → CopyEvent
  timer_fired : CopyEvent

abbrev pub run : List CopyEvent → CopyButton → CopyButton
run [] button = button
run (copied is_written ∷ es) button = run es (end_copy is_written button)
run (timer_fired ∷ es) button = run es (reset_copy button)

-- A button that says `Copied`, or looks so, is still to be reset.
pub record IsWaiting (button : CopyButton) : Type 0 where
  pub labelled : button.text_content ≡ codes "Copied" → 0 < button.timers
  pub classed : button.is_copied ≡ true → 0 < button.timers

end_copy-IsWaiting :
    (is_written : Bool) (button : CopyButton)
    → IsWaiting button
    → IsWaiting (end_copy is_written button)
unfolding end_copy
end_copy-IsWaiting true button h = record {
  labelled = λ e. omega arith;
  classed = λ e. omega arith;
}
end_copy-IsWaiting false button h = record {
  labelled = λ e. absurd (ground arith);
  classed = h.classed;
}

fire-IsWaiting :
    (n : ℕ) (button : CopyButton) → n ≡ button.timers → IsWaiting button → IsWaiting (fire n button)
fire-IsWaiting zero button e h = h
fire-IsWaiting (suc n) button e h = record {
  labelled = λ e. absurd (ground arith);
  classed = λ e. absurd (cc);
}

run-IsWaiting :
    (es : List CopyEvent) (button : CopyButton) → IsWaiting button → IsWaiting (run es button)
unfolding reset_copy
run-IsWaiting [] button h = h
run-IsWaiting (copied is_written ∷ es) button h =
    run-IsWaiting es (end_copy is_written button) (end_copy-IsWaiting is_written button h)
run-IsWaiting (timer_fired ∷ es) button h =
    run-IsWaiting es (reset_copy button) (fire-IsWaiting button.timers button refl h)

-- However clicks and resets interleave, once no reset is left to fire the button neither says
-- `Copied` nor looks so.
run-settled :
    (es : List CopyEvent)
    → (run es copy_button).timers ≡ 0
    → ((run es copy_button).text_content ≢ codes "Copied")
      × ((run es copy_button).is_copied ≡ false)
run-settled es done =
    let h = run-IsWaiting es copy_button start in
    (λ e. absurd (omega (arith, h.labelled e)), not_copied _ (λ e. omega (arith, h.classed e)))
  where
    start : IsWaiting copy_button
    start = record { labelled = λ e. absurd (ground arith); classed = λ e. absurd (cc) }

    not_copied : (b : Bool) → (b ≡ true → ⊥) → b ≡ false
    not_copied true h = absurd (h refl)
    not_copied false h = refl
