-- ===== src/Daemon/System/Control.antt =====
-- What the operations do to the fields that keep applies apart: the mode switch and the two halves
-- of the rebind deadline.
use wifi_stick_usb_switcher.Prelude.{
  ℕ, Bool, true, false, not, ◌&&◌, List, [], ◌∷◌, Option, none, some, ◌≡◌, refl, ◌∙◌, if◌then◌else◌,
  ltb, ◌==◌,
}
use wifi_stick_usb_switcher.Prelude.Int.{ℤ}
use wifi_stick_usb_switcher.Prelude.Text.{Bytes, trim_space}
use wifi_stick_usb_switcher.Prelude.Result.{Result, ok, err}
use wifi_stick_usb_switcher.Input.Device.{
  InputEvent, InputEventType, input_tap, input_long_tap, input_multiple_tap, input_error,
}
use wifi_stick_usb_switcher.Daemon.Spec.{SpecError, parse_gadget_spec}
use wifi_stick_usb_switcher.Daemon.State.{Daemon, mode_at, modes, set_current_mode}
use wifi_stick_usb_switcher.Daemon.Leds.{
  set_current_led, turn_off_all_leds, display_mode_state, current_interpreter,
}
use wifi_stick_usb_switcher.Daemon.Requests.{
  find_mode, select, select_checked, select_parsed, is_query, handle_gadget_request,
  handle_requests, handle_gadget_requests,
}
use wifi_stick_usb_switcher.Daemon.Events.{
  handle_tap, handle_long_tap, handle_type, handle_input, is_normal, check_entry, loop_done,
  drain_input,
}

pub record Control : Type 0 where
  pub mode_changing : Bool
  pub rebind_chan : Option ℤ
  pub pending_enable : Bool
  pub crashed : Bool

module _ {W : Type 0} where
  abbrev pub control : Daemon W → Control
  control d = record {
    mode_changing = d.mode_changing;
    rebind_chan = d.rebind_chan;
    pending_enable = d.pending_enable;
    crashed = d.crashed;
  }

  pub if_control :
      (b : Bool) (x y : Daemon W) {c : Control}
      → control x ≡ c
      → control y ≡ c
      → control (if b then x else y) ≡ c
  if_control true x y hx hy = hx
  if_control false x y hx hy = hy

  pub if_pair-control :
      {R : Type 0} (b : Bool) (x y : Daemon W × R) {c : Control}
      → control x.0 ≡ c
      → control y.0 ≡ c
      → control (if b then x else y).0 ≡ c
  if_pair-control true x y hx hy = hx
  if_pair-control false x y hx hy = hy

  pub display_mode_state-control : (d : Daemon W) → control (display_mode_state d) ≡ control d
  unfolding display_mode_state set_current_led turn_off_all_leds
  display_mode_state-control d =
      if_control d.apply_error _ _ refl (if_control d.turn_off_leds _ _ refl refl)

  handle_tap-control : (d : Daemon W) → control (handle_tap d) ≡ control d
  unfolding handle_tap set_current_mode
  handle_tap-control d = if_control d.submode_selection _ _ refl refl

  handle_type-control : (t : InputEventType) (d : Daemon W) → control (handle_type t d) ≡ control d
  unfolding handle_type handle_long_tap set_current_led
  handle_type-control input_tap d = handle_tap-control d
  handle_type-control input_long_tap d = refl
  handle_type-control input_multiple_tap d = refl
  handle_type-control input_error d = refl

  handle_input-control :
      (es : List InputEvent) (d : Daemon W) → control (handle_input es d) ≡ control d
  unfolding handle_input
  handle_input-control [] d = refl
  handle_input-control (e ∷ es) d =
      handle_input-control es _
      ∙ if_control (is_normal e.status) _ d (handle_type-control e.type d) refl

  pub drain_input-control : (now : ℤ) (d : Daemon W) → control (drain_input now d) ≡ control d
  unfolding drain_input
  drain_input-control now d = handle_input-control _ _

  select-control : (index submode : ℕ) (d : Daemon W) → control (select index submode d) ≡ control d
  unfolding select set_current_mode
  select-control index submode d =
      if_control (not (index == d.current_mode)) _ _ refl
        (if_control (not ((mode_at index d).submode == submode)) _ d refl refl)

  select_checked-control :
      (name : Bytes) (submode : ℕ) (found : Option ℕ) (d : Daemon W)
      → control (select_checked name submode found d).0 ≡ control d
  unfolding select_checked
  select_checked-control name submode none d = refl
  select_checked-control name submode (some i) d =
      if_pair-control (ltb (mode_at i d).max_submode submode) _ _ refl (select-control i submode d)

  select_parsed-control :
      (parsed : Result SpecError (Bytes × ℕ)) (d : Daemon W)
      → control (select_parsed parsed d).0 ≡ control d
  unfolding select_parsed
  select_parsed-control (err e) d = refl
  select_parsed-control (ok (name, submode)) d =
      select_checked-control name submode (find_mode name (modes d)) d

  handle_gadget_request-control :
      (raw : Bytes) (d : Daemon W) → control (handle_gadget_request raw d).0 ≡ control d
  unfolding handle_gadget_request
  handle_gadget_request-control raw d =
      if_pair-control (is_query (trim_space raw)) _ _ refl
        (select_parsed-control (parse_gadget_spec (trim_space raw)) d)

  handle_requests-control :
      (raws : List Bytes) (d : Daemon W) → control (handle_requests raws d).0 ≡ control d
  unfolding handle_requests
  handle_requests-control [] d = refl
  handle_requests-control (raw ∷ raws) d =
      handle_requests-control raws _ ∙ handle_gadget_request-control raw d

  pub handle_gadget_requests-control :
      (d : Daemon W) → control (handle_gadget_requests d).0 ≡ control d
  unfolding handle_gadget_requests
  handle_gadget_requests-control d = handle_requests-control d.gadget_req_chan _

  pub check_entry-control : (d : Daemon W) → control (check_entry d) ≡ control d
  unfolding check_entry set_current_led
  check_entry-control d =
      if_control (not d.submode_entry_done && loop_done (current_interpreter d)) _ d refl refl
