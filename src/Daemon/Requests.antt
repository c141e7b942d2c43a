-- ===== src/Daemon/Requests.antt =====
-- core/daemon/daemon.go: gadget requests, which the main loop answers, and simulated buttons.
use wifi_stick_usb_switcher.Prelude.{
  ℕ, zero, suc, ◌*◌, Bool, true, false, not, ◌&&◌, List, [], ◌∷◌, Option, none, some, ◌==◌, ltb,
  if◌then◌else◌,
}
use wifi_stick_usb_switcher.Prelude.Int.{ℤ, pos, pos_part, ◌+ℤ◌, ◌-ℤ◌, ltb_ℤ}
use wifi_stick_usb_switcher.Prelude.Text.{Bytes, bytes_eq, trim_space}
use wifi_stick_usb_switcher.Prelude.Result.{Result, ok, err}
use wifi_stick_usb_switcher.Input.Device.{
  InputEvent, InputEventType, input_tap, input_long_tap, device_status_normal, millisecond, leb_ℤ,
  InputDevice, inject_event, inject_press,
}
use wifi_stick_usb_switcher.Usb.Function.{UsbGadgetFunction, get_name}
use wifi_stick_usb_switcher.Daemon.Spec.{SpecError, parse_gadget_spec, format_gadget_spec}
use wifi_stick_usb_switcher.Daemon.State.{Daemon, modes, mode_at, set_submode_at, set_current_mode}

pub data RequestError : Type 0 where
  bad_spec : SpecError → RequestError
  no_gadget : Bytes → RequestError
  no_submode : Bytes → ℕ → RequestError

-- The index of the first mode of that name.
unfoldable pub find_mode : Bytes → List UsbGadgetFunction → Option ℕ
find_mode name [] = none
find_mode name (m ∷ ms) =
    let rest = find_mode name ms in
    if bytes_eq (get_name m) name then some 0 else elim rest [ none ↦ none | some i ↦ some (suc i) ]

abbrev pub is_query : Bytes → Bool
is_query [] = true
is_query (_ ∷ _) = false

module _ {W : Type 0} where
  unfoldable pub current_gadget_spec : Daemon W → Bytes
  current_gadget_spec d =
      let mode = mode_at d.current_mode d in format_gadget_spec (get_name mode) mode.submode

  -- The `switch` of `handle_gadget_request`.
  unfoldable pub select : ℕ → ℕ → Daemon W → Daemon W
  select index submode d =
      if not (index == d.current_mode)
      then record (set_submode_at index submode (set_current_mode index d)) {
        mode_changed = true;
        submode_changed = false;
      }
      else if not ((mode_at index d).submode == submode)
      then record (set_submode_at index submode d) { mode_changed = true; submode_changed = true }
      else d

  unfoldable pub select_checked :
      Bytes → ℕ → Option ℕ → Daemon W → Daemon W × Result RequestError Bytes
  select_checked name submode none d = (d, err (no_gadget name))
  select_checked name submode (some index) d =
      if ltb (mode_at index d).max_submode submode
      then (d, err (no_submode name submode))
      else let d' = select index submode d in (d', ok (current_gadget_spec d'))

  unfoldable pub select_parsed :
      Result SpecError (Bytes × ℕ) → Daemon W → Daemon W × Result RequestError Bytes
  select_parsed (err e) d = (d, err (bad_spec e))
  select_parsed (ok (name, submode)) d = select_checked name submode (find_mode name (modes d)) d

  unfoldable pub handle_gadget_request : Bytes → Daemon W → Daemon W × Result RequestError Bytes
  handle_gadget_request raw d =
      let spec = trim_space raw in
      if is_query spec
      then (d, ok (current_gadget_spec d))
      else select_parsed (parse_gadget_spec spec) d

  unfoldable pub handle_requests :
      List Bytes → Daemon W → Daemon W × List (Result RequestError Bytes)
  handle_requests [] d = (d, [])
  handle_requests (spec ∷ specs) d =
      let (d', response) = handle_gadget_request spec d in
      let (d'', responses) = handle_requests specs d' in (d'', response ∷ responses)

  -- Answers all that waits in the channel.
  unfoldable pub handle_gadget_requests : Daemon W → Daemon W × List (Result RequestError Bytes)
  handle_gadget_requests d = handle_requests d.gadget_req_chan (record d { gadget_req_chan = [] })

pub data SimulateButtonTarget : Type 0 where
  simulate_tap simulate_long simulate_shutdown simulate_multi : SimulateButtonTarget

pub data SimulateError : Type 0 where
  count_too_small count_too_large : SimulateError

abbrev second : ℕ
second = 1000 * millisecond

simulated : InputEventType → ℤ → InputEvent
simulated type time = record {
  time = time;
  devnode = [];
  type = type;
  duration = pos 0;
  tap_count = 1;
  error = none;
  status = device_status_normal;
}

unfoldable pub inject_taps : ℕ → ℤ → InputDevice → InputDevice
unfolding simulated inject_event
inject_taps zero now device = device
inject_taps (suc n) now device =
    inject_taps n now (inject_event (some (simulated input_tap now)) device)

module _ {W : Type 0} where
  with_device : InputDevice → Daemon W → Daemon W
  with_device device d = record d { input_device = device }

  -- A tap that lies just behind the chain window, so that it is not merged.
  unchained : ℤ → Daemon W → ℤ
  unchained now d = now -ℤ (d.input_device.config.multiple_tap_threshold +ℤ pos millisecond)

  simulate_taps : ℤ → ℤ → Daemon W → Daemon W × Option SimulateError
  unfolding with_device inject_taps
  simulate_taps count now d =
      let max = d.input_device.config.multiple_tap_max_count in
      if ltb_ℤ count (pos 2)
      then (d, some count_too_small)
      else if ltb 0 max && ltb_ℤ (pos max) count
      then (d, some count_too_large)
      else (with_device (inject_taps (pos_part count) now d.input_device) d, none)

  unfoldable pub simulate_button :
      SimulateButtonTarget → ℤ → ℤ → Daemon W → Daemon W × Option SimulateError
  unfolding with_device unchained simulate_taps inject_press simulated inject_event
  simulate_button simulate_tap count now d = (
    with_device (inject_event (some (simulated input_tap (unchained now d))) d.input_device) d,
    none,
  )
  simulate_button simulate_long count now d = (
    with_device (inject_event (some (simulated input_long_tap (unchained now d))) d.input_device) d,
    none,
  )
  simulate_button simulate_shutdown count now d =
      let held = if leb_ℤ d.shutdown_threshold (pos 0) then pos second else d.shutdown_threshold in
      (with_device (inject_press now (held +ℤ pos second) d.input_device) d, none)
  simulate_button simulate_multi count now d = simulate_taps count now d
