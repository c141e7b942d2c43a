-- ===== src/Daemon/Invariant/Events.antt =====
-- A turn of the main loop keeps the invariant.
use wifi_stick_usb_switcher.Prelude.{
  ℕ, ◌+◌, ◌%◌, ◌≤◌, ◌<◌, Bool, true, false, List, [], ◌∷◌, sym, inl, inr, arith, length, Bool-cases,
  if◌then◌else◌, not, ◌&&◌, ◌++◌,
}
use native.Mathlib.Nat.{mod-lt, zero-lt-suc}
use mathlib.Core.Path.{subst}
use wifi_stick_usb_switcher.Usb.Controller.Shape.{Shape}
use wifi_stick_usb_switcher.Daemon.State.{Daemon, mode_at, modes, update_status}
use wifi_stick_usb_switcher.Daemon.Leds.{
  set_current_led, turn_off_all_leds, current_interpreter, do_shutdown,
}
use wifi_stick_usb_switcher.Daemon.Events.{
  Spawn, handle_tap, handle_long_tap, handle_type, handle_input, is_normal, check_entry,
  check_change, loop_done, process_events, drain_input, handle_events, check_rebind, begin_shutdown,
  wants_shutdown,
}
use wifi_stick_usb_switcher.Daemon.Requests.{RequestError, handle_gadget_requests}
use wifi_stick_usb_switcher.Prelude.Text.{Bytes}
use wifi_stick_usb_switcher.Prelude.Result.{Result}
use wifi_stick_usb_switcher.Prelude.Int.{ℤ, ltb_ℤ}
use wifi_stick_usb_switcher.Input.Device.{
  InputEvent, InputEventType, input_tap, input_long_tap, input_multiple_tap, input_error,
}
use wifi_stick_usb_switcher.Daemon.Invariant.{shape_at, core, Inv, mode_at-shape}
use wifi_stick_usb_switcher.Daemon.Invariant.Writes.{
  length-shapes, set_current_mode-Inv, set_submode_at-Inv, if_pair-Inv, if_Inv,
}
use wifi_stick_usb_switcher.Daemon.Invariant.Requests.{handle_requests-Inv}

mod_le : (n m : ℕ) → n % (m + 1) ≤ m
mod_le n m = omega (arith, mod-lt n (zero-lt-suc m))

abbrev Turn : Type 0 → Type 0
Turn W = Daemon W × List Spawn × List (Result RequestError Bytes)

module _ {W : Type 0} {sh : List Shape} where
  if_turn-Inv :
      (b : Bool) (x y : Turn W)
      → Inv sh (core x.0)
      → Inv sh (core y.0)
      → Inv sh (core (if b then x else y).0)
  if_turn-Inv true x y hx hy = hx
  if_turn-Inv false x y hx hy = hy

  -- The submode after a tap is one of the mode's submodes.
  next_submode_le :
      (d : Daemon W)
      → Inv sh (core d)
      → ((mode_at d.current_mode d).submode + 1) % ((mode_at d.current_mode d).max_submode + 1)
        ≤ (shape_at sh d.current_mode).1
  next_submode_le d h =
      subst
        (λ s.
          ((mode_at d.current_mode d).submode + 1) % ((mode_at d.current_mode d).max_submode + 1)
          ≤ s.1)
        (mode_at-shape d.current_mode d h.shape) (mod_le _ _)

  next_mode_lt :
      (d : Daemon W) → Inv sh (core d) → (d.current_mode + 1) % length (modes d) < length sh
  next_mode_lt d h =
      let e = length-shapes (modes d) h.shape.same in
      subst (λ l. (d.current_mode + 1) % l < length sh) (sym e) (mod-lt _ (ground arith))

  pub handle_tap-Inv : (d : Daemon W) → Inv sh (core d) → Inv sh (core (handle_tap d))
  unfolding handle_tap
  handle_tap-Inv d h =
      if_Inv d.submode_selection _ _
        (λ _. set_submode_at-Inv d.current_mode _ d (next_submode_le d h) h)
        (λ _. set_current_mode-Inv _ d (next_mode_lt d h) h)

  pub handle_long_tap-Inv : (d : Daemon W) → Inv sh (core d) → Inv sh (core (handle_long_tap d))
  unfolding handle_long_tap set_current_led
  handle_long_tap-Inv d h = h

  handle_type-Inv :
      (t : InputEventType) (d : Daemon W) → Inv sh (core d) → Inv sh (core (handle_type t d))
  unfolding handle_type
  handle_type-Inv input_tap d h = handle_tap-Inv d h
  handle_type-Inv input_long_tap d h = handle_long_tap-Inv d h
  handle_type-Inv input_multiple_tap d h = h
  handle_type-Inv input_error d h = h

  pub handle_input-Inv :
      (es : List InputEvent) (d : Daemon W) → Inv sh (core d) → Inv sh (core (handle_input es d))
  unfolding handle_input
  handle_input-Inv [] d h = h
  handle_input-Inv (e ∷ es) d h =
      handle_input-Inv es _
        (if_Inv (is_normal e.status) _ d (λ _. handle_type-Inv e.type d h) (λ _. h))

  pub check_entry-Inv : (d : Daemon W) → Inv sh (core d) → Inv sh (core (check_entry d))
  unfolding check_entry set_current_led
  check_entry-Inv d h =
      if_Inv (not d.submode_entry_done && loop_done (current_interpreter d)) _ d (λ _. h) (λ _. h)

  pub check_change-Inv : (d : Daemon W) → Inv sh (core d) → Inv sh (core (check_change d).0)
  unfolding check_change turn_off_all_leds
  check_change-Inv d h = elim (Bool-cases (d.mode_changed && not d.mode_changing)) [
    | inl e ↦ rw e h
    | inr e ↦ rw e h
  ]

  process_events-Inv :
      (now : ℤ) (d : Daemon W) → Inv sh (core d) → Inv sh (core (process_events now d).0)
  unfolding process_events drain_input handle_gadget_requests
  process_events-Inv now d h =
      check_change-Inv _ (check_entry-Inv _ (handle_requests-Inv _ _ (handle_input-Inv _ _ h)))

  begin_shutdown-Inv : (d : Daemon W) → Inv sh (core d) → Inv sh (core (begin_shutdown d))
  unfolding begin_shutdown update_status do_shutdown
  begin_shutdown-Inv d h = h

  check_rebind-Inv :
      (now : ℤ) (d : Daemon W)
      → Inv sh (core d)
      → Inv sh (core (check_rebind now (update_status d)).0)
  unfolding check_rebind update_status
  check_rebind-Inv now d h =
      if_pair-Inv (d.pending_enable && not (ltb_ℤ now d.enable_deadline)) _ _ h h

  -- A turn of the main loop keeps the invariant of the modes.
  pub handle_events-Inv :
      (now : ℤ) (d : Daemon W) → Inv sh (core d) → Inv sh (core (handle_events now d).0)
  unfolding handle_events
  handle_events-Inv now d h =
      let checked = check_rebind now (update_status d) in
      let d' = checked.0 in
      let processed = process_events now d' in
      let h' = check_rebind-Inv now d h in
      let stop : Turn W = (d', checked.1, []) in
      let shut : Turn W = (begin_shutdown d', checked.1, []) in
      let go_on : Turn W = (processed.0, checked.1 ++ processed.1, processed.2) in
      if_turn-Inv d'.shutting_down stop (if wants_shutdown now d' then shut else go_on) h' (
        if_turn-Inv (wants_shutdown now d') shut go_on (begin_shutdown-Inv d' h')
          (process_events-Inv now d' h'))
