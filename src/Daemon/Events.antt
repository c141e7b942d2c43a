-- ===== src/Daemon/Events.antt =====
-- core/daemon/daemon.go: `handle_events`, one turn of the main loop.
use wifi_stick_usb_switcher.Prelude.{
  ◌+◌, ◌%◌, Bool, true, false, not, ◌&&◌, List, [], ◌∷◌, ◌++◌, Option, none, some, if◌then◌else◌,
  length,
}
use wifi_stick_usb_switcher.Prelude.Int.{ℤ, pos, ltb_ℤ}
use wifi_stick_usb_switcher.Prelude.Text.{Bytes}
use wifi_stick_usb_switcher.Prelude.Result.{Result}
use wifi_stick_usb_switcher.Input.Device.{
  InputEvent, InputEventType, input_tap, input_multiple_tap, input_long_tap, input_error,
  InputDeviceExitStatus, device_status_normal, leb_ℤ, state,
}
use wifi_stick_usb_switcher.Input.Drain.{drain_events}
use wifi_stick_usb_switcher.Led.Interpreter.{LedInterpreter}
use wifi_stick_usb_switcher.Daemon.State.{
  Daemon, kind_mode, kind_submode, modes, mode_at, set_submode_at, set_current_mode, update_status,
}
use wifi_stick_usb_switcher.Daemon.Leds.{
  submode_led_mode, current_interpreter, set_current_led, turn_off_all_leds, do_shutdown,
}
use wifi_stick_usb_switcher.Daemon.Requests.{RequestError, handle_gadget_requests}

-- The goroutines that a turn starts.
pub data Spawn : Type 0 where
  spawn_apply spawn_finish : Spawn

abbrev pub is_normal : InputDeviceExitStatus → Bool
is_normal device_status_normal = true
is_normal _ = false

abbrev pub held_too_long : ℤ → Option InputEvent → Bool
held_too_long threshold none = false
held_too_long threshold (some e) = leb_ℤ threshold e.duration

abbrev pub loop_done : Option LedInterpreter → Bool
loop_done none = false
loop_done (some it) = leb_ℤ (pos 1) it.loop_count

module _ {W : Type 0} where
  -- Modes are not empty, by `init`; Go panics on `% 0`.
  unfoldable pub handle_tap : Daemon W → Daemon W
  handle_tap d =
      let mode = mode_at d.current_mode d in
      if d.submode_selection
      then record (set_submode_at d.current_mode ((mode.submode + 1) % (mode.max_submode + 1)) d) {
        mode_changed = true;
        submode_changed = true;
      }
      else record (set_current_mode ((d.current_mode + 1) % length (modes d)) d) {
        mode_changed = true;
        submode_changed = false;
      }

  unfoldable pub handle_long_tap : Daemon W → Daemon W
  handle_long_tap d =
      set_current_led d.submode_entry_mode
        (record d { submode_selection = not d.submode_selection; submode_entry_done = false })

  abbrev pub handle_multiple_tap : Daemon W → Daemon W
  handle_multiple_tap d = record d { reapply = true; mode_changed = true; submode_changed = false }

  unfoldable pub handle_type : InputEventType → Daemon W → Daemon W
  handle_type input_tap d = handle_tap d
  handle_type input_long_tap d = handle_long_tap d
  handle_type input_multiple_tap d = handle_multiple_tap d
  handle_type input_error d = d

  unfoldable pub handle_input : List InputEvent → Daemon W → Daemon W
  handle_input [] d = d
  handle_input (e ∷ es) d = handle_input es (if is_normal e.status then handle_type e.type d else d)

  -- Starts the second phase once the gadget has settled.
  unfoldable pub check_rebind : ℤ → Daemon W → Daemon W × List Spawn
  check_rebind now d =
      if d.pending_enable && not (ltb_ℤ now d.enable_deadline)
      then (record d { pending_enable = false }, spawn_finish ∷ [])
      else (d, [])

  -- The button is held for the shutdown threshold, which is set.
  unfoldable pub wants_shutdown : ℤ → Daemon W → Bool
  wants_shutdown now d =
      ltb_ℤ (pos 0) d.shutdown_threshold
      && held_too_long d.shutdown_threshold (state now d.input_device)

  unfoldable pub begin_shutdown : Daemon W → Daemon W
  begin_shutdown d = do_shutdown (update_status (record d { shutting_down = true }))

  unfoldable pub drain_input : ℤ → Daemon W → Daemon W
  drain_input now d =
      let (device, events) = drain_events now d.input_device in
      handle_input events (record d { input_device = device })

  -- Shows the submode once the indication of the entry is over.
  unfoldable pub check_entry : Daemon W → Daemon W
  check_entry d =
      if not d.submode_entry_done && loop_done (current_interpreter d)
      then set_current_led (submode_led_mode d) (record d { submode_entry_done = true })
      else d

  -- Starts an apply, if one is wanted and none runs.
  unfoldable pub check_change : Daemon W → Daemon W × List Spawn
  check_change d =
      if d.mode_changed && not d.mode_changing
      then (
        turn_off_all_leds (record d {
          mode_changed = false;
          mode_changing = true;
          effect_kind = if d.submode_changed then kind_submode else kind_mode;
        }),
        spawn_apply ∷ [],
      )
      else (d, [])

  -- The part of a turn behind the shutdown test.
  unfoldable pub process_events :
      ℤ → Daemon W → Daemon W × List Spawn × List (Result RequestError Bytes)
  process_events now d =
      let (d', responses) = handle_gadget_requests (drain_input now d) in
      let (d'', spawns) = check_change (check_entry d') in (d'', spawns, responses)

  -- The readings of the clock in one turn are taken as one instant.
  unfoldable pub handle_events :
      ℤ → Daemon W → Daemon W × List Spawn × List (Result RequestError Bytes)
  handle_events now d =
      let (d', spawns) = check_rebind now (update_status d) in
      if d'.shutting_down
      then (d', spawns, [])
      else if wants_shutdown now d'
      then (begin_shutdown d', spawns, [])
      else let (d'', more, responses) = process_events now d' in (d'', spawns ++ more, responses)
