-- ===== src/Daemon/Leds.antt =====
-- core/daemon/daemon.go: what the daemon shows on its LEDs.
use wifi_stick_usb_switcher.Prelude.{
  ℕ, zero, suc, ◌*◌, ◌%◌, Bool, true, false, List, [], ◌∷◌, Option, none, some, get_elem?, set,
  if◌then◌else◌, map,
}
use wifi_stick_usb_switcher.Prelude.Int.{pos}
use wifi_stick_usb_switcher.Input.Device.{millisecond}
use wifi_stick_usb_switcher.Led.Mode.{
  LedMode, new_led_mode, on_duration, wait, done, mode_preset_on, mode_preset_off,
}
use wifi_stick_usb_switcher.Led.Interpreter.{LedInterpreter, set_mode}
use wifi_stick_usb_switcher.Daemon.State.{Daemon, mode_at}

-- The second of LED_SUBMODE_MODES: slow blinking.
abbrev pub slow_blink : LedMode
slow_blink =
    done (wait (pos (500 * millisecond)) (on_duration (pos (500 * millisecond)) new_led_mode))

abbrev led_submode_mode : ℕ → LedMode
led_submode_mode zero = mode_preset_on
led_submode_mode (suc _) = slow_blink

abbrev pub set_slot : LedMode → Option LedInterpreter → Option LedInterpreter
set_slot mode none = none
set_slot mode (some it) = some (set_mode mode it)

abbrev is_live : Option LedInterpreter → Bool
is_live none = false
is_live (some it) = true

-- One round of the shutdown indication: on, then off.
abbrev flash : Option LedInterpreter → Option LedInterpreter
flash slot = set_slot mode_preset_off (set_slot mode_preset_on slot)

-- The rounds go from the last LED to the first, so `last_interpreter` is the first that works.
abbrev light_last : List (Option LedInterpreter) → List (Option LedInterpreter)
light_last [] = []
light_last (none ∷ slots) = none ∷ light_last slots
light_last (some it ∷ slots) = some (set_mode mode_preset_on it) ∷ slots

module _ {W : Type 0} where
  abbrev pub submode_led_mode : Daemon W → LedMode
  submode_led_mode d = led_submode_mode ((mode_at d.current_mode d).submode % 2)

  -- The interpreter of the current mode; none where there are fewer LEDs, or its LED failed.
  unfoldable pub current_interpreter : Daemon W → Option LedInterpreter
  current_interpreter d = elim (get_elem? d.interpreters d.current_mode) [
    | none ↦ none
    | some slot ↦ slot
  ]

  -- `current_interpreter().SetMode(mode)`, if there is one.
  unfoldable pub set_current_led : LedMode → Daemon W → Daemon W
  set_current_led mode d = record d {
    interpreters = set d.interpreters d.current_mode (set_slot mode (current_interpreter d));
  }

  unfoldable pub turn_off_all_leds : Daemon W → Daemon W
  turn_off_all_leds d = record d { interpreters = map (set_slot mode_preset_off) d.interpreters }

  -- `display_mode_state`, and `apply_led_state`, which makes the same choice.
  unfoldable pub display_mode_state : Daemon W → Daemon W
  display_mode_state d =
      if d.apply_error
      then turn_off_all_leds d
      else if d.turn_off_leds
      then set_current_led mode_preset_off d
      else set_current_led (submode_led_mode d) d

  unfoldable pub set_turn_off_leds : Bool → Daemon W → Daemon W
  set_turn_off_leds off d = display_mode_state (record d { turn_off_leds = off })

  -- The LEDs of `do_shutdown`: all off, a round for each, and the last one on while the shutdown
  -- command runs. The command itself runs outside the model.
  unfoldable pub do_shutdown : Daemon W → Daemon W
  do_shutdown d = record d {
    interpreters = light_last (map flash (map (set_slot mode_preset_off) d.interpreters));
  }
