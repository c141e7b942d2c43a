-- ===== src/Led/Mode.antt =====
-- core/led/mode.go: the actions of a LED mode, their builder and how one action is applied.
use wifi_stick_usb_switcher.Prelude.{
  ℕ, Bool, List, [], ◌∷◌, ◌++◌, Option, none, some, if◌then◌else◌,
}
use wifi_stick_usb_switcher.Prelude.Int.{ℤ, pos, ◌+ℤ◌}

pub data LedModeActionType : Type 0 where
  mode_action_off mode_action_on mode_action_wait : LedModeActionType

-- Durations and instants are nanoseconds, as integers.
pub record LedModeAction : Type 0 where
  pub action : LedModeActionType
  pub duration : ℤ

pub record LedMode : Type 0 where
  pub actions : List LedModeAction

abbrev pub new_led_mode : LedMode
new_led_mode = record { actions = [] }

abbrev pub off : LedMode → LedMode
off m = record { actions = m.actions ++ record { action = mode_action_off; duration = pos 0 } ∷ [] }

abbrev pub on : LedMode → LedMode
on m = record { actions = m.actions ++ record { action = mode_action_on; duration = pos 0 } ∷ [] }

abbrev pub wait : ℤ → LedMode → LedMode
wait d m = record { actions = m.actions ++ record { action = mode_action_wait; duration = d } ∷ [] }

abbrev pub off_duration : ℤ → LedMode → LedMode
off_duration d m = on (wait d (off m))

abbrev pub on_duration : ℤ → LedMode → LedMode
on_duration d m = off (wait d (on m))

-- `Done` returns its receiver.
abbrev pub done : LedMode → LedMode
done m = m

abbrev pub mode_preset_on : LedMode
mode_preset_on = done (on new_led_mode)

abbrev pub mode_preset_off : LedMode
mode_preset_off = done (off new_led_mode)

pub data LedError : Type 0 where
  trigger_failed brightness_failed : LedError

-- The three methods of `*Led` that an action calls, over the state `W` of the LED's files.
-- A flag is true where the method returns an error.
pub record LedDriver (W : Type 0) : Type 0 where
  pub set_trigger_none : W → W × Bool
  pub get_max_brightness : W → ℕ
  pub set_brightness : ℕ → W → W × Bool

-- What an action leaves: the LED's files, the time it sets (if it sets one) and its error.
pub record Applied (W : Type 0) : Type 0 where
  pub led : W
  pub next_action_time : Option ℤ
  pub failure : Option LedError

abbrev first_error : Bool → Bool → Option LedError
first_error err_trigger err_brightness =
    if err_trigger
    then some trigger_failed
    else if err_brightness
    then some brightness_failed
    else none

module _ {W : Type 0} (driver : LedDriver W) where
  open driver use {set_trigger_none, get_max_brightness, set_brightness}

  -- The brightness is written even where the trigger could not be.
  apply_type : LedModeActionType → ℤ → ℤ → W → Applied W
  apply_type mode_action_on now duration w =
      let (w', err_trigger) = set_trigger_none w in
      let (w'', err_brightness) = set_brightness (get_max_brightness w') w' in
      record {
        led = w'';
        next_action_time = none;
        failure = first_error err_trigger err_brightness;
      }
  apply_type mode_action_off now duration w =
      let (w', err_trigger) = set_trigger_none w in
      let (w'', err_brightness) = set_brightness 0 w' in
      record {
        led = w'';
        next_action_time = none;
        failure = first_error err_trigger err_brightness;
      }
  apply_type mode_action_wait now duration w = record {
    led = w;
    next_action_time = some (now +ℤ duration);
    failure = none;
  }

  unfoldable pub apply_action : ℤ → LedModeAction → W → Applied W
  unfolding apply_type
  apply_action now action w = apply_type action.action now action.duration w
