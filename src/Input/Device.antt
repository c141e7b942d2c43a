-- ===== src/Input/Device.antt =====
-- core/input/handler.go: the state of an `InputDevice`, key presses, timers and injected events.
-- The lock makes each method one step; the clock's reading is an argument of each.
pub mod Press
use wifi_stick_usb_switcher.Prelude.{
  ℕ, ◌-◌, ◌*◌, ◌^◌, Bool, true, false, not, ◌||◌, List, [], ◌∷◌, ◌++◌, Option, none, some, ltb,
  ◌==◌, if◌then◌else◌,
}
use wifi_stick_usb_switcher.Prelude.Int.{ℤ, pos, negsuc, ◌-ℤ◌, ltb_ℤ}
use wifi_stick_usb_switcher.Prelude.Text.{Bytes}

pub data InputEventType : Type 0 where
  input_tap input_multiple_tap input_long_tap input_error : InputEventType

pub data InputDeviceExitStatus : Type 0 where
  device_status_normal device_status_device_removed device_error_open_device : InputDeviceExitStatus
  device_error_grab_device device_error_read_event device_error_nil_device : InputDeviceExitStatus
  device_error_release : InputDeviceExitStatus

-- Instants and durations are nanoseconds, as integers.
pub record InputEvent : Type 0 where
  pub time : ℤ
  pub devnode : Bytes
  pub type : InputEventType
  pub duration : ℤ
  pub tap_count : ℕ
  pub error : Option Bytes
  pub status : InputDeviceExitStatus

pub record InputDeviceConfig : Type 0 where
  pub long_tap_immediately : Bool
  pub long_tap_threshold : ℤ
  pub multiple_tap_threshold : ℤ
  pub multiple_tap_max_count : ℕ

-- `press_start` is `none` at the zero time, a timer is `none` where it is nil and else holds the
-- duration that it was armed with, and `wake` is true while the channel of capacity 1 is full.
pub record InputDevice : Type 0 where
  pub config : InputDeviceConfig
  pub devnode : Bytes
  pub opened : Bool
  pub pressed : Bool
  pub press_start : Option ℤ
  pub long_tap_reported : Bool
  pub event_queue : List InputEvent
  pub running : Bool
  pub wake : Bool
  pub long_tap_timer : Option ℤ
  pub multi_tap_timer : Option ℤ

abbrev pub leb_ℤ : ℤ → ℤ → Bool
leb_ℤ a b = not (ltb_ℤ b a)

abbrev pub millisecond : ℕ
millisecond = 1_000_000

abbrev is_zero : ℤ → Bool
is_zero (pos n) = n == 0
is_zero (negsuc n) = false

-- The defaults that `NewDevice` and `NewSyntheticDevice` fill in.
unfoldable pub with_defaults : InputDeviceConfig → InputDeviceConfig
with_defaults c = record {
  long_tap_immediately = c.long_tap_immediately;
  long_tap_threshold =
      if leb_ℤ c.long_tap_threshold (pos 0) then pos (300 * millisecond) else c.long_tap_threshold;
  multiple_tap_threshold =
      if is_zero c.multiple_tap_threshold
      then pos (300 * millisecond)
      else c.multiple_tap_threshold;
  multiple_tap_max_count = if ltb c.multiple_tap_max_count 2 then 5 else c.multiple_tap_max_count;
}

unfoldable pub new_synthetic_device : InputDeviceConfig → InputDevice
unfolding with_defaults
new_synthetic_device c = record {
  config = with_defaults c;
  devnode = [];
  opened = false;
  pressed = false;
  press_start = none;
  long_tap_reported = false;
  event_queue = [];
  running = false;
  wake = false;
  long_tap_timer = none;
  multi_tap_timer = none;
}

abbrev pub signal_wake : InputDevice → InputDevice
signal_wake d = record d { wake = true }

abbrev pub reset_press : InputDevice → InputDevice
reset_press d = record d { pressed = false; press_start = none }

abbrev pub push_back : InputEvent → InputDevice → InputDevice
push_back e d = record d { event_queue = d.event_queue ++ e ∷ [] }

abbrev pub stop_long_tap_timer : InputDevice → InputDevice
stop_long_tap_timer d = record d { long_tap_timer = none }

abbrev pub stop_multi_tap_timer : InputDevice → InputDevice
stop_multi_tap_timer d = record d { multi_tap_timer = none }

abbrev pub arm_multi_tap_timer : ℤ → InputDevice → InputDevice
arm_multi_tap_timer t d =
    let d' = stop_multi_tap_timer d in
    if leb_ℤ t (pos 0) then signal_wake d' else record d' { multi_tap_timer = some t }

abbrev pub arm_long_tap_timer : InputDevice → InputDevice
arm_long_tap_timer d =
    let d' = stop_long_tap_timer d in
    if not d.config.long_tap_immediately || leb_ℤ d.config.long_tap_threshold (pos 0)
    then d'
    else record d' { long_tap_timer = some d.config.long_tap_threshold }

-- `t.Sub` of the zero time is the longest duration.
abbrev pub since : ℤ → Option ℤ → ℤ
since t none = pos (2 ^ 63 - 1)
since t (some start) = t -ℤ start

abbrev pub new_event : Bytes → ℤ → ℤ → InputEventType → InputEvent
new_event devnode time duration type = record {
  time = time;
  devnode = devnode;
  type = type;
  duration = duration;
  tap_count = 1;
  error = none;
  status = device_status_normal;
}

-- The function that the long-tap timer runs; `threshold` is the one it was armed with.
unfoldable pub long_tap_timer_fires : ℤ → ℤ → InputDevice → InputDevice
long_tap_timer_fires threshold now d =
    if not d.pressed || d.long_tap_reported
    then d
    else if ltb_ℤ (since now d.press_start) threshold
    then d
    else signal_wake (
        push_back (new_event d.devnode now (since now d.press_start) input_long_tap)
          (record d { long_tap_reported = true }))

unfoldable pub key_down : ℤ → InputDevice → InputDevice
key_down event_time d =
    if d.pressed
    then d
    else signal_wake (
        arm_long_tap_timer
          (record d { pressed = true; press_start = some event_time; long_tap_reported = false }))

-- A zero `press_start` is replaced by the event's own time.
abbrev start_or : ℤ → Option ℤ → ℤ
start_or t none = t
start_or t (some start) = start

abbrev pub type_of : ℤ → ℤ → InputEventType
type_of duration threshold = if leb_ℤ threshold duration then input_long_tap else input_tap

unfoldable pub key_up : ℤ → InputDevice → InputDevice
key_up event_time d =
    if not d.pressed
    then d
    else let d' = stop_long_tap_timer d in
      let duration = event_time -ℤ start_or event_time d.press_start in
      if d.long_tap_reported
      then signal_wake (reset_press (record d' { long_tap_reported = false }))
      else signal_wake (
          push_back
            (new_event d.devnode event_time duration (type_of duration d.config.long_tap_threshold))
            (reset_press d'))

-- An event that evdev delivers.
pub record KeyEvent : Type 0 where
  pub type : ℕ
  pub value : ℕ
  pub time : ℤ

abbrev pub ev_key : ℕ
ev_key = 1

-- The body of `daemon`'s loop over the events of one read.
unfoldable pub handle_key : KeyEvent → InputDevice → InputDevice
unfolding key_down key_up
handle_key e d =
    if not (e.type == ev_key)
    then d
    else if e.value == 1
    then key_down e.time d
    else if e.value == 0
    then key_up e.time d
    else d

unfoldable pub handle_keys : List KeyEvent → InputDevice → InputDevice
unfolding handle_key
handle_keys [] d = d
handle_keys (e ∷ es) d = handle_keys es (handle_key e d)

-- `State`: the event of the press that is being held.
unfoldable pub state : ℤ → InputDevice → Option InputEvent
state now d =
    if not d.pressed
    then none
    else let duration = now -ℤ start_or now d.press_start in
      some (new_event d.devnode now duration (type_of duration d.config.long_tap_threshold))

unfoldable pub inject_event : Option InputEvent → InputDevice → InputDevice
inject_event none d = d
inject_event (some e) d = signal_wake (push_back e d)

unfoldable pub inject_press : ℤ → ℤ → InputDevice → InputDevice
inject_press now duration d =
    signal_wake
      (record d { pressed = true; press_start = some (now -ℤ duration); long_tap_reported = true })

unfoldable pub close : Bool → InputDevice → InputDevice × InputDeviceExitStatus
close released d =
    if not d.opened
    then (d, device_error_nil_device)
    else let d' = stop_multi_tap_timer (stop_long_tap_timer d) in
      if not released
      then (d', device_error_release)
      else (record d' { opened = false; running = false }, device_status_normal)
