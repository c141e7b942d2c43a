-- ===== src/Tests/Input.antt =====
-- The theorems on the button, on a press, on a queue and on a double tap behind a tap.
use wifi_stick_usb_switcher.Prelude.{ℕ, true, false, List, [], ◌∷◌, All, none, ◌≡◌, refl, arith}
use wifi_stick_usb_switcher.Prelude.Int.{pos, ◌-ℤ◌, ltb_ℤ, ◌≤ℤ◌}
use wifi_stick_usb_switcher.Input.Device.{
  InputEvent, InputEventType, input_tap, input_long_tap, device_status_normal, InputDevice,
  key_down, key_up,
}
use wifi_stick_usb_switcher.Input.Device.Press.{Reported, fire_all, press-Reported}
use wifi_stick_usb_switcher.Input.Drain.{drain_events}
use wifi_stick_usb_switcher.Input.Drain.Taps.{Conserved, drain_events-Conserved}
use wifi_stick_usb_switcher.Input.Drain.Chains.{
  CountsAtMost, drain_events-CountsAtMost, late_double_tap,
}

abbrev event : InputEventType → ℕ → InputEvent
event type time = record {
  time = pos time;
  devnode = [];
  type = type;
  duration = pos 3;
  tap_count = 1;
  error = none;
  status = device_status_normal;
}

abbrev button : List InputEvent → InputDevice
button queue = record {
  config = record {
    long_tap_immediately = true;
    long_tap_threshold = pos 20;
    multiple_tap_threshold = pos 10;
    multiple_tap_max_count = 3;
  };
  devnode = [];
  opened = true;
  pressed = false;
  press_start = none;
  long_tap_reported = false;
  event_queue = queue;
  running = true;
  wake = false;
  long_tap_timer = none;
  multi_tap_timer = none;
}

abbrev queue : List InputEvent
queue = event input_tap 0 ∷ event input_tap 5 ∷ event input_long_tap 6 ∷ event input_tap 90 ∷ []

abbrev late : List InputEvent
late = event input_tap 0 ∷ event input_tap 50 ∷ event input_tap 55 ∷ []

press-Reported_example :
    Reported []
      (pos 20)
      (pos 100)
      (key_up (pos 130) (fire_all (pos 121 ∷ pos 125 ∷ []) (key_down (pos 100) (button []))))
press-Reported_example =
    press-Reported (pos 100) (pos 130) (pos 121 ∷ pos 125 ∷ []) (button []) refl

drain_events-Conserved_example :
    Conserved queue
      (drain_events (pos 95) (button queue)).0.event_queue
      (drain_events (pos 95) (button queue)).1
drain_events-Conserved_example =
    drain_events-Conserved (pos 95) (button queue) (refl, (refl, (tt, (refl, tt))))

drain_events-CountsAtMost_example : All (CountsAtMost 3) (drain_events (pos 95) (button queue)).1
drain_events-CountsAtMost_example =
    drain_events-CountsAtMost (pos 95) (button queue) (omega arith)
      (omega arith, (omega arith, (omega arith, (omega arith, tt))))

late_gap : ltb_ℤ (pos 10) (pos 50 -ℤ pos 0) ≡ true
unfolding ◌-ℤ◌
late_gap = refl

close_gap : pos 55 -ℤ pos 50 ≤ℤ pos 10
unfolding ◌-ℤ◌
close_gap = omega arith

long_ago : ltb_ℤ (pos 10) (pos 99 -ℤ pos 55) ≡ true
unfolding ◌-ℤ◌
long_ago = refl

late_double_tap_example : (drain_events (pos 99) (button late)).1 ≡ late
late_double_tap_example =
    late_double_tap (pos 99) (button late) (event input_tap 0) (event input_tap 50)
      (event input_tap 55) refl (refl, refl, refl) (omega arith) (omega arith) late_gap close_gap
      long_ago
