-- ===== src/Tests/Data.antt =====
-- A daemon with the modes rndis and adb, and drivers that always succeed and always fail.
use wifi_stick_usb_switcher.Prelude.{ℕ, suc, true, false, List, [], ◌∷◌, none, some}
use wifi_stick_usb_switcher.Prelude.Int.{pos}
use wifi_stick_usb_switcher.Input.Device.{InputDevice}
use wifi_stick_usb_switcher.Led.Mode.{mode_preset_on}
use wifi_stick_usb_switcher.Led.Interpreter.{new_led_interpreter}
use wifi_stick_usb_switcher.Usb.Function.{Kind, rndis, adb, UsbGadgetFunction}
use wifi_stick_usb_switcher.Usb.Controller.{Outcome, succeeds, Method, Driver}
use wifi_stick_usb_switcher.Usb.Controller.Shape.{Shape}
use wifi_stick_usb_switcher.Daemon.State.{Daemon, kind_unset, running}

abbrev function : Kind → ℕ → UsbGadgetFunction
function kind submode = record {
  kind = kind;
  instance_name = b'0' ∷ [];
  type_name = elim kind [ rndis ↦ b'r' ∷ [] | adb ↦ b'a' ∷ [] ];
  function_code = 1;
  effected = false;
  submode = submode;
  max_submode = 2;
  ifname = [];
}

abbrev pub functions : List UsbGadgetFunction
functions = function rndis 1 ∷ function adb 0 ∷ []

abbrev pub shapes : List Shape
shapes = (rndis, 2) ∷ (adb, 2) ∷ []

-- Each call of a method steps the world.
abbrev answers : {W : Type 0} → (W → W) → Outcome → Method W
answers step o = λ f w. (step w, f, o)

abbrev pub driver_on : {W : Type 0} → (W → W) → Outcome → Driver W
driver_on step o = record {
  clean_all = λ w. (w, succeeds);
  create_gadget = λ w. (w, succeeds);
  stat_gadget = λ w. (w, false);
  sleep_poll = λ w. w;
  find_udc = λ w. (w, some (b'u' ∷ []));
  bind_udc = λ udc w. (w, o);
  add = answers step succeeds;
  effect = answers step succeeds;
  remove = answers step succeeds;
  enable = answers step o;
  range_add = λ ps. ps;
  range_effect = λ ps. ps;
  range_enable = λ ps. ps;
}

-- The world counts the calls.
abbrev pub driver : Outcome → Driver ℕ
driver = driver_on suc

abbrev button : InputDevice
button = record {
  config = record {
    long_tap_immediately = true;
    long_tap_threshold = pos 20;
    multiple_tap_threshold = pos 10;
    multiple_tap_max_count = 3;
  };
  devnode = [];
  opened = true;
  pressed = false;
  press_start = none;
  long_tap_reported = false;
  event_queue = [];
  running = true;
  wake = false;
  long_tap_timer = none;
  multi_tap_timer = none;
}

-- The current mode is adb; the last mode that worked is rndis, and a change is wanted.
abbrev pub daemon_on : {W : Type 0} → W → Daemon W
daemon_on w = record {
  rig = record { world = w; functions = functions };
  controller = record { current_functions = []; target_functions = [] };
  input_device = button;
  interpreters = some new_led_interpreter ∷ none ∷ [];
  current_mode = 1;
  current_mode_rndis = false;
  mode_changed = true;
  mode_changing = false;
  submode_changed = false;
  reapply = false;
  first_apply = false;
  apply_done = true;
  led_init_done = true;
  turn_off_leds = false;
  submode_selection = false;
  submode_entry_done = true;
  submode_entry_mode = mode_preset_on;
  led_mode_blink = mode_preset_on;
  shutdown_threshold = pos 100;
  shutting_down = false;
  stopped = false;
  gadget_req_chan = [];
  rebind_chan = none;
  rebind_delay = pos 5;
  pending_enable = false;
  enable_deadline = pos 0;
  pending_apply = record { mode = 1; submode = 0 };
  last_good_mode = 0;
  last_good_submode = 1;
  apply_error = false;
  status = running;
  effect_kind = kind_unset;
  wake = false;
  crashed = false;
}

abbrev pub daemon : Daemon ℕ
daemon = daemon_on 0
