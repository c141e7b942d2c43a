-- ===== src/Daemon/State.antt =====
-- core/daemon/daemon.go: the state of the `Daemon`.
use wifi_stick_usb_switcher.Prelude.{
  ℕ, Bool, true, false, List, Option, none, some, get_elem?, set, if◌then◌else◌,
}
use wifi_stick_usb_switcher.Prelude.Int.{ℤ}
use wifi_stick_usb_switcher.Prelude.Text.{Bytes}
use wifi_stick_usb_switcher.Input.Device.{InputDevice}
use wifi_stick_usb_switcher.Led.Mode.{LedMode}
use wifi_stick_usb_switcher.Led.Interpreter.{LedInterpreter}
use wifi_stick_usb_switcher.Usb.Function.{
  Kind, rndis, adb, UsbGadgetFunction, new_usb_gadget_adb, set_submode,
}
use wifi_stick_usb_switcher.Usb.Controller.{Rig, UsbGadgetController}

-- `effect_kind`: empty, "mode" or "submode".
pub data EffectKind : Type 0 where
  kind_unset kind_mode kind_submode : EffectKind

-- The status strings.
pub data Status : Type 0 where
  initing running shutting_down_status : Status
  effecting_gadget : EffectKind → Status

pub record ApplyTarget : Type 0 where
  pub mode : ℕ
  pub submode : ℕ

-- `rig.functions` is `modes`: the heap of the function objects that the controller shares. A slot
-- of `interpreters` is `none` where the LED could not be initialised. `rebind_chan` holds one
-- deadline at most and `gadget_req_chan` the descriptions of the waiting requests. `led_mode_blink`
-- is the package's variable LED_MODE_BLINK. `crashed` is true once a panic that nothing recovers
-- has ended the process.
pub record Daemon (W : Type 0) : Type 0 where
  pub rig : Rig W
  pub controller : UsbGadgetController
  pub input_device : InputDevice
  pub interpreters : List (Option LedInterpreter)
  pub current_mode : ℕ
  pub current_mode_rndis : Bool
  pub mode_changed : Bool
  pub mode_changing : Bool
  pub submode_changed : Bool
  pub reapply : Bool
  pub first_apply : Bool
  pub apply_done : Bool
  pub led_init_done : Bool
  pub turn_off_leds : Bool
  pub submode_selection : Bool
  pub submode_entry_done : Bool
  pub submode_entry_mode : LedMode
  pub led_mode_blink : LedMode
  pub shutdown_threshold : ℤ
  pub shutting_down : Bool
  pub stopped : Bool
  pub gadget_req_chan : List Bytes
  pub rebind_chan : Option ℤ
  pub rebind_delay : ℤ
  pub pending_enable : Bool
  pub enable_deadline : ℤ
  pub pending_apply : ApplyTarget
  pub last_good_mode : ℕ
  pub last_good_submode : ℕ
  pub apply_error : Bool
  pub status : Status
  pub effect_kind : EffectKind
  pub wake : Bool
  pub crashed : Bool

abbrev pub is_rndis : Kind → Bool
is_rndis rndis = true
is_rndis adb = false

abbrev effect_status : EffectKind → Status
effect_status kind_unset = effecting_gadget kind_mode
effect_status kind = effecting_gadget kind

module _ {W : Type 0} where
  abbrev pub modes : Daemon W → List UsbGadgetFunction
  modes d = d.rig.functions

  -- An index is in range by the invariant of Daemon/Invariant; out of range Go panics, where the
  -- model reads this value.
  abbrev pub mode_at : ℕ → Daemon W → UsbGadgetFunction
  mode_at i d = elim (get_elem? d.rig.functions i) [ none ↦ new_usb_gadget_adb | some f ↦ f ]

  abbrev pub with_functions : List UsbGadgetFunction → Daemon W → Daemon W
  with_functions fs d = record d { rig = record { world = d.rig.world; functions = fs } }

  -- `modes[i].SetSubmode(n)`.
  abbrev pub set_submode_at : ℕ → ℕ → Daemon W → Daemon W
  set_submode_at i n d = with_functions (set d.rig.functions i (set_submode n (mode_at i d))) d

  unfoldable pub set_current_mode : ℕ → Daemon W → Daemon W
  set_current_mode index d = record d {
    current_mode = index;
    current_mode_rndis = is_rndis (mode_at index d).kind;
  }

  abbrev pub is_current_rndis_mode : Daemon W → Bool
  is_current_rndis_mode d = d.current_mode_rndis

  abbrev pub signal_wake : Daemon W → Daemon W
  signal_wake d = record d { wake = true }

  unfoldable pub update_status : Daemon W → Daemon W
  update_status d = record d {
    status =
        if d.shutting_down
        then shutting_down_status
        else if d.mode_changing
        then effect_status d.effect_kind
        else running;
  }

  -- `commit_mode`.
  unfoldable pub commit_mode : ApplyTarget → Daemon W → Daemon W
  commit_mode target d = record d {
    last_good_mode = target.mode;
    last_good_submode = target.submode;
    apply_error = false;
  }
