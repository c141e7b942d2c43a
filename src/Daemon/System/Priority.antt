-- ===== src/Daemon/System/Priority.antt =====
-- What a turn does while the button is held for the shutdown, and during one.
use wifi_stick_usb_switcher.Prelude.{
  ℕ, Bool, true, not, ◌&&◌, List, [], ◌∷◌, some, ◌≡◌, if◌then◌else◌,
}
use wifi_stick_usb_switcher.Prelude.Int.{ℤ, pos, ltb_ℤ, ◌-ℤ◌, ◌≤ℤ◌}
use wifi_stick_usb_switcher.Prelude.Text.{Bytes}
use wifi_stick_usb_switcher.Prelude.Result.{Result}
use wifi_stick_usb_switcher.Input.Device.{InputDevice}
use wifi_stick_usb_switcher.Usb.Function.{UsbGadgetFunction}
use wifi_stick_usb_switcher.Daemon.State.{Daemon}
use wifi_stick_usb_switcher.Daemon.Requests.{RequestError}
use wifi_stick_usb_switcher.Daemon.Events.{Spawn, spawn_finish}

-- What a turn reads and changes when it handles events.
pub record Glance : Type 0 where
  pub input_device : InputDevice
  pub gadget_req_chan : List Bytes
  pub functions : List UsbGadgetFunction
  pub current_mode : ℕ
  pub mode_changed : Bool
  pub shutdown_threshold : ℤ

abbrev pub glance : {W : Type 0} → Daemon W → Glance
glance d = record {
  input_device = d.input_device;
  gadget_req_chan = d.gadget_req_chan;
  functions = d.rig.functions;
  current_mode = d.current_mode;
  mode_changed = d.mode_changed;
  shutdown_threshold = d.shutdown_threshold;
}

abbrev Turn : Type 0 → Type 0
Turn W = Daemon W × List Spawn × List (Result RequestError Bytes)

-- The button has been down for the shutdown threshold, which is set.
abbrev pub IsHeld : {W : Type 0} → ℤ → Daemon W → Type 0
IsHeld now d =
    (ltb_ℤ (pos 0) d.shutdown_threshold ≡ true)
    × (d.input_device.pressed ≡ true)
    × ((since : ℤ) × (d.input_device.press_start ≡ some since)
        × (d.shutdown_threshold ≤ℤ now -ℤ since))

-- The second phase of an apply, where its time has come.
abbrev pub due : {W : Type 0} → ℤ → Daemon W → List Spawn
due now d = if d.pending_enable && not (ltb_ℤ now d.enable_deadline) then spawn_finish ∷ [] else []

-- A turn at `now` from `d` to `d'` that starts the goroutines `ss` and answers `rs` handles nothing
-- but a second phase that is due.
pub record Untouched {W : Type 0} (now : ℤ) (d d' : Daemon W) (ss : List Spawn)
    (rs : List (Result RequestError Bytes)) : Type 0 where
  pub stopping : d'.shutting_down ≡ true
  pub same : glance d' ≡ glance d
  pub spawned : ss ≡ due now d
  pub no_answers : rs ≡ []
