-- ===== src/Daemon/Invariant/Writes.antt =====
-- Writes of one field and the invariant.
use wifi_stick_usb_switcher.Prelude.{
  ℕ, ◌≤◌, ◌<◌, Bool, true, false, List, ◌≡◌, refl, sym, ap, ◌∙◌, arith, map, length, if◌then◌else◌,
  length-map,
}
use wifi_stick_usb_switcher.Led.Mode.{LedMode}
use wifi_stick_usb_switcher.Usb.Function.{UsbGadgetFunction}
use wifi_stick_usb_switcher.Usb.Controller.Shape.{Shape, shape_of}
use wifi_stick_usb_switcher.Daemon.State.{Daemon, is_rndis, set_submode_at, set_current_mode}
use wifi_stick_usb_switcher.Daemon.Leds.{set_current_led, turn_off_all_leds, display_mode_state}
use wifi_stick_usb_switcher.Daemon.Invariant.{
  shape_at, core, Inv, mode_at-shape, set_submode_at-HasShape,
}

pub length-shapes :
    {sh : List Shape} (fs : List UsbGadgetFunction) → map shape_of fs ≡ sh → length fs ≡ length sh
length-shapes fs e = sym (length-map fs shape_of) ∙ ap length e

module _ {W : Type 0} where
  pub set_current_led-core :
      (mode : LedMode) (d : Daemon W) → core (set_current_led mode d) ≡ core d
  unfolding set_current_led
  set_current_led-core mode d = refl

  pub turn_off_all_leds-core : (d : Daemon W) → core (turn_off_all_leds d) ≡ core d
  unfolding turn_off_all_leds
  turn_off_all_leds-core d = refl

  pub display_mode_state-core : (d : Daemon W) → core (display_mode_state d) ≡ core d
  unfolding display_mode_state set_current_led turn_off_all_leds
  display_mode_state-core d = ground arith

module _ {W : Type 0} {sh : List Shape} where
  pub set_current_mode-Inv :
      (i : ℕ) (d : Daemon W)
      → i < length sh
      → Inv sh (core d)
      → Inv sh (core (set_current_mode i d))
  unfolding set_current_mode
  set_current_mode-Inv i d l h = record {
    shape = h.shape;
    current_in = l;
    good = h.good;
    pending = h.pending;
    flag = ap (λ s. is_rndis s.0) (mode_at-shape i d h.shape);
  }

  pub set_submode_at-Inv :
      (i n : ℕ) (d : Daemon W)
      → n ≤ (shape_at sh i).1
      → Inv sh (core d)
      → Inv sh (core (set_submode_at i n d))
  set_submode_at-Inv i n d l h = record {
    shape = set_submode_at-HasShape i n d l h.shape;
    current_in = h.current_in;
    good = h.good;
    pending = h.pending;
    flag = h.flag;
  }

  pub if_pair-Inv :
      {R : Type 0} (b : Bool) (x y : Daemon W × R)
      → Inv sh (core x.0)
      → Inv sh (core y.0)
      → Inv sh (core (if b then x else y).0)
  if_pair-Inv true x y hx hy = hx
  if_pair-Inv false x y hx hy = hy

  pub if_Inv :
      (b : Bool) (x y : Daemon W)
      → (b ≡ true → Inv sh (core x))
      → (b ≡ false → Inv sh (core y))
      → Inv sh (core (if b then x else y))
  if_Inv true x y hx hy = hx refl
  if_Inv false x y hx hy = hy refl
