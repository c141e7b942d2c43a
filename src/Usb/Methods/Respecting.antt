-- ===== src/Usb/Methods/Respecting.antt =====
-- core/usb: the program's methods keep the kind and the bound of a function, and set no submode that
-- it does not have.
use wifi_stick_usb_switcher.Prelude.{ℕ, Option, none, some, ◌≡◌, inl, inr, refl, arith}
use wifi_stick_usb_switcher.Usb.Rndis.{Host}
use wifi_stick_usb_switcher.Usb.Rndis.Modes
use wifi_stick_usb_switcher.Usb.Rndis.Modes.Submodes.{IsKept, enable-IsKept}
use wifi_stick_usb_switcher.Usb.Adb.Effect.{AdbHost}
use wifi_stick_usb_switcher.Usb.Function.{Kind, rndis, adb, UsbGadgetFunction}
use wifi_stick_usb_switcher.Usb.Controller.{Driver}
use wifi_stick_usb_switcher.Usb.Controller.Shape.{shape_of, IsLegal, DriverRespects}
use wifi_stick_usb_switcher.Usb.Methods.{
  Ctx, Settings, Machine, parse_qmult, add_with, add_of, add, effect, remove, enabled, enable_of,
  enable, program_driver,
}

module _ {W : Type 0} (ctx : Ctx W) (host : Host W) (adb_host : AdbHost W)
    (settings : Settings) where
  -- The function `g` after a method on `f`.
  abbrev Keeps : UsbGadgetFunction → UsbGadgetFunction → Type 0
  Keeps f g = (shape_of g ≡ shape_of f) × (IsLegal f → IsLegal g)

  add_with-Keeps :
      (f g : UsbGadgetFunction) (m : Machine W) (q : Option ℕ)
      → Keeps f g
      → Keeps f (add_with ctx host adb_host settings g m q).1
  add_with-Keeps f g m none h = h
  add_with-Keeps f g m (some q) h = h

  add_of-Keeps :
      (k : Kind) (f : UsbGadgetFunction) (m : Machine W)
      → Keeps f (add_of ctx host adb_host settings k f m).1
  add_of-Keeps rndis f m = add_with-Keeps f _ m (parse_qmult settings.qmult) (refl, λ l. l)
  add_of-Keeps adb f m = (refl, λ l. l)

  enabled-Keeps :
      (f : UsbGadgetFunction) (m : Machine W) (o : Option (Modes.Outcome W))
      → IsKept f.submode o
      → Keeps f (enabled ctx host adb_host settings f m o).1
  enabled-Keeps f m none h = (refl, λ l. l)
  enabled-Keeps f m (some (e, d, w)) (inl same) = (refl, λ l. omega arith)
  enabled-Keeps f m (some (e, d, w)) (inr zero_) = (refl, λ l. omega arith)

  enable_of-Keeps :
      (k : Kind) (f : UsbGadgetFunction) (m : Machine W)
      → Keeps f (enable_of ctx host adb_host settings k f m).1
  enable_of-Keeps rndis f m = enabled-Keeps f m _ (enable-IsKept host _ _)
  enable_of-Keeps adb f m = (refl, λ l. l)

  pub program_driver-Respects :
      (base : Driver (Machine W)) → DriverRespects (program_driver ctx host adb_host settings base)
  unfolding program_driver add effect remove enable
  program_driver-Respects base = record {
    add_respects = record {
      keeps_shape = λ f m. (add_of-Keeps f.kind f m).0;
      keeps_legal = λ f m. (add_of-Keeps f.kind f m).1;
    };
    effect_respects = record { keeps_shape = λ f m. refl; keeps_legal = λ f m l. l };
    remove_respects = record { keeps_shape = λ f m. refl; keeps_legal = λ f m l. l };
    enable_respects = record {
      keeps_shape = λ f m. (enable_of-Keeps f.kind f m).0;
      keeps_legal = λ f m. (enable_of-Keeps f.kind f m).1;
    };
  }
