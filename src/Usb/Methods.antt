-- ===== src/Usb/Methods.antt =====
-- core/usb/rndis.go and adb.go: the methods `add`, `effect`, `remove` and `enable` that the controller
-- calls through the interface `UsbGadgetFunction`. The methods of `*gadget.Ctx` are the parameter
-- `Ctx`; the settings are what the command line gives to every mode of a kind.
pub mod Respecting
use wifi_stick_usb_switcher.Prelude.{
  ℕ, ◌-◌, ◌^◌, Bool, true, false, List, [], ◌∷◌, Option, none, some, leb, if◌then◌else◌,
}
use wifi_stick_usb_switcher.Prelude.Text.{Bytes, codes, bytes_eq}
use wifi_stick_usb_switcher.Prelude.Decimal.{unsigned_value}
use wifi_stick_usb_switcher.Usb.Resolv.{Files}
use wifi_stick_usb_switcher.Usb.Rndis
use wifi_stick_usb_switcher.Usb.Rndis.{UsbGadgetRndis, Host, RndisError, crashed}
use wifi_stick_usb_switcher.Usb.Rndis.Dnsmasq.{stop_dnsmasq_all}
use wifi_stick_usb_switcher.Usb.Rndis.Modes
use wifi_stick_usb_switcher.Usb.Adb.Effect
use wifi_stick_usb_switcher.Usb.Adb.Effect.{UsbGadgetAdb, AdbHost, EffectError}
use wifi_stick_usb_switcher.Usb.Function.{Kind, rndis, adb, UsbGadgetFunction}
use wifi_stick_usb_switcher.Usb.Controller.{Outcome, succeeds, fails, panics, Method, Driver}

-- A Boolean answer is true where the call fails.
pub record Ctx (W : Type 0) : Type 0 where
  -- The instance, the interface's name and qmult; the two MAC addresses never change.
  pub add_rndis : Bytes → Bytes → ℕ → W → Bool × W
  pub add_ffs : Bytes → W → Bool × W
  pub set_gadget_attrs : List ℕ → W → Bool × W
  pub set_strs : Bytes → Bytes → Bytes → W → Bool × W
  pub set_config_name : Bytes → W → Bool × W
  pub write_config_max_power : ℕ → W → Bool × W
  pub set_os_desc : ℕ → Bytes → W → Bool × W
  pub set_function_os_desc : Bytes → Bytes → Bytes → Bytes → W → Bool × W

-- The settings of a kind. The fields that a function object holds of its own, the submode, the
-- instance and the name of the interface, are overwritten by that object's.
pub record Settings : Type 0 where
  pub rndis_settings : UsbGadgetRndis
  pub qmult : Bytes
  pub serial_number : Bytes
  pub manufacturer : Bytes
  pub product : Bytes
  pub adb_settings : UsbGadgetAdb

-- The system with the resolver's files and the variable `adbd_process`.
pub record Machine (W : Type 0) : Type 0 where
  pub outside : W
  pub files : Files
  pub adbd_process : Option ℕ

-- `strconv.ParseUint(qmult, 10, 32)`, and 0 for an empty text.
unfoldable pub parse_qmult : Bytes → Option ℕ
parse_qmult [] = some 0
parse_qmult (c ∷ cs) = elim (unsigned_value 0 (c ∷ cs)) [
  | none ↦ none
  | some n ↦ if leb n (2 ^ 32 - 1) then some n else none
]

abbrev pub of_failed : Bool → Outcome
of_failed true = fails
of_failed false = succeeds

abbrev pub of_error : {E : Type 0} → Option E → Outcome
of_error none = succeeds
of_error (some e) = fails

abbrev pub of_rndis_error : Option RndisError → Outcome
of_rndis_error none = succeeds
of_rndis_error (some crashed) = panics
of_rndis_error (some _) = fails

module _ {W : Type 0} (ctx : Ctx W) (host : Host W) (adb_host : AdbHost W)
    (settings : Settings) where
  abbrev pub with_outside : Machine W → W → Machine W
  with_outside m out = record m { outside = out }

  abbrev pub added :
      Machine W → UsbGadgetFunction → Bool × W → Machine W × UsbGadgetFunction × Outcome
  added m f (failed, out) = (with_outside m out, f, of_failed failed)

  abbrev pub add_with :
      UsbGadgetFunction → Machine W → Option ℕ → Machine W × UsbGadgetFunction × Outcome
  add_with f m none = (m, f, fails)
  add_with f m (some qmult) = added m f (ctx.add_rndis f.instance_name f.ifname qmult m.outside)

  abbrev pub rndis_add : Method (Machine W)
  rndis_add f m =
      add_with (record f { instance_name = codes "rndis.1" }) m (parse_qmult settings.qmult)

  abbrev pub adb_add : Method (Machine W)
  adb_add f m =
      added m (record f { instance_name = codes "adb" }) (ctx.add_ffs (codes "adb") m.outside)

  abbrev pub add_of : Kind → Method (Machine W)
  add_of rndis f m = rndis_add f m
  add_of adb f m = adb_add f m

  unfoldable pub add : Method (Machine W)
  add f m = add_of f.kind f m

  -- Calls that end at the first error.
  unfoldable pub each : List (W → Bool × W) → W → Bool × W
  each [] w = (false, w)
  each (call_ ∷ rest) w =
      let (failed, w') = call_ w in
      let (later, w'') = each rest w' in if failed then (true, w') else (later, w'')

  abbrev pub rndis_attrs : Bytes → List (W → Bool × W)
  rndis_attrs instance_ =
      ctx.set_gadget_attrs (0x0200 ∷ 0x18d1 ∷ 0x4ee4 ∷ 0x0223 ∷ 0 ∷ 0 ∷ 0 ∷ [])
      ∷ ctx.set_strs settings.serial_number settings.manufacturer settings.product
      ∷ ctx.set_config_name (codes "RNDIS")
      ∷ ctx.write_config_max_power 500
      ∷ ctx.set_os_desc 0xcd (codes "MSFT100")
      ∷ ctx.set_function_os_desc instance_ (codes "rndis") (codes "RNDIS") (codes "5162001")
      ∷ []

  abbrev pub effected_rndis : Machine W → Bool × W → Machine W × Outcome
  effected_rndis m (true, out) = (with_outside m out, fails)
  effected_rndis m (false, out) = (with_outside m (stop_dnsmasq_all host out), succeeds)

  abbrev pub rndis_effect : UsbGadgetFunction → Machine W → Machine W × Outcome
  rndis_effect f m =
      if bytes_eq f.instance_name []
      then (m, fails)
      else effected_rndis m (each (rndis_attrs f.instance_name) m.outside)

  -- A loop that has not ended counts as an error: see Usb/Adb/Effect/Ends for why it does end.
  abbrev pub launched :
      Machine W → Option (Option EffectError × Effect.World W) → Machine W × Outcome
  launched m none = (m, fails)
  launched m (some (e, w)) =
      (record m { outside = w.outside; adbd_process = w.adbd_process }, of_error e)

  abbrev pub adb_effect : UsbGadgetFunction → Machine W → Machine W × Outcome
  adb_effect f m = launched m (
      Effect.effect adb_host (record settings.adb_settings { instance_name = f.instance_name })
        (record { adbd_process = m.adbd_process; outside = m.outside }))

  abbrev pub effect_of : Kind → UsbGadgetFunction → Machine W → Machine W × Outcome
  effect_of rndis f m = rndis_effect f m
  effect_of adb f m = adb_effect f m

  unfoldable pub effect : Method (Machine W)
  effect f m = let (m', outcome) = effect_of f.kind f m in (m', f, outcome)

  unfoldable pub remove : Method (Machine W)
  remove f m = (m, f, succeeds)

  -- The same of the loops of Usb/Rndis/Modes, which Usb/Rndis/Modes/Ends is about.
  abbrev pub enabled :
      UsbGadgetFunction
      → Machine W
      → Option (Modes.Outcome W)
      → Machine W × UsbGadgetFunction × Outcome
  enabled f m none = (m, f, fails)
  enabled f m (some (e, d, w)) = (
    record m { outside = w.outside; files = w.files },
    record f { submode = d.submode; ifname = d.ifname },
    of_rndis_error e,
  )

  abbrev pub rndis_enable : Method (Machine W)
  rndis_enable f m = enabled f m (
      Modes.enable host (record settings.rndis_settings { ifname = f.ifname; submode = f.submode })
        (record { outside = m.outside; files = m.files }))

  abbrev pub enable_of : Kind → Method (Machine W)
  enable_of rndis f m = rndis_enable f m
  enable_of adb f m = (m, f, succeeds)

  unfoldable pub enable : Method (Machine W)
  enable f m = enable_of f.kind f m

  -- A driver with the program's methods; its other calls are those of `base`.
  unfoldable pub program_driver : Driver (Machine W) → Driver (Machine W)
  program_driver base = record base { add = add; effect = effect; remove = remove; enable = enable }
