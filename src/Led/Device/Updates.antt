-- ===== src/Led/Device/Updates.antt =====
-- core/led/led.go, set_trigger and set_brightness: a write is reported as done only where the file
-- shows it.
use wifi_stick_usb_switcher.Prelude.{
  ℕ, true, List, [], ◌∷◌, ◌++◌, Option, none, some, ◌≡◌, ◌⊎◌, inl, inr, refl, ◌==◌, ==_iff,
  Bool-cases,
}
use wifi_stick_usb_switcher.Prelude.Result.{Result, ok, err}
use wifi_stick_usb_switcher.Prelude.Text.{Bytes, codes, bytes_eq, bytes_eq_iff}
use wifi_stick_usb_switcher.Prelude.Decimal.{itoa}
use wifi_stick_usb_switcher.Base.Subpath.{Files, SubpathError, write_subpath}
use wifi_stick_usb_switcher.Led.Device.{
  Led, LedError, bad_file, empty_trigger, unknown_trigger, not_updated, is_available,
  load_available_triggers, load_brightness, update_attr, after_trigger, trigger_written,
  trigger_checked, set_trigger, after_brightness, brightness_written, set_brightness,
}

module _ {W : Type 0} (files : Files W) (max_filesize : ℕ) where
  -- The trigger is the active one in the file and in the object, and the object's list is the file's.
  abbrev pub Shows : Bytes → Option LedError × Led × W → Type 0
  Shows trigger (e, led, w) =
      (e ≡ none)
      × (led.active_trigger ≡ trigger)
      × (load_available_triggers files max_filesize w
          ≡ ok (led.active_trigger, led.available_triggers))

  -- An error, and an object that is as before or as its files were at the start.
  abbrev pub Refuses : Led → W → Option LedError × Led × W → Type 0
  Refuses led w (e, led', w') =
      (x : LedError) × (e ≡ some x)
      × ((led' ≡ led) ⊎ (update_attr files max_filesize led w ≡ ok led'))

  module _ (led0 led : Led) (w0 : W) (trigger : Bytes)
      (now : (led ≡ led0) ⊎ (update_attr files max_filesize led0 w0 ≡ ok led)) where
    abbrev Ends : Option LedError × Led × W → Type 0
    Ends o = Shows trigger o ⊎ Refuses led0 w0 o

    refused : (e : LedError) (w : W) → Ends (some e, led, w)
    refused e w = inr (e, refl, now)

    after_trigger_lem :
        (w : W) (r : Result LedError (Bytes × List Bytes))
        → load_available_triggers files max_filesize w ≡ r
        → Ends (after_trigger files max_filesize led trigger w r)
    after_trigger_lem w (err e) p = refused e w
    after_trigger_lem w (ok (active, available)) p = elim (Bool-cases (bytes_eq active trigger)) [
      | inl e ↦ rw e (inl (refl, (bytes_eq_iff active trigger).0 e, p))
      | inr e ↦ rw e (refused not_updated w)
    ]

    trigger_written_lem :
        (r : Option SubpathError × W) → Ends (trigger_written files max_filesize led trigger r)
    trigger_written_lem (some e, w) = refused (bad_file e) w
    trigger_written_lem (none, w) =
        after_trigger_lem w (load_available_triggers files max_filesize w) refl

  -- set_trigger without an error leaves the trigger active in the file and in the object, with the
  -- list of triggers that the file shows. With an error the object is as it was, or as its files were
  -- when the call began.
  pub set_trigger-Shows :
      (led : Led) (trigger : Bytes) (w : W)
      → Shows trigger (set_trigger files max_filesize led trigger w)
        ⊎ Refuses led w (set_trigger files max_filesize led trigger w)
  unfolding set_trigger
  set_trigger-Shows led trigger w = checked (update_attr files max_filesize led w) refl
    where
      checked :
          (r : Result LedError Led)
          → update_attr files max_filesize led w ≡ r
          → Shows trigger (trigger_checked files max_filesize led trigger w r)
            ⊎ Refuses led w (trigger_checked files max_filesize led trigger w r)
      checked (err e) p = inr (e, refl, inl refl)
      checked (ok led') p = elim (Bool-cases (bytes_eq trigger [])) [
        | inl e ↦ rw e (inr (empty_trigger, refl, inr p))
        | inr e ↦ elim (Bool-cases (is_available trigger led'.available_triggers)) [
          | inl there ↦
              rw (e, there)
                (trigger_written_lem led led' w trigger (inr p)
                  (write_subpath files (codes "trigger") true (trigger ++ (b'\n' ∷ [])) w))
          | inr gone ↦ rw (e, gone) (inr (unknown_trigger, refl, inr p))
        ]
      ]

  abbrev pub IsBright : ℕ → Option LedError × Led × W → Type 0
  IsBright brightness (e, led, w) =
      (e ≡ none)
      × (led.brightness ≡ brightness)
      × (load_brightness files max_filesize w ≡ ok (led.brightness, led.max_brightness))

  abbrev pub IsRefused : Led → Option LedError × Led × W → Type 0
  IsRefused led (e, led', w) = (x : LedError) × (e ≡ some x) × (led' ≡ led)

  after_brightness_lem :
      (led : Led) (brightness : ℕ) (w : W) (r : Result LedError (ℕ × ℕ))
      → load_brightness files max_filesize w ≡ r
      → IsBright brightness (after_brightness files max_filesize led brightness w r)
        ⊎ IsRefused led (after_brightness files max_filesize led brightness w r)
  after_brightness_lem led brightness w (err e) p = inr (e, refl, refl)
  after_brightness_lem led brightness w (ok (now, top)) p = elim (Bool-cases (now == brightness)) [
    | inl e ↦ rw e (inl (refl, (==_iff now brightness).0 e, p))
    | inr e ↦ rw e (inr (not_updated, refl, refl))
  ]

  -- set_brightness without an error leaves the brightness in the file and in the object, with the
  -- maximum that the files show; with an error the object is as it was.
  pub set_brightness-IsBright :
      (led : Led) (brightness : ℕ) (w : W)
      → IsBright brightness (set_brightness files max_filesize led brightness w)
        ⊎ IsRefused led (set_brightness files max_filesize led brightness w)
  unfolding set_brightness
  set_brightness-IsBright led brightness w =
      written (write_subpath files (codes "brightness") true (itoa brightness ++ (b'\n' ∷ [])) w)
    where
      written :
          (r : Option SubpathError × W)
          → IsBright brightness (brightness_written files max_filesize led brightness r)
            ⊎ IsRefused led (brightness_written files max_filesize led brightness r)
      written (some e, w) = inr (bad_file e, refl, refl)
      written (none, w) =
          after_brightness_lem led brightness w (load_brightness files max_filesize w) refl
