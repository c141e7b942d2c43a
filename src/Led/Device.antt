-- ===== src/Led/Device.antt =====
-- core/led/led.go: an LED's files and what the object keeps of them.
pub mod Triggers
pub mod Updates
use wifi_stick_usb_switcher.Prelude.{
  ℕ, ◌-◌, ◌^◌, Bool, true, false, not, ◌||◌, List, [], ◌∷◌, ◌++◌, Option, none, some, ◌==◌, leb,
  if◌then◌else◌,
}
use wifi_stick_usb_switcher.Prelude.Int.{pos, negsuc}
use wifi_stick_usb_switcher.Prelude.Result.{Result, ok, err}
use wifi_stick_usb_switcher.Prelude.Text.{Bytes, codes, bytes_eq}
use wifi_stick_usb_switcher.Prelude.Decimal.{atoi, itoa}
use wifi_stick_usb_switcher.Base.Subpath.{Files, SubpathError, read_subpath, write_subpath}

pub data LedError : Type 0 where
  bad_file : SubpathError → LedError
  duplicate_active : Bytes → Bytes → LedError
  not_a_number out_of_range : LedError
  empty_trigger unknown_trigger not_updated : LedError

pub record Led : Type 0 where
  pub active_trigger : Bytes
  pub available_triggers : List Bytes
  pub brightness : ℕ
  pub max_brightness : ℕ

-- The loop of parse_triggers; `word` is `trigger_byte`.
unfoldable pub parse_loop :
    Bytes → List Bytes → Bytes → Bytes → Result LedError (Bytes × List Bytes)
parse_loop active available word [] =
    if bytes_eq word [] then ok (active, available) else ok (active, available ++ (word ∷ []))
parse_loop active available word (c ∷ cs) =
    let same = parse_loop active available word cs in
    let ended = parse_loop active (available ++ (word ∷ [])) [] cs in
    let active_ended = parse_loop word (available ++ (word ∷ [])) [] cs in
    let longer = parse_loop active available (word ++ (c ∷ [])) cs in
    if c == b'['
    then same
    else if c == b']'
    then if bytes_eq word []
      then same
      else if bytes_eq active []
      then active_ended
      else err (duplicate_active active word)
    else if c == b' '
    then if bytes_eq word [] then same else ended
    else longer

unfoldable pub parse_triggers : Bytes → Result LedError (Bytes × List Bytes)
parse_triggers triggers = parse_loop [] [] [] triggers

abbrev pub max_uint32 : ℕ
max_uint32 = 2 ^ 32 - 1

abbrev pub bind {ℓ κ} :
    {E : Type 0} {A : Type ℓ} {B : Type κ} → Result E A → (A → Result E B) → Result E B
bind (ok a) f = f a
bind (err e) f = err e

abbrev pub readable : {A : Type 0} → Result SubpathError A → Result LedError A
readable (ok a) = ok a
readable (err e) = err (bad_file e)

-- A number read from a file.
unfoldable pub brightness_value : Bytes → Result LedError ℕ
brightness_value text = elim (atoi text) [
  | none ↦ err not_a_number
  | some (negsuc n) ↦ err out_of_range
  | some (pos n) ↦ if leb n max_uint32 then ok n else err out_of_range
]

unfoldable pub is_available : Bytes → List Bytes → Bool
is_available trigger [] = false
is_available trigger (t ∷ rest) = bytes_eq t trigger || is_available trigger rest

module _ {W : Type 0} (files : Files W) (max_filesize : ℕ) where
  unfoldable pub load_available_triggers : W → Result LedError (Bytes × List Bytes)
  load_available_triggers w =
      bind (readable (read_subpath files max_filesize (codes "trigger") false w)) parse_triggers

  unfoldable pub parse_brightness : Bytes → W → Result LedError ℕ
  parse_brightness subpath w =
      bind (readable (read_subpath files max_filesize subpath false w)) brightness_value

  unfoldable pub load_brightness : W → Result LedError (ℕ × ℕ)
  load_brightness w =
      bind (parse_brightness (codes "brightness") w)
        (λ now. bind (parse_brightness (codes "max_brightness") w) (λ top. ok (now, top)))

  abbrev pub with_triggers : Led → Bytes × List Bytes → Led
  with_triggers led (active, available) = record led {
    active_trigger = active;
    available_triggers = available;
  }

  abbrev pub with_brightness : Led → ℕ × ℕ → Led
  with_brightness led (now, top) = record led { brightness = now; max_brightness = top }

  -- Nothing is stored unless all files can be read.
  unfoldable pub update_attr : Led → W → Result LedError Led
  update_attr led w = bind (load_available_triggers w) (λ triggers.
      bind (load_brightness w) (λ values. ok (with_brightness (with_triggers led triggers) values)))

  abbrev Answer : Type 0
  Answer = Option LedError × Led × W

  abbrev pub after_trigger : Led → Bytes → W → Result LedError (Bytes × List Bytes) → Answer
  after_trigger led trigger w (err e) = (some e, led, w)
  after_trigger led trigger w (ok (active, available)) =
      if bytes_eq active trigger
      then (none, with_triggers led (active, available), w)
      else (some not_updated, led, w)

  abbrev pub trigger_written : Led → Bytes → Option SubpathError × W → Answer
  trigger_written led trigger (some e, w) = (some (bad_file e), led, w)
  trigger_written led trigger (none, w) = after_trigger led trigger w (load_available_triggers w)

  abbrev pub trigger_checked : Led → Bytes → W → Result LedError Led → Answer
  trigger_checked led trigger w (err e) = (some e, led, w)
  trigger_checked led trigger w (ok led') =
      if bytes_eq trigger []
      then (some empty_trigger, led', w)
      else if not (is_available trigger led'.available_triggers)
      then (some unknown_trigger, led', w)
      else trigger_written led' trigger
          (write_subpath files (codes "trigger") true (trigger ++ (b'\n' ∷ [])) w)

  unfoldable pub set_trigger : Led → Bytes → W → Answer
  set_trigger led trigger w = trigger_checked led trigger w (update_attr led w)

  abbrev pub after_brightness : Led → ℕ → W → Result LedError (ℕ × ℕ) → Answer
  after_brightness led brightness w (err e) = (some e, led, w)
  after_brightness led brightness w (ok (now, top)) =
      if now == brightness
      then (none, with_brightness led (now, top), w)
      else (some not_updated, led, w)

  abbrev pub brightness_written : Led → ℕ → Option SubpathError × W → Answer
  brightness_written led brightness (some e, w) = (some (bad_file e), led, w)
  brightness_written led brightness (none, w) =
      after_brightness led brightness w (load_brightness w)

  unfoldable pub set_brightness : Led → ℕ → W → Answer
  set_brightness led brightness w =
      brightness_written led brightness
        (write_subpath files (codes "brightness") true (itoa brightness ++ (b'\n' ∷ [])) w)

  abbrev pub got_trigger : Led → Result LedError (Bytes × List Bytes) → Result LedError Bytes × Led
  got_trigger led (err e) = (err e, led)
  got_trigger led (ok (active, available)) = (ok active, with_triggers led (active, available))

  unfoldable pub get_trigger : Led → W → Result LedError Bytes × Led
  get_trigger led w = got_trigger led (load_available_triggers w)

  abbrev pub got_brightness : Led → Result LedError (ℕ × ℕ) → Result LedError ℕ × Led
  got_brightness led (err e) = (err e, led)
  got_brightness led (ok (now, top)) = (ok now, with_brightness led (now, top))

  unfoldable pub get_brightness : Led → W → Result LedError ℕ × Led
  get_brightness led w = got_brightness led (load_brightness w)
