-- ===== src/Tests/Daemon.antt =====
-- The theorems on descriptions, turns and applies.
use wifi_stick_usb_switcher.Prelude.{[], ◌∷◌, ◌≡◌, refl, arith}
use wifi_stick_usb_switcher.Prelude.Text.{Bytes}
use wifi_stick_usb_switcher.Prelude.Result.{ok}
use wifi_stick_usb_switcher.Prelude.Decimal.{digits_value, unsigned_value, atoi, cut}
use wifi_stick_usb_switcher.Daemon.Spec.{
  checked_submode, split_spec, parse_gadget_spec, format_gadget_spec, parse-format, Describes,
  parse-Describes,
}

abbrev name : Bytes
name = b'a' ∷ b'd' ∷ b'b' ∷ []

parse-format_example : parse_gadget_spec (format_gadget_spec name 12) ≡ ok (name, 12)
parse-format_example =
    parse-format name 12 (λ e. cc)
      ((λ e. omega arith), ((λ e. omega arith), ((λ e. omega arith), tt))) (omega arith)

abbrev spec : Bytes
spec = b'a' ∷ b'd' ∷ b'b' ∷ b'.' ∷ b'0' ∷ b'7' ∷ []

spec_parsed : parse_gadget_spec spec ≡ ok (name, 7)
unfolding parse_gadget_spec split_spec checked_submode cut atoi unsigned_value digits_value
spec_parsed = refl

parse-Describes_example : Describes spec name 7
parse-Describes_example = parse-Describes spec name 7 spec_parsed
