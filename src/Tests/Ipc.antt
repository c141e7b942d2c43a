-- ===== src/Tests/Ipc.antt =====
-- The theorems on the IPC framework, with a daemon whose state is whether the LEDs are off.
use mathlib.Core.Path.{subst}
use wifi_stick_usb_switcher.Prelude.{
  Bool, true, false, List, [], ◌∷◌, none, some, ◌≡◌, refl, ap, if◌then◌else◌,
}
use wifi_stick_usb_switcher.Prelude.Int.{pos}
use wifi_stick_usb_switcher.Prelude.Result.{Result, ok, err}
use wifi_stick_usb_switcher.Prelude.Text.{Bytes, codes}
use wifi_stick_usb_switcher.Ipc.Core.{
  Kind, uint8, Value, number, Package, invalid_payload, Registry, register_handler,
  register_handler_replace, get_payload_struct_by_handler, fall_back, no_payload_struct,
  handle_request,
}
use wifi_stick_usb_switcher.Ipc.Sending.{unknown_struct, send_package}
use wifi_stick_usb_switcher.Ipc.Server.{
  DaemonInterface, handler_of, toggle_led, server_hooks, init_server, package_toggle_led,
}
use wifi_stick_usb_switcher.Ipc.Registering.{IsRegistered, register_handler-IsRegistered}
use wifi_stick_usb_switcher.Ipc.Answers.{fits_kinds, handle_request-IsAnswered}
use wifi_stick_usb_switcher.Ipc.Refused.{both, fall_back-IsRefused}

abbrev leds : DaemonInterface Bool
leds = record {
  get_turn_off_leds = λ off. off;
  set_turn_off_leds = λ off w. off;
  simulate_button = λ target count w. (none, w);
  request_gadget = λ spec w. (ok spec, w);
  request_status = λ w. (codes "running", w);
}

abbrev empty : Registry Bool
empty = record { handlers = λ t. none; structs = λ t. none }

abbrev one_handler : Registry Bool
one_handler =
    (register_handler package_toggle_led (handler_of (uint8 ∷ []) (toggle_led leds)) empty).1

register_handler-IsRegistered_example :
    IsRegistered package_toggle_led (handler_of (uint8 ∷ []) (toggle_led leds)) empty one_handler
unfolding register_handler register_handler_replace get_payload_struct_by_handler
register_handler-IsRegistered_example =
    register_handler-IsRegistered package_toggle_led (handler_of (uint8 ∷ []) (toggle_led leds))
      empty one_handler refl

-- Reads the number 1 where that fits.
abbrev read_one : List Kind → Bytes → Result Bytes (List Value)
read_one metas d =
    if fits_kinds metas (number 1 ∷ []) then ok (number 1 ∷ []) else err (codes "unreadable")

read_lem :
    (metas : List Kind) (values : List Value) (fits : Bool)
    → fits_kinds metas (number 1 ∷ []) ≡ fits
    → (if fits then ok (number 1 ∷ []) else err (codes "unreadable")) ≡ ok values
    → fits_kinds metas values ≡ true
read_lem metas values true f e =
    subst (λ l. fits_kinds metas l ≡ true) (ap (λ r. elim r [ ok l ↦ l | err x ↦ [] ]) e) f
read_lem metas values false f e = absurd cc

read_one-fits_kinds :
    (metas : List Kind) (d : Bytes) (values : List Value)
    → read_one metas d ≡ ok values
    → fits_kinds metas values ≡ true
read_one-fits_kinds metas d values e =
    read_lem metas values (fits_kinds metas (number 1 ∷ [])) refl e

abbrev written : List Value → Result Bytes Bytes
written values = ok (1 ∷ [])

handle_request-IsAnswered_example :
    (p : Package) × ((handle_request read_one server_hooks
        (init_server leds (λ t. none))
        package_toggle_led
        (1 ∷ [])
        false).0
      ≡ ok (some p))
handle_request-IsAnswered_example =
    handle_request-IsAnswered leds (λ t. none) read_one read_one-fits_kinds package_toggle_led
      (1 ∷ []) false

fall_back-IsRefused_example :
    (p : Package) × (fall_back server_hooks no_payload_struct invalid_payload none (pos 7) (1 ∷ [])
      ≡ ok (some p))
    × ((data_ : Bytes)
        → written p.payload ≡ ok data_
        → send_package read_one written (both leds read_one written) p ≡ err unknown_struct)
fall_back-IsRefused_example =
    fall_back-IsRefused leds read_one written no_payload_struct invalid_payload none (pos 7)
      (1 ∷ [])
