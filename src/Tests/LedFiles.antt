-- ===== src/Tests/LedFiles.antt =====
-- The theorems on an LED's files, on a file system that keeps the trigger and the brightness.
use wifi_stick_usb_switcher.Prelude.{[], ◌∷◌, none, ◌≡◌, ◌⊎◌, arith, if◌then◌else◌}
use wifi_stick_usb_switcher.Prelude.Result.{ok}
use wifi_stick_usb_switcher.Prelude.Text.{Bytes, codes, bytes_eq}
use wifi_stick_usb_switcher.Base.Subpath.{Files}
use wifi_stick_usb_switcher.Led.Device.{Led, parse_triggers, set_trigger, set_brightness}
use wifi_stick_usb_switcher.Led.Device.Triggers.{print_triggers, parse_triggers-print_triggers}
use wifi_stick_usb_switcher.Led.Device.Updates.{
  Shows, Refuses, set_trigger-Shows, IsBright, IsRefused, set_brightness-IsBright,
}

abbrev usb_gadget : Bytes
usb_gadget = codes "usb-gadget"

parse_triggers-print_triggers_example :
    parse_triggers (print_triggers (codes "none" ∷ []) usb_gadget (codes "timer" ∷ []))
    ≡ ok (usb_gadget, codes "none" ∷ usb_gadget ∷ codes "timer" ∷ [])
parse_triggers-print_triggers_example =
    (unfold bytes_eq in
      parse_triggers-print_triggers (codes "none" ∷ []) usb_gadget (codes "timer" ∷ [])
        (ground arith) (ground arith) (ground arith))

-- The content of the trigger file; the brightness is 255 always.
abbrev files : Files Bytes
files = record {
  read = λ path w. if bytes_eq path (codes "trigger") then ok w else ok (codes "255\n");
  stat = λ path w. none;
  write =
      λ path text w. (none, if bytes_eq path (codes "trigger") then codes "none [timer]\n" else w);
}

abbrev content : Bytes
content = codes "[none] timer\n"

abbrev led : Led
led = record {
  active_trigger = codes "none";
  available_triggers = [];
  brightness = 0;
  max_brightness = 255;
}

set_trigger-Shows_example :
    Shows files 1000 (codes "timer") (set_trigger files 1000 led (codes "timer") content)
    ⊎ Refuses files 1000 led content (set_trigger files 1000 led (codes "timer") content)
set_trigger-Shows_example = set_trigger-Shows files 1000 led (codes "timer") content

set_brightness-IsBright_example :
    IsBright files 1000 255 (set_brightness files 1000 led 255 content)
    ⊎ IsRefused files 1000 led (set_brightness files 1000 led 255 content)
set_brightness-IsBright_example = set_brightness-IsBright files 1000 led 255 content
