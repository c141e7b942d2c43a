-- ===== src/Tests/Turns.antt =====
-- The theorems on requests and on the shutdown test.
use wifi_stick_usb_switcher.Prelude.{ℕ, true, false, ◌==◌, [], ◌∷◌, some, ◌≡◌, refl}
use wifi_stick_usb_switcher.Prelude.Int.{pos}
use wifi_stick_usb_switcher.Prelude.Text.{Bytes}
use wifi_stick_usb_switcher.Daemon.State.{Daemon, mode_at, set_current_mode}
use wifi_stick_usb_switcher.Daemon.Apply.{begin_apply}
use wifi_stick_usb_switcher.Daemon.System.Lost.{select-select-begin_apply}
use wifi_stick_usb_switcher.Daemon.Requests.{select, handle_gadget_request}
use wifi_stick_usb_switcher.Daemon.System.Requests.{Answers, handle_gadget_request-Answers}
use wifi_stick_usb_switcher.Tests.Data.{daemon}

abbrev request : Bytes
request = b'r' ∷ b'.' ∷ b'2' ∷ []

handle_gadget_request-Answers_example :
    Answers request daemon (handle_gadget_request request daemon)
handle_gadget_request-Answers_example = handle_gadget_request-Answers request daemon

abbrev holding : Daemon ℕ
holding = record daemon {
  input_device = record daemon.input_device { pressed = true; press_start = some (pos 10) };
}

other_submode : ((mode_at 0 (select 0 2 daemon)).submode == 1) ≡ false
unfolding select set_current_mode
other_submode = refl

select-select-begin_apply_example :
    ((select 0 2 daemon).current_mode ≡ 0)
    × ((begin_apply (select 0 1 (select 0 2 daemon))).1.submode_only ≡ true)
select-select-begin_apply_example = select-select-begin_apply 0 2 1 daemon refl other_submode
