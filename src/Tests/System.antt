-- ===== src/Tests/System.antt =====
-- The theorems on runs, from a daemon with a change of mode to make.
use wifi_stick_usb_switcher.Prelude.{ℕ, true, false, [], ◌∷◌, none, ◌≡◌, refl, inr}
use wifi_stick_usb_switcher.Prelude.Int.{pos}
use wifi_stick_usb_switcher.Usb.Controller.{Driver, succeeds, fails}
use wifi_stick_usb_switcher.Daemon.Leds.{set_current_led}
use wifi_stick_usb_switcher.Daemon.Apply.{
  begin_rebuild, begin_apply, work_apply, finish_apply, enable_gadget, handle_apply_failure,
}
use wifi_stick_usb_switcher.Daemon.Apply.Endings.{Ends, handle_apply_failure-Ends}
use wifi_stick_usb_switcher.Daemon.System.{
  starting, System, begin_task, leave, Run, still, next, began, worked,
}
use wifi_stick_usb_switcher.Daemon.System.Balance.{IsExclusive}
use wifi_stick_usb_switcher.Daemon.System.Exclusive.{Run-IsExclusive}
use wifi_stick_usb_switcher.Usb.Methods.{Ctx, Settings, Machine, program_driver}
use wifi_stick_usb_switcher.Tests.Rndis
use wifi_stick_usb_switcher.Tests.Adb
use wifi_stick_usb_switcher.Daemon.System.Finish.{finish_apply-Ends}
use wifi_stick_usb_switcher.Tests.Data.{driver, driver_on, daemon, daemon_on}

-- A switch that is taken, with a goroutine that is about to begin.
abbrev switching : System ℕ
switching = record {
  daemon = record daemon { mode_changing = true; mode_changed = false };
  tasks = starting ∷ [];
}

abbrev begun : System ℕ
begun = begin_task [] [] switching.daemon

abbrev rebuilt : System ℕ
rebuilt =
    leave [] [] (work_apply (driver succeeds) (pos 3) (begin_apply switching.daemon).1 begun.daemon)

alive : begun.daemon.crashed ≡ false
unfolding begin_apply begin_rebuild set_current_led
alive = refl

switch-Run : Run (driver succeeds) switching rebuilt
switch-Run = next switching begun rebuilt refl (began switching.daemon [] []) (
    next begun rebuilt rebuilt alive
      (worked (pos 3) (begin_apply switching.daemon).1 begun.daemon [] []) (still rebuilt))

switching-IsExclusive : IsExclusive switching
unfolding IsExclusive
switching-IsExclusive = inr refl

Run-IsExclusive_example : IsExclusive rebuilt
Run-IsExclusive_example =
    Run-IsExclusive (driver succeeds) switching rebuilt switching-IsExclusive switch-Run

abbrev ctx : Ctx ℕ
ctx = record {
  add_rndis = λ i n q w. (false, w);
  add_ffs = λ i w. (false, w);
  set_gadget_attrs = λ a w. (false, w);
  set_strs = λ s m p w. (false, w);
  set_config_name = λ n w. (false, w);
  write_config_max_power = λ n w. (false, w);
  set_os_desc = λ v s w. (false, w);
  set_function_os_desc = λ i n c s w. (false, w);
}

abbrev settings : Settings
settings = record {
  rndis_settings = Rndis.function;
  qmult = [];
  serial_number = [];
  manufacturer = [];
  product = [];
  adb_settings = Adb.function;
}

abbrev program : Driver (Machine ℕ)
program = program_driver ctx Rndis.host Adb.host settings (driver_on (λ m. m) succeeds)

abbrev machine : Machine ℕ
machine = record { outside = 0; files = Rndis.linked_files; adbd_process = none }

abbrev real : System (Machine ℕ)
real = record {
  daemon = record (daemon_on machine) { mode_changing = true; mode_changed = false };
  tasks = starting ∷ [];
}

abbrev real_begun : System (Machine ℕ)
real_begun = begin_task [] [] real.daemon

abbrev real_rebuilt : System (Machine ℕ)
real_rebuilt =
    leave [] [] (work_apply program (pos 3) (begin_apply real.daemon).1 real_begun.daemon)

finish_apply-Ends_example :
    let (enabled, o) = enable_gadget (driver fails) daemon in
    Ends (driver fails) false daemon.pending_apply enabled o (finish_apply (driver fails) daemon)
finish_apply-Ends_example = finish_apply-Ends (driver fails) daemon

handle_apply_failure-Ends_example :
    Ends
      (driver succeeds)
      false
      (record { mode = 1; submode = 0 })
      daemon
      fails
      (handle_apply_failure (driver succeeds) (record { mode = 1; submode = 0 }) false daemon)
handle_apply_failure-Ends_example =
    handle_apply_failure-Ends (driver succeeds) (record { mode = 1; submode = 0 }) false daemon
      fails (λ e. cc)
