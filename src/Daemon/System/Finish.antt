-- ===== src/Daemon/System/Finish.antt =====
-- The second phase of an apply, on every answer of the driver.
use wifi_stick_usb_switcher.Prelude.{false}
use wifi_stick_usb_switcher.Usb.Controller.{Driver}
use wifi_stick_usb_switcher.Daemon.State.{Daemon}
use wifi_stick_usb_switcher.Daemon.Apply.{enable_gadget, finish_apply}
use wifi_stick_usb_switcher.Daemon.Apply.Endings.{Ends, conclude_enable-Ends}

-- Where the gadget is enabled, the pending target becomes the last good mode, with the system as the
-- call left it. Else the last good mode stays, and it is restored: it is the current mode again, its
-- last good submode was selected, and the rebuild of the gadget with only its function and its
-- enabling left the system without an error; or the error is shown with all LEDs off, and no rollback
-- is allowed, the last good mode does not exist, or one of these calls failed; or a panic of the
-- rollback ends the process. The mode switch is released in all cases but the panic.
pub finish_apply-Ends :
    {W : Type 0} (driver : Driver W) (d : Daemon W)
    → let (enabled, o) = enable_gadget driver d in
      Ends driver false d.pending_apply enabled o (finish_apply driver d)
unfolding finish_apply
finish_apply-Ends driver d = conclude_enable-Ends driver d.pending_apply (enable_gadget driver d)
