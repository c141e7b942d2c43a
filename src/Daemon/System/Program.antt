-- ===== src/Daemon/System/Program.antt =====
-- The invariant of the modes for the program itself, with its own RNDIS and ADB methods behind the
-- controller.
use wifi_stick_usb_switcher.Usb.Controller.Shape.{Shape}
use wifi_stick_usb_switcher.Daemon.System.{System}
