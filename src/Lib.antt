-- ===== src/Lib.antt =====
-- wifi-stick-usb-switcher: the daemon that switches the USB gadget of a WiFi stick.
--
-- One button and a control socket select a mode (a USB function, rndis or adb) and a submode of it.
-- The main loop of core/daemon/daemon.go takes events from the button (core/input), answers gadget
-- requests, and starts goroutines that apply a mode through the USB controller (core/usb). An apply
-- has two phases: the gadget is rebuilt, and after a delay it is bound and its function enabled. An
-- apply that fails is rolled back to the last mode that worked. LEDs (core/led) show the mode.
--
-- Prelude    numbers, integers, bytes, lists, results, decimal text.
-- Led        Led.Mode is core/led/mode.go, Led.Interpreter is core/led/interpreter.go. The LED's
--            files are the parameter LedDriver.
-- Input      Input.Device is core/input/handler.go: key presses, timers, injected events, State and
--            Close. Input.Drain is its DrainEvents.
-- Usb        Usb.Function is the object that all functions share and the two constructors of
--            core/usb/rndis.go and core/usb/adb.go. Usb.Controller is core/usb/controller.go. What
--            touches configfs, the UDC, processes or the network is the parameter Driver. Usb.Methods
--            fills its four methods of a function with those of the program, which stand on Usb.Rndis
--            and Usb.Adb and on the parameter Ctx for core/usb/gadget/c.go. Usb.Network
--            is the IPv4 arithmetic of core/usb/rndis.go, Usb.Resolv its handling of resolv.conf, and
--            Usb.Rndis its enable, with the commands, files and clock as the parameter Host. Usb.Adb is
--            core/usb/adb.go: Identity and Envs what adbd runs with, Effect its launch.
-- Daemon     core/daemon/daemon.go: Daemon.Spec is parse_gadget_spec; Daemon.State the struct;
--            Daemon.Leds what the LEDs show; Daemon.Apply apply_function, finish_apply, failure and
--            rollback; Daemon.Requests handle_gadget_request and SimulateButton; Daemon.Events
--            handle_events; Daemon.System the main loop with its goroutines, as steps and runs.
-- Base       core/base: files below a fixed path, and the check of a path. Led.Device is core/led/led.go
--            on top of it; the file system is a parameter of both.
-- Tls        Tls.Names and Tls.Filter are the names of core/daemon/tls_service.go and
--            core/daemon/domain_filter.go; Tls.Service the tests of the two HTTP endpoints, Tls.Leaf the
--            choice of a key, the validity and the cache. net/netip is the parameter Netip; a generated
--            certificate is an argument.
-- Ipc        core/daemonipc: Ipc.Core and Ipc.Sending are core.go, Ipc.Server the handlers of server.go
--            and client.go. The handlers of one framework and the structs of the process are one
--            registry; reflection and JSON are parameters.
-- Tests      concrete data.
--
-- A lock or the main loop makes each method one step. A goroutine of an apply is two steps, its start
-- and its work, or one for the second phase, and any order of the steps of the goroutines and of the
-- loop is a run. Within one of these steps nothing else happens. The clock's reading is an argument.
-- Instants and durations are integers in nanoseconds. A function object is an index into the list of
-- the modes, so that the daemon and the controller share it. A panic is a value: the controller or an
-- apply recovers it where the code does, and else the process is dead.
--
-- Loops that poll with a deadline are on fuel. The one for the removal of the gadget sleeps 20 ms and
-- gives up after two seconds, so a hundred polls are enough. In Usb.Rndis and Usb.Adb running out of
-- fuel is the answer `none`. There the interface has 102 rounds of 50 ms for 5 seconds, and the
-- carrier and the DHCP probe one round for each millisecond of their budget; each sleeps between
-- rounds, so that fuel is enough. adbd has 101 rounds for 2 seconds: the tick of number k comes no
-- earlier than 20 k ms after the start of the ticker. Writes to resolv.conf and its backup succeed in
-- the model; the code only logs their errors.
--
-- Not modelled: the system calls behind the parameters, the opening and reading of the input node, the
-- daemon's argument checks, the timers that only wake the main loop, the loop and the transports of
-- IPC, D-Bus, the keys, certificates and HTTP of the TLS service, how configfs is written behind Ctx,
-- the command line and the tools.
pub mod Prelude
pub mod Base
pub mod Led
pub mod Input
pub mod Usb
pub mod Daemon
pub mod Tls
pub mod Ipc
mod Tests
