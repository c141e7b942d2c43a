-- ===== src/Ipc/Refused.antt =====
-- core/daemonipc: the error packages of the daemon, and the sending of a package.
use wifi_stick_usb_switcher.Prelude.{List, Option, none, some, ◌≡◌, refl, ap}
use wifi_stick_usb_switcher.Prelude.Int.{ℤ}
use wifi_stick_usb_switcher.Prelude.Result.{Result, ok, err}
use wifi_stick_usb_switcher.Prelude.Text.{Bytes}
use wifi_stick_usb_switcher.Ipc.Core.{
  Kind, Value, Package, IpcHandlerStatus, payload_struct_not_found, invalid_payload,
  invalid_handler, invalid_handler_result, register_handler, register_handler_replace,
  get_payload_struct_by_handler, fall_back, HandleError, Registry,
}
use wifi_stick_usb_switcher.Ipc.Sending.{unknown_struct, check_data, send_encoded, send_package}
use wifi_stick_usb_switcher.Ipc.Server.{
  DaemonInterface, server_fallback, server_hooks, init_server, init_client,
  package_internal_server_error, package_invalid_payload,
}

module _ {W : Type 0} (daemon : DaemonInterface W)
    (parse_data : List Kind → Bytes → Result Bytes (List Value))
    (payload2json : List Value → Result Bytes Bytes) where
  -- The registry of the daemon's process, with the structs of the client's framework.
  abbrev pub both : Registry W
  both = init_server daemon (init_client (λ t. none)).structs

  -- The daemon's fallback gives a package for every failed request, but the package is never sent:
  -- whatever its payload is encoded to, its type has no struct in the process.
  pub fall_back-IsRefused :
      (e : HandleError) (s : IpcHandlerStatus) (cause : Option Bytes) (t : ℤ) (d : Bytes)
      → (p : Package) × (fall_back server_hooks e s cause t d ≡ ok (some p))
        × ((data_ : Bytes)
            → payload2json p.payload ≡ ok data_
            → send_package parse_data payload2json both p ≡ err unknown_struct)
  unfolding fall_back server_fallback send_package check_data init_server init_client
      register_handler register_handler_replace get_payload_struct_by_handler
  fall_back-IsRefused e payload_struct_not_found cause t d =
      (_, refl, λ x h. ap (send_encoded parse_data both package_internal_server_error) h)
  fall_back-IsRefused e invalid_payload cause t d =
      (_, refl, λ x h. ap (send_encoded parse_data both package_invalid_payload) h)
  fall_back-IsRefused e invalid_handler cause t d =
      (_, refl, λ x h. ap (send_encoded parse_data both package_internal_server_error) h)
  fall_back-IsRefused e invalid_handler_result cause t d =
      (_, refl, λ x h. ap (send_encoded parse_data both package_internal_server_error) h)
