-- ===== src/Ipc/Server.antt =====
-- core/daemonipc/server.go, client.go and shared.go: the handlers of the daemon and of its client.
-- The structs of both stand in one registry of the process: transport_ipc.go sets up both frameworks
-- in either program.
use wifi_stick_usb_switcher.Prelude.{
  ℕ, suc, Bool, true, false, List, [], ◌∷◌, ◌++◌, Option, none, some, ◌==◌, if◌then◌else◌,
}
use wifi_stick_usb_switcher.Prelude.Int.{ℤ, pos, negsuc}
use wifi_stick_usb_switcher.Prelude.Result.{Result, ok, err}
use wifi_stick_usb_switcher.Prelude.Text.{Bytes, codes}
use wifi_stick_usb_switcher.Prelude.Decimal.{itoa}
use wifi_stick_usb_switcher.Ipc.Core.{
  Kind, uint8, int, string, bool, Value, number, integer, text, flag, Package, IpcHandlerStatus,
  payload_struct_not_found, invalid_payload, Called, panicked, no_results, results, framework,
  Handler, function, Registry, register_handler, Hooks,
}

abbrev pub package_internal_server_error : ℤ
package_internal_server_error = pos 1

abbrev pub package_invalid_payload : ℤ
package_invalid_payload = pos 3

abbrev pub package_toggle_led : ℤ
package_toggle_led = pos 1024

abbrev pub package_toggle_led_resp : ℤ
package_toggle_led_resp = pos 1025

abbrev pub package_simulate_button : ℤ
package_simulate_button = pos 1026

abbrev pub package_simulate_button_resp : ℤ
package_simulate_button_resp = pos 1027

abbrev pub package_gadget : ℤ
package_gadget = pos 1028

abbrev pub package_gadget_resp : ℤ
package_gadget_resp = pos 1029

abbrev pub package_status : ℤ
package_status = pos 1030

abbrev pub package_status_resp : ℤ
package_status_resp = pos 1031

-- `daemonInterface`.
pub record DaemonInterface (W : Type 0) : Type 0 where
  pub get_turn_off_leds : W → Bool
  pub set_turn_off_leds : Bool → W → W
  pub simulate_button : ℕ → ℤ → W → Option Bytes × W
  pub request_gadget : Bytes → W → Result Bytes Bytes × W
  pub request_status : W → Bytes × W

unfoldable pub simulate_button_action_name : ℕ → Bytes
simulate_button_action_name target =
    if target == 0
    then codes "tap"
    else if target == 1
    then codes "long"
    else if target == 2
    then codes "shutdown"
    else if target == 3
    then codes "multi"
    else codes "unknown"

-- The verb `%d`.
abbrev show_int : ℤ → Bytes
show_int (pos n) = itoa n
show_int (negsuc n) = codes "-" ++ itoa (suc n)

abbrev error_text : Option Bytes → Bytes
error_text none = []
error_text (some e) = e

abbrev pub one_text : ℤ → Bytes → Package
one_text t line = record { package_type = t; payload = text line ∷ [] }

abbrev for_package : Bytes → ℤ → Bytes → Bytes
for_package start t data_ = start ++ show_int t ++ codes "`, payload: " ++ data_

unfoldable pub server_fallback :
    IpcHandlerStatus → Option Bytes → ℤ → Bytes → Option Package × Option Bytes
server_fallback payload_struct_not_found cause t data_ = (
  some (
      one_text package_internal_server_error
        (for_package (codes "no such payload struct for package `") t data_)),
  none,
)
server_fallback invalid_payload cause t data_ =
    (some (one_text package_invalid_payload (error_text cause)), none)
server_fallback _ cause t data_ = (
  some (
      one_text package_internal_server_error
        (for_package (codes "invalid handler (or its result) for package `") t data_)),
  none,
)

abbrev pub server_hooks : Hooks
server_hooks = record { fallback = some server_fallback; pre_package = none; post_package = none }

abbrev pub handler_of : {W : Type 0} → List Kind → (List Value → W → Called × W) → Handler W
handler_of kinds call_ = function (record { first = framework; metas = some kinds; call = call_ })

module _ {W : Type 0} (daemon : DaemonInterface W) where
  abbrev reply : ℤ → List Value → Called
  reply t values = results (some (record { package_type = t; payload = values })) none

  abbrev switch_leds : ℕ → W → W
  switch_leds target w =
      if target == 1
      then daemon.set_turn_off_leds true w
      else if target == 2
      then daemon.set_turn_off_leds false w
      else w

  -- A call with values of other types panics.
  unfoldable pub toggle_led : List Value → W → Called × W
  toggle_led (number target ∷ []) w =
      let after = switch_leds target w in
      (reply package_toggle_led_resp (flag (daemon.get_turn_off_leds after) ∷ []), after)
  toggle_led _ w = (panicked, w)

  abbrev gadget_line : Result Bytes Bytes → Bytes
  gadget_line (ok line) = line
  gadget_line (err e) = codes "error: " ++ e

  unfoldable pub gadget : List Value → W → Called × W
  gadget (text spec ∷ []) w =
      let (answer, after) = daemon.request_gadget spec w in
      (reply package_gadget_resp (text (gadget_line answer) ∷ []), after)
  gadget _ w = (panicked, w)

  unfoldable pub status : List Value → W → Called × W
  status (text _ ∷ []) w =
      let (line, after) = daemon.request_status w in
      (reply package_status_resp (text line ∷ []), after)
  status _ w = (panicked, w)

  abbrev button_line : ℕ → Option Bytes → Bytes
  button_line target none = simulate_button_action_name target
  button_line target (some e) = codes "error: " ++ e

  unfoldable pub simulate_button : List Value → W → Called × W
  simulate_button (number target ∷ integer count ∷ []) w =
      let (failure, after) = daemon.simulate_button target count w in
      (reply package_simulate_button_resp (text (button_line target failure) ∷ []), after)
  simulate_button _ w = (panicked, w)

  -- The results of the registrations are dropped.
  unfoldable pub init_server : (ℤ → Option (List Kind)) → Registry W
  init_server structs_ =
      let empty : Registry W = record { handlers = λ t. none; structs = structs_ } in
      let (_, led) =
        register_handler package_toggle_led (handler_of (uint8 ∷ []) toggle_led) empty in
      let (_, two) = register_handler package_gadget (handler_of (string ∷ []) gadget) led in
      let (_, three) = register_handler package_status (handler_of (string ∷ []) status) two in
      let (_, four) =
        register_handler package_simulate_button (handler_of (uint8 ∷ int ∷ []) simulate_button)
          three in
      four

-- The client's handlers send lines on a channel, here a list.
abbrev channel_send : Bytes → List Bytes → Called × List Bytes
channel_send line lines = (no_results, lines ++ (line ∷ []))

unfoldable pub led_resp : List Value → List Bytes → Called × List Bytes
led_resp (flag off ∷ []) lines =
    channel_send (if off then codes "led: off" else codes "led: on") lines
led_resp _ lines = (panicked, lines)

unfoldable pub text_resp : Bytes → List Value → List Bytes → Called × List Bytes
text_resp start (text line ∷ []) lines = channel_send (start ++ line) lines
text_resp start _ lines = (panicked, lines)

unfoldable pub init_client : (ℤ → Option (List Kind)) → Registry (List Bytes)
init_client structs_ =
    let empty : Registry (List Bytes) = record { handlers = λ t. none; structs = structs_ } in
    let (_, led) =
      register_handler package_toggle_led_resp (handler_of (bool ∷ []) led_resp) empty in
    let (_, two) =
      register_handler package_status_resp (handler_of (string ∷ []) (text_resp (codes "status: ")))
        led in
    let (_, three) =
      register_handler package_gadget_resp (handler_of (string ∷ []) (text_resp (codes "gadget: ")))
        two in
    let (_, four) =
      register_handler package_simulate_button_resp
        (handler_of (string ∷ []) (text_resp (codes "button: "))) three in
    four
