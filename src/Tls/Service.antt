-- ===== src/Tls/Service.antt =====
-- core/daemon/tls_service.go, handle_ask and handle_generate: the answers of the two endpoints.
pub mod Gates
use wifi_stick_usb_switcher.Prelude.{
  ℕ, Bool, true, false, not, ◌&&◌, ◌||◌, List, [], ◌∷◌, Option, none, some, if◌then◌else◌,
}
use wifi_stick_usb_switcher.Prelude.Result.{Result, ok, err}
use wifi_stick_usb_switcher.Prelude.Text.{Bytes, bytes_eq, trim_space}
use wifi_stick_usb_switcher.Tls.Names.{Netip, valid_certificate_name}
use wifi_stick_usb_switcher.Tls.Filter.{Rule, configured, allows}

-- The daemon as the service sees it: the mode, and the addresses of the RNDIS interface.
pub record Gate (A : Type 0) : Type 0 where
  pub is_current_rndis_mode : Bool
  pub rndis_owns_ip : A → Bool

pub record Request : Type 0 where
  pub is_get : Bool
  pub domain : Bytes
  pub local_ip : Bytes
  pub server_name : Bytes
  pub signature_schemes : Bytes

pub data Status : Type 0 where
  status_ok bad_request forbidden method_not_allowed internal_server_error : Status

-- `rndis_ifname` and `iface_owns_ip`: the interface is that of the first RNDIS mode.
pub record Interface (A : Type 0) : Type 0 where
  pub is_up : Bool
  pub addrs : List (Option A)

module _ {A : Type 0} (same : A → A → Bool) where
  unfoldable pub owns : List (Option A) → A → Bool
  owns [] ip = false
  owns (none ∷ rest) ip = owns rest ip
  owns (some a ∷ rest) ip = same a ip || owns rest ip

  unfoldable pub iface_owns_ip : (Bytes → Option (Interface A)) → Bytes → A → Bool
  iface_owns_ip interface_by_name ifname ip =
      if bytes_eq ifname []
      then false
      else elim (interface_by_name ifname) [ none ↦ false | some i ↦ i.is_up && owns i.addrs ip ]

module _ {A P : Type 0} (net : Netip A P) (gate : Gate A) (rules : List (Rule P)) where
  abbrev pub owns_option : Option A → Bool
  owns_option none = false
  owns_option (some ip) = gate.rndis_owns_ip ip

  unfoldable pub handle_ask : Request → Status
  handle_ask r =
      let domain = trim_space r.domain in
      if not r.is_get
      then method_not_allowed
      else if bytes_eq domain []
      then bad_request
      else if not gate.is_current_rndis_mode
      then forbidden
      else if not (valid_certificate_name net domain)
      then bad_request
      else if configured net rules
      then if not (allows net rules domain) then forbidden else status_ok
      else if not (owns_option (net.parse_addr domain))
      then forbidden
      else status_ok

  abbrev pub owns_or_name : Option A → Bool
  owns_or_name none = true
  owns_or_name (some ip) = gate.rndis_owns_ip ip

  abbrev pub requested : A → Bytes → Bytes
  requested local_ip server_name =
      if bytes_eq server_name [] then net.show_addr local_ip else server_name

  -- The tests up to the issue, for a local address: an error, or the name to issue for.
  unfoldable pub check_generate : A → Request → Result Status Bytes
  check_generate local_ip r =
      let name = requested local_ip r.server_name in
      if not gate.is_current_rndis_mode
      then err forbidden
      else if not (bytes_eq (trim_space name) name) || not (valid_certificate_name net name)
      then err bad_request
      else if configured net rules
      then if not (allows net rules name) then err forbidden else ok name
      else if not (gate.rndis_owns_ip local_ip)
      then err forbidden
      else if not (owns_or_name (net.parse_addr name))
      then err forbidden
      else ok name

  abbrev pub check_local : Option A → Request → Result Status Bytes
  check_local none r = err bad_request
  check_local (some local_ip) r = check_generate local_ip r

  -- The name that a certificate is issued for, or the status that refuses it.
  unfoldable pub handle_generate : Request → Result Status Bytes
  handle_generate r =
      if not r.is_get
      then err method_not_allowed
      else check_local (net.parse_addr (trim_space r.local_ip)) r
