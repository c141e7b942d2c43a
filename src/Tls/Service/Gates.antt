-- ===== src/Tls/Service/Gates.antt =====
-- core/daemon/tls_service.go: when the two endpoints agree to a name.
use wifi_stick_usb_switcher.Prelude.{
  Bool, true, false, not, ◌||◌, List, [], Option, none, some, ◌≡◌, ◌⊎◌, ◌↔◌, refl, arith,
  if◌then◌else◌,
}
use wifi_stick_usb_switcher.Prelude.Result.{Result, ok, err}
use wifi_stick_usb_switcher.Prelude.Text.{Bytes, bytes_eq, trim_space}
use wifi_stick_usb_switcher.Tls.Names.{Netip, valid_certificate_name}
use wifi_stick_usb_switcher.Tls.Filter.{Rule, configured, allows}
use wifi_stick_usb_switcher.Tls.Service.{
  Gate, Request, Status, status_ok, bad_request, forbidden, method_not_allowed, owns_option,
  handle_ask, owns_or_name, requested, check_generate, check_local, handle_generate,
}

module _ {A P : Type 0} (net : Netip A P) (gate : Gate A) (rules : List (Rule P)) where
  -- With a filter the name has to be allowed by it; without one it has to be an address of the stick.
  abbrev pub IsPermitted : Bytes → Type 0
  IsPermitted name =
      (configured net rules ≡ true) × (allows net rules name ≡ true)
      ⊎ ((configured net rules ≡ false) × (owns_option net gate rules (net.parse_addr name) ≡ true))

  abbrev pub IsAsked : Request → Type 0
  IsAsked r =
      (r.is_get ≡ true)
      × (bytes_eq (trim_space r.domain) [] ≡ false)
      × (gate.is_current_rndis_mode ≡ true)
      × (valid_certificate_name net (trim_space r.domain) ≡ true)
      × IsPermitted (trim_space r.domain)

  ask_lem :
      (get empty mode valid conf allowed owned : Bool)
      → ((if not get
            then method_not_allowed
            else if empty
            then bad_request
            else if not mode
            then forbidden
            else if not valid
            then bad_request
            else if conf
            then if not allowed then forbidden else status_ok
            else if not owned
            then forbidden
            else status_ok)
          ≡ status_ok)
        ↔ ((get ≡ true)
            × (empty ≡ false)
            × (mode ≡ true)
            × (valid ≡ true)
            × ((conf ≡ true) × (allowed ≡ true) ⊎ ((conf ≡ false) × (owned ≡ true))))
  ask_lem get empty mode valid conf allowed owned = ground arith

  -- The ask endpoint answers 200 exactly to a GET for a name that is not empty and valid, in RNDIS
  -- mode, and permitted: allowed by the filter where there is one, or else an address of the stick.
  pub handle_ask-IsAsked : (r : Request) → (handle_ask net gate rules r ≡ status_ok) ↔ IsAsked r
  unfolding handle_ask
  handle_ask-IsAsked r =
      ask_lem r.is_get (bytes_eq (trim_space r.domain) []) gate.is_current_rndis_mode
        (valid_certificate_name net (trim_space r.domain)) (configured net rules)
        (allows net rules (trim_space r.domain))
        (owns_option net gate rules (net.parse_addr (trim_space r.domain)))

  -- Without a filter the local address, and the name where it is an address, are the stick's.
  abbrev pub IsIssued : A → Bytes → Type 0
  IsIssued local_ip name =
      (gate.is_current_rndis_mode ≡ true)
      × (valid_certificate_name net name ≡ true)
      × (bytes_eq (trim_space name) name ≡ true)
      × ((configured net rules ≡ true) × (allows net rules name ≡ true)
          ⊎ ((configured net rules ≡ false)
              × (gate.rndis_owns_ip local_ip ≡ true)
              × (owns_or_name net gate rules (net.parse_addr name) ≡ true)))

  generate_lem :
      (name out : Bytes) (mode trimmed valid conf allowed local owned : Bool)
      → ((if not mode
            then err forbidden
            else if not trimmed || not valid
            then err bad_request
            else if conf
            then if not allowed then err forbidden else ok name
            else if not local
            then err forbidden
            else if not owned
            then err forbidden
            else ok name)
          ≡ ok out)
      → (name ≡ out)
        × (mode ≡ true)
        × (valid ≡ true)
        × (trimmed ≡ true)
        × ((conf ≡ true) × (allowed ≡ true) ⊎ ((conf ≡ false) × (local ≡ true) × (owned ≡ true)))
  generate_lem name out mode trimmed valid conf allowed local owned = ground arith

  check_lem :
      (local : Option A) (r : Request) (name : Bytes)
      → check_local net gate rules local r ≡ ok name
      → (local_ip : A) × (local ≡ some local_ip)
        × (requested net gate rules local_ip r.server_name ≡ name)
        × IsIssued local_ip name
  unfolding check_generate
  check_lem none r name e = absurd cc
  check_lem (some local_ip) r name e =
      let wanted = requested net gate rules local_ip r.server_name in
      let (same, mode, valid, trimmed, gate_) =
        generate_lem wanted name gate.is_current_rndis_mode (bytes_eq (trim_space wanted) wanted)
          (valid_certificate_name net wanted) (configured net rules) (allows net rules wanted)
          (gate.rndis_owns_ip local_ip) (owns_or_name net gate rules (net.parse_addr wanted)) e in
      let issued : IsIssued local_ip wanted = (mode, valid, trimmed, gate_) in
      (local_ip, refl, same, rw same at issued)

  -- A certificate is generated only for a GET with a local address, in RNDIS mode, for a valid name
  -- without blanks around it, which is the given server name or else the local address; and only if
  -- the filter allows the name, or, without a filter, if the local address is the stick's and the
  -- name is no address or one of the stick's.
  pub handle_generate-IsIssued :
      (r : Request) (name : Bytes)
      → handle_generate net gate rules r ≡ ok name
      → (r.is_get ≡ true)
        × ((local_ip : A) × (net.parse_addr (trim_space r.local_ip) ≡ some local_ip)
            × (requested net gate rules local_ip r.server_name ≡ name)
            × IsIssued local_ip name)
  unfolding handle_generate
  handle_generate-IsIssued r name e =
      let (get, tried) =
        got r.is_get (check_local net gate rules (net.parse_addr (trim_space r.local_ip)) r) name
          e in
      (get, check_lem (net.parse_addr (trim_space r.local_ip)) r name tried)
    where
      got :
          (get : Bool) (x : Result Status Bytes) (name : Bytes)
          → (if not get then err method_not_allowed else x) ≡ ok name
          → (get ≡ true) × (x ≡ ok name)
      got true x name e = (refl, e)
      got false x name e = absurd cc
