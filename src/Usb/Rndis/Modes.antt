-- ===== src/Usb/Rndis/Modes.antt =====
-- core/usb/rndis.go, enable: the network side of the RNDIS function once the gadget is bound, as
-- gateway of the USB host (submode 0) or as client of its network (submode 1).
pub mod Ends
pub mod Runs
pub mod Settles
pub mod Submodes
use wifi_stick_usb_switcher.Prelude.{
  ℕ, zero, suc, ◌+◌, ◌*◌, ◌%◌, Bool, true, false, List, [], ◌∷◌, ◌++◌, Option, none, some, ◌==◌,
  leb, ltb, not, ◌&&◌, if◌then◌else◌,
}
use wifi_stick_usb_switcher.Prelude.Text.{Bytes, codes, bytes_eq}
use wifi_stick_usb_switcher.Prelude.Decimal.{itoa}
use wifi_stick_usb_switcher.Prelude.Search.{contains}
use wifi_stick_usb_switcher.Usb.Network.{
  Addr, masked, mask_to_prefix, calc_client_ip, show_addr, from4, as4, dns_query,
}
use wifi_stick_usb_switcher.Usb.Resolv.{Files, apply_dns, restore_dns}
use wifi_stick_usb_switcher.Usb.Rndis.{
  UsbGadgetRndis, Host, World, with_outside, with_files, RndisError, no_interface, no_such_submode,
  mask_not_contiguous, prefix_too_small, address_refused, crashed, run, add_iface_addr, ip_flush,
  default_route,
}
use wifi_stick_usb_switcher.Usb.Rndis.Dnsmasq.{start_dnsmasq, stop_dnsmasq_all}
use wifi_stick_usb_switcher.Usb.Rndis.Probe
use wifi_stick_usb_switcher.Usb.Rndis.Probe.{Probe, lease, failed, probe_upstream_dhcp_with_retry}

abbrev pub ics_gateway : Addr
ics_gateway = from4 (192 ∷ 168 ∷ 137 ∷ 1 ∷ [])

abbrev pub show_client : Option Addr → Bytes
show_client none = codes "invalid IP"
show_client (some a) = show_addr a

-- The error of the method (`none` is nil), the function and the world after it.
abbrev pub Outcome : Type 0 → Type 0
Outcome W = Option RndisError × UsbGadgetRndis × World W

module _ {W : Type 0} (host : Host W) where
  unfoldable pub enable_gateway_mode : Bytes → UsbGadgetRndis → World W → Outcome W
  enable_gateway_mode ifname d w =
      let out1 = run host (ip_flush host "route" ifname) w.outside in
      let out2 = run host (ip_flush host "addr" ifname) out1 in
      let (refused, out3) = add_iface_addr host ifname d.ip_text out2 in
      (none, d, record { outside = start_dnsmasq host d out3; files = restore_dns w.files })

  unfoldable pub fallback_to_gateway_mode : UsbGadgetRndis → World W → Outcome W
  fallback_to_gateway_mode d w = enable_gateway_mode d.ifname (record d { submode = 0 }) w

  -- Replaces the temporary address by that of `spec`, and sends everything to `router`.
  unfoldable pub take_lease :
      Bytes → Bytes → Addr → List Addr → World W → Option RndisError × World W
  take_lease ifname spec router dns w =
      let out1 = run host (ip_flush host "addr" ifname) w.outside in
      let (refused, out2) = add_iface_addr host ifname spec out1 in
      let out3 = run host (default_route host (show_addr router) ifname) out2 in
      if refused
      then (some (address_refused spec), with_outside w out2)
      else (none, record { outside = out3; files = apply_dns dns router w.files })

  unfoldable pub apply_dhcp_lease :
      Bytes → Addr → Addr → List Addr → UsbGadgetRndis → World W → Option RndisError × World W
  apply_dhcp_lease ifname subnet router dns d w = elim (mask_to_prefix subnet) [
    | none ↦ (some (mask_not_contiguous subnet), w)
    | some prefix ↦
        let ip = calc_client_ip (masked router prefix) prefix d.client_ip in
        if leb 30 prefix
        then (some (prefix_too_small prefix), w)
        else take_lease ifname (show_client ip ++ (b'/' ∷ itoa prefix)) router dns w
  ]

  unfoldable pub enable_ics_static_mode : Bytes → UsbGadgetRndis → World W → Outcome W
  enable_ics_static_mode ifname d w =
      let ip = from4 (192 ∷ 168 ∷ 137 ∷ d.client_ip % 256 ∷ []) in
      let spec = show_addr ip ++ codes "/24" in
      let out1 = run host (ip_flush host "addr" ifname) w.outside in
      let (refused, out2) = add_iface_addr host ifname spec out1 in
      let (answered, out3) =
        host.query ics_gateway d.ics_timeout (dns_query (codes "dns.msftncsi.com")) out2 in
      let out4 = run host (default_route host (show_addr ics_gateway) ifname) out3 in
      if refused
      then fallback_to_gateway_mode d (with_outside w out2)
      else if answered
      then (none, d, record { outside = out4; files = apply_dns [] ics_gateway w.files })
      else fallback_to_gateway_mode d (with_outside w out3)

  abbrev pub unless_leased : Bytes → UsbGadgetRndis → Option RndisError × World W → Outcome W
  unless_leased ifname d (none, w) = (none, d, w)
  unless_leased ifname d (some e, w) = enable_ics_static_mode ifname d w

  -- What the client submode makes of the probe.
  unfoldable pub after_probe : Bytes → UsbGadgetRndis → Probe → World W → Outcome W
  after_probe ifname d Probe.crashed w = (some crashed, d, w)
  after_probe ifname d failed w = enable_ics_static_mode ifname d w
  after_probe ifname d (lease subnet router dns) w =
      unless_leased ifname d (apply_dhcp_lease ifname subnet router dns d w)

  unfoldable pub enable_client_mode : Bytes → UsbGadgetRndis → World W → Option (Outcome W)
  enable_client_mode ifname d w =
      let out1 = stop_dnsmasq_all host w.outside in
      let (refused, out2) = add_iface_addr host ifname d.ip_text out1 in
      elim (probe_upstream_dhcp_with_retry host ifname d out2) [
        | none ↦ none
        | some found ↦ some (after_probe ifname d found.0 (with_outside w found.1))
      ]

  abbrev pub resolved : Bytes → W → Bytes
  resolved ifname w = if bytes_eq (host.resolve_ifname w) [] then ifname else host.resolve_ifname w

  -- Waits for the interface, whose name the kernel may have chosen; the first component is whether it
  -- was found. `none` is a loop that has not ended after that many rounds.
  unfoldable pub wait_interface : ℕ → ℕ → Bytes → W → Option (Bool × Bytes × W)
  wait_interface zero deadline ifname w = none
  wait_interface (suc rounds) deadline ifname w =
      let name = resolved ifname w in
      let later = wait_interface rounds deadline name (host.sleep 50 w) in
      if host.interface_exists ifname w
      then some (true, ifname, w)
      else if ltb deadline (host.now w)
      then some (false, name, w)
      else later

  abbrev pub nm_state : Bytes → List Bytes
  nm_state ifname =
      codes "nmcli"
      ∷ codes "-t"
      ∷ codes "-f"
      ∷ codes "GENERAL.STATE"
      ∷ codes "device"
      ∷ codes "show"
      ∷ ifname
      ∷ []

  abbrev pub reload : List Bytes
  reload = codes "sh" ∷ codes "-c" ∷ codes "kill -HUP $(pgrep -x NetworkManager) 2>/dev/null" ∷ []

  unfoldable pub unmanage_rounds : ℕ → Bytes → W → W
  unmanage_rounds zero ifname w =
      run host
        (codes "nmcli" ∷ codes "device" ∷ codes "set" ∷ ifname ∷ codes "managed" ∷ codes "no" ∷ [])
        w
  unmanage_rounds (suc rounds) ifname w =
      let (silent, out, w1) = host.command (nm_state ifname) w in
      let later = unmanage_rounds rounds ifname (host.sleep 500 (run host reload w1)) in
      if silent then w1 else if contains (codes "unmanaged") out then w1 else later

  abbrev pub unmanaged_conf : Bytes → Bytes
  unmanaged_conf ifname =
      codes "[device]\nmatch-device=interface-name:" ++ (ifname ++ codes "\nmanaged=0\n")

  unfoldable pub unmanage_from_network_manager : Bytes → W → W
  unmanage_from_network_manager ifname w =
      let (unmade, w1) = host.make_dirs (codes "/etc/NetworkManager/conf.d") w in
      let (unwritten, w2) =
        host.write_file (codes "/etc/NetworkManager/conf.d/miruku-wifi-stick-usb-switcher.conf")
          (unmanaged_conf ifname) w1 in
      let asked = unmanage_rounds 6 ifname (run host reload w2) in
      if not (host.file_exists (codes "/etc/NetworkManager") w)
      then w
      else if unmade
      then w1
      else if unwritten
      then w2
      else asked

  abbrev pub link_up : Bytes → List Bytes
  link_up ifname = codes "ip" ∷ codes "link" ∷ codes "set" ∷ ifname ∷ codes "up" ∷ []

  -- The switch on the submode.
  abbrev pub enable_submode : ℕ → Bytes → UsbGadgetRndis → World W → Option (Outcome W)
  enable_submode zero ifname d w = some (enable_gateway_mode ifname d w)
  enable_submode (suc zero) ifname d w = enable_client_mode ifname d w
  enable_submode n ifname d w = some (some (no_such_submode n), d, w)

  unfoldable pub enable_found : Bytes → UsbGadgetRndis → World W → Option (Outcome W)
  enable_found ifname d w =
      let out1 = unmanage_from_network_manager ifname w.outside in
      let out2 = run host (link_up ifname) out1 in
      enable_submode d.submode ifname (record d { ifname = ifname }) (with_outside w out2)

  abbrev pub enable_waited : UsbGadgetRndis → Files → Option (Bool × Bytes × W) → Option (Outcome W)
  enable_waited d fs none = none
  enable_waited d fs (some (true, ifname, out)) =
      enable_found ifname d (record { outside = out; files = fs })
  enable_waited d fs (some (false, ifname, out)) =
      some (some (no_interface ifname), d, record { outside = out; files = fs })

  -- The wait is 5 seconds long in rounds of 50 milliseconds.
  unfoldable pub enable : UsbGadgetRndis → World W → Option (Outcome W)
  enable d w =
      enable_waited d w.files (wait_interface 102 (host.now w.outside + 5000) d.ifname w.outside)
