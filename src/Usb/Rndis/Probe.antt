-- ===== src/Usb/Rndis/Probe.antt =====
-- core/usb/rndis.go: the DHCP exchange by which the client submode learns its subnet.
pub mod Crash
pub mod Ends
use wifi_stick_usb_switcher.Prelude.{
  ℕ, zero, suc, ◌+◌, ◌-◌, Bool, true, false, List, [], ◌∷◌, ◌++◌, Option, none, some, leb, ltb,
  if◌then◌else◌,
}
use wifi_stick_usb_switcher.Prelude.Text.{Bytes, codes, bytes_eq, trim_space}
use wifi_stick_usb_switcher.Prelude.Search.{cut_prefix, split, fields_from}
use wifi_stick_usb_switcher.Usb.Network.{Addr}
use wifi_stick_usb_switcher.Usb.Rndis.{UsbGadgetRndis, Host, Ip, ip4, ip6}

pub data Probe : Type 0 where
  lease : Addr → Addr → List Addr → Probe
  failed crashed : Probe

-- What the loop over the lines has read so far; `none` is a nil IP.
pub record Scan : Type 0 where
  pub subnet : Option Ip
  pub router : Option Ip
  pub dns : List Addr

module _ {W : Type 0} (host : Host W) where
  -- `none` is the panic of converting the nil that `To4` gives for an IPv6 address.
  unfoldable pub read_servers : List Bytes → List Addr → Option (List Addr)
  read_servers [] dns = some dns
  read_servers (s ∷ rest) dns = elim (host.parse_ip s) [
    | none ↦ read_servers rest dns
    | some ip6 ↦ none
    | some (ip4 a) ↦ read_servers rest (dns ++ (a ∷ []))
  ]

  -- The cases of the switch on one line's prefix.
  unfoldable pub read_line : Bytes → Scan → Option Scan
  read_line line s = elim (cut_prefix (codes "RNDIS_SUBNET=") line) [
    | some text ↦ some (record s { subnet = host.parse_ip text })
    | none ↦ elim (cut_prefix (codes "RNDIS_ROUTER=") line) [
      | some text ↦ some (record s { router = host.parse_ip text })
      | none ↦ elim (cut_prefix (codes "RNDIS_DNS=") line) [
        | none ↦ some s
        | some text ↦ elim (read_servers (fields_from [] text) s.dns) [
          | none ↦ none
          | some dns ↦ some (record s { dns = dns })
        ]
      ]
    ]
  ]

  unfoldable pub read_lines : List Bytes → Scan → Option Scan
  read_lines [] s = some s
  read_lines (line ∷ rest) s = elim (read_line line s) [
    | none ↦ none
    | some s' ↦ read_lines rest s'
  ]

  abbrev pub finished : Option Ip → Option Ip → List Addr → Probe
  finished none router dns = failed
  finished (some subnet) none dns = failed
  finished (some ip6) (some router) dns = crashed
  finished (some (ip4 subnet)) (some ip6) dns = crashed
  finished (some (ip4 subnet)) (some (ip4 router)) dns = lease subnet router dns

  unfoldable pub parse_lease : Bytes → Probe
  parse_lease out =
      elim (read_lines (split b'\n' out) (record { subnet = none; router = none; dns = [] })) [
        | none ↦ crashed
        | some s ↦ finished s.subnet s.router s.dns
      ]

  abbrev pub script_file : UsbGadgetRndis → Bytes
  script_file d = codes "/tmp/rndis-udhcpc-" ++ (d.ifname ++ codes ".sh")

  -- The callback that udhcpc runs, less its comment line: it prints the subnet mask, the router and
  -- the servers.
  abbrev pub script_text : Bytes
  script_text =
      codes "#!/bin/sh\ncase \"$1\" in\n\tbound|renew)\n"
      ++ codes "\t\techo \"RNDIS_SUBNET=$subnet\"\n\t\techo \"RNDIS_ROUTER=$router\"\n"
      ++ codes "\t\techo \"RNDIS_DNS=$dns\"\n\t\t;;\nesac\n"

  abbrev pub udhcpc : Bytes → Bytes → List Bytes
  udhcpc ifname script =
      codes "udhcpc"
      ∷ codes "-i"
      ∷ ifname
      ∷ codes "-p"
      ∷ (codes "/tmp/rndis-udhcpc-" ++ (ifname ++ codes ".pid"))
      ∷ codes "-q"
      ∷ codes "-n"
      ∷ codes "-R"
      ∷ codes "-t"
      ∷ codes "3"
      ∷ codes "-T"
      ∷ codes "2"
      ∷ codes "-s"
      ∷ script
      ∷ []

  unfoldable pub probe_upstream_dhcp : Bytes → ℕ → UsbGadgetRndis → W → Probe × W
  probe_upstream_dhcp ifname timeout d w =
      let (unwritten, w1) = host.write_file (script_file d) script_text w in
      let (killed, out, w2) = host.command_within timeout (udhcpc ifname (script_file d)) w1 in
      let w3 = host.remove_file (script_file d) w2 in
      if unwritten then (failed, w1) else if killed then (failed, w3) else (parse_lease out, w3)

  abbrev pub carrier_file : Bytes → Bytes
  carrier_file ifname = codes "/sys/class/net/" ++ (ifname ++ codes "/carrier")

  abbrev pub is_up : Option Bytes → Bool
  is_up none = false
  is_up (some text) = bytes_eq (trim_space text) (codes "1")

  -- `none` is a loop that has not ended after that many rounds.
  unfoldable pub carrier_loop : ℕ → ℕ → Bytes → W → Option W
  carrier_loop zero deadline ifname w = none
  carrier_loop (suc rounds) deadline ifname w =
      let later = carrier_loop rounds deadline ifname (host.sleep 50 w) in
      if ltb (host.now w) deadline
      then if is_up (host.read_file (carrier_file ifname) w) then some w else later
      else some w

  unfoldable pub wait_rndis_carrier : Bytes → ℕ → W → Option W
  wait_rndis_carrier ifname timeout w = carrier_loop (suc timeout) (host.now w + timeout) ifname w

  abbrev pub unless_failed : Probe → W → Option (Probe × W) → Option (Probe × W)
  unless_failed failed w later = later
  unless_failed crashed w later = some (crashed, w)
  unless_failed (lease subnet router dns) w later = some (lease subnet router dns, w)

  unfoldable pub retry_loop : ℕ → ℕ → Bytes → UsbGadgetRndis → W → Option (Probe × W)
  retry_loop zero deadline ifname d w = none
  retry_loop (suc rounds) deadline ifname d w =
      let (probe, w') = probe_upstream_dhcp ifname (deadline - host.now w) d w in
      let later = retry_loop rounds deadline ifname d (host.sleep 1000 w') in
      unless_failed probe w'
        (if leb (deadline - host.now w') 7000 then some (failed, w') else later)

  unfoldable pub probe_upstream_dhcp_with_retry : Bytes → UsbGadgetRndis → W → Option (Probe × W)
  probe_upstream_dhcp_with_retry ifname d w = elim (wait_rndis_carrier ifname d.client_timeout w) [
    | none ↦ none
    | some w' ↦ retry_loop (suc d.client_timeout) (host.now w + d.client_timeout) ifname d w'
  ]
