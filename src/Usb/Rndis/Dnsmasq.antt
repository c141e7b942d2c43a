-- ===== src/Usb/Rndis/Dnsmasq.antt =====
-- core/usb/rndis.go: the dnsmasq server of the gateway submode.
use wifi_stick_usb_switcher.Prelude.{
  ℕ, zero, suc, Bool, false, List, [], ◌∷◌, ◌++◌, Option, none, some, ◌==◌, if◌then◌else◌,
}
use wifi_stick_usb_switcher.Prelude.Int.{pos, negsuc}
use wifi_stick_usb_switcher.Prelude.Text.{Bytes, codes, trim_space}
use wifi_stick_usb_switcher.Prelude.Decimal.{atoi, itoa}
use wifi_stick_usb_switcher.Prelude.Search.{contains}
use wifi_stick_usb_switcher.Usb.Network.{Addr, v4, other, dhcp_pool, show_addr}
use wifi_stick_usb_switcher.Usb.Rndis.{UsbGadgetRndis, Host, run}

unfoldable pub dnsmasq_pid_file : UsbGadgetRndis → Bytes
dnsmasq_pid_file d = codes "/tmp/dnsmasq-" ++ (d.ifname ++ codes ".pid")

unfoldable pub dnsmasq_lease_file : UsbGadgetRndis → Bytes
dnsmasq_lease_file d = codes "/tmp/dnsmasq-" ++ (d.ifname ++ codes ".leases")

-- The command line that starts the server, for a pool from `start` to `end`.
unfoldable pub dnsmasq_command : UsbGadgetRndis → Addr → Addr → Addr → List Bytes
dnsmasq_command d router start end =
    (codes "dnsmasq"
      ∷ codes "--conf-file=/dev/null"
      ∷ (codes "--dhcp-range=" ++ (show_addr start ++ (b',' ∷ show_addr end ++ codes ",12h")))
      ∷ (codes "--dhcp-option=option:router," ++ show_addr router)
      ∷ codes "--port=0"
      ∷ codes "--no-resolv"
      ∷ codes "--no-hosts"
      ∷ [])
    ++ (d.dnsmasq_args
        ++ ((codes "--interface=" ++ d.ifname)
            ∷ codes "--bind-interfaces"
            ∷ (codes "--pid-file=" ++ dnsmasq_pid_file d)
            ∷ (codes "--dhcp-leasefile=" ++ dnsmasq_lease_file d)
            ∷ []))

module _ {W : Type 0} (host : Host W) where
  abbrev pub cmdline_file : ℕ → Bytes
  cmdline_file pid = codes "/proc/" ++ (itoa pid ++ codes "/cmdline")

  abbrev pub pid_matches : Bytes → Option Bytes → Bool
  pid_matches pid_file none = false
  pid_matches pid_file (some cmdline) = contains (codes "--pid-file=" ++ pid_file) cmdline

  -- 0 where the file names no server that this program started.
  unfoldable pub read_dnsmasq_pid : Bytes → W → ℕ
  read_dnsmasq_pid pid_file w = elim (host.read_file pid_file w) [
    | none ↦ 0
    | some text ↦ elim (atoi (trim_space text)) [
      | none ↦ 0
      | some (negsuc n) ↦ 0
      | some (pos zero) ↦ 0
      | some (pos (suc n)) ↦
          if pid_matches pid_file (host.read_file (cmdline_file (suc n)) w) then suc n else 0
    ]
  ]

  unfoldable pub start_dnsmasq : UsbGadgetRndis → W → W
  start_dnsmasq d w =
      if read_dnsmasq_pid (dnsmasq_pid_file d) w == 0
      then elim d.ip_addr [
        | other ↦ w
        | v4 router bits ↦ elim (dhcp_pool (v4 router bits)) [
          | none ↦ w
          | some pool ↦ run host (dnsmasq_command d router pool.0 pool.1) w
        ]
      ]
      else w

  -- A server that cannot be signalled keeps its file.
  unfoldable pub stop_dnsmasq : Bytes → W → W
  stop_dnsmasq pid_file w =
      let pid = read_dnsmasq_pid pid_file w in
      let (failed, w') = host.kill pid w in
      if pid == 0 then w else if failed then w' else host.remove_file pid_file w'

  unfoldable pub stop_each : List Bytes → W → W
  stop_each [] w = w
  stop_each (pid_file ∷ rest) w = stop_each rest (stop_dnsmasq pid_file w)

  unfoldable pub stop_dnsmasq_all : W → W
  stop_dnsmasq_all w = stop_each (host.pid_files w) w
