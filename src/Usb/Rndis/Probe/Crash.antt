-- ===== src/Usb/Rndis/Probe/Crash.antt =====
-- core/usb/rndis.go: the one way in which the DHCP probe panics is what udhcpc printed.
use wifi_stick_usb_switcher.Prelude.{
  ℕ, suc, zero, ◌+◌, ◌-◌, Bool, true, false, none, some, Option, ◌≡◌, refl, leb, inl, inr,
  Option-cases, if◌then◌else◌,
}
use wifi_stick_usb_switcher.Prelude.Text.{Bytes}
use wifi_stick_usb_switcher.Usb.Rndis.{UsbGadgetRndis, Host}
use wifi_stick_usb_switcher.Usb.Rndis.Probe.{
  Probe, lease, failed, crashed, parse_lease, probe_upstream_dhcp, unless_failed, retry_loop,
  probe_upstream_dhcp_with_retry, wait_rndis_carrier, script_file, script_text, udhcpc,
}

-- A run of udhcpc for the interface that ended in time printed something whose reading panics.
abbrev pub IsPanicking : {W : Type 0} → Host W → Bytes → UsbGadgetRndis → Type 0
IsPanicking {W} host ifname d =
    (timeout : ℕ) × (w : W) × (let ran =
        host.command_within timeout (udhcpc host ifname (script_file host d)) w in
      (ran.0 ≡ false) × (parse_lease host ran.1 ≡ crashed))

module _ {W : Type 0} (host : Host W) (ifname : Bytes) (d : UsbGadgetRndis) where
  probed_lem :
      (unwritten killed : Bool) (p : Probe) (w w' : W)
      → (let x : Probe × W =
            if unwritten then (failed, w) else if killed then (failed, w') else (p, w') in
          x.0 ≡ crashed)
      → (killed ≡ false) × (p ≡ crashed)
  probed_lem true killed p w w' e = absurd cc
  probed_lem false true p w w' e = absurd cc
  probed_lem false false p w w' e = (refl, e)

  probe_upstream_dhcp_lem :
      (timeout : ℕ) (w : W)
      → (probe_upstream_dhcp host ifname timeout d w).0 ≡ crashed
      → IsPanicking host ifname d
  unfolding probe_upstream_dhcp
  probe_upstream_dhcp_lem timeout w e =
      let written = host.write_file (script_file host d) (script_text host) w in
      let ran = host.command_within timeout (udhcpc host ifname (script_file host d)) written.1 in
      (
        timeout,
        written.1,
        probed_lem written.0 ran.0 (parse_lease host ran.1) written.1
            (host.remove_file (script_file host d) ran.2) e,
      )

  -- A result, if there is one and it is a panic, has that reason.
  abbrev IsExplained : Option (Probe × W) → Type 0
  IsExplained none = Unit
  IsExplained (some (p, w)) = p ≡ crashed → IsPanicking host ifname d

  if_IsExplained :
      (b : Bool) (x y : Option (Probe × W))
      → IsExplained x
      → IsExplained y
      → IsExplained (if b then x else y)
  if_IsExplained true x y hx hy = hx
  if_IsExplained false x y hx hy = hy

  unless_failed-IsExplained :
      (p : Probe) (w : W) (x : Option (Probe × W))
      → (p ≡ crashed → IsPanicking host ifname d)
      → IsExplained x
      → IsExplained (unless_failed host p w x)
  unless_failed-IsExplained failed w x hp hx = hx
  unless_failed-IsExplained crashed w x hp hx = hp
  unless_failed-IsExplained (lease subnet router dns) w x hp hx = hp

  retry_loop-IsExplained :
      (rounds deadline : ℕ) (w : W) → IsExplained (retry_loop host rounds deadline ifname d w)
  unfolding retry_loop
  retry_loop-IsExplained zero deadline w = tt
  retry_loop-IsExplained (suc rounds) deadline w =
      let found = probe_upstream_dhcp host ifname (deadline - host.now w) d w in
      unless_failed-IsExplained found.0 found.1 _
        (probe_upstream_dhcp_lem (deadline - host.now w) w)
        (if_IsExplained (leb (deadline - host.now found.1) 7000) (some (failed, found.1))
          (retry_loop host rounds deadline ifname d (host.sleep 1000 found.1)) (λ e. absurd cc)
          (retry_loop-IsExplained rounds deadline (host.sleep 1000 found.1)))

  probe_upstream_dhcp_with_retry-IsExplained :
      (w : W) → IsExplained (probe_upstream_dhcp_with_retry host ifname d w)
  unfolding probe_upstream_dhcp_with_retry
  probe_upstream_dhcp_with_retry-IsExplained w =
      elim (Option-cases (wait_rndis_carrier host ifname d.client_timeout w)) [
        | inl n ↦ rw (probe_upstream_dhcp_with_retry, n) tt
        | inr (w', n) ↦
            rw (probe_upstream_dhcp_with_retry, n)
              (retry_loop-IsExplained (suc d.client_timeout) (host.now w + d.client_timeout) w')
      ]

  pub probe_upstream_dhcp_with_retry-IsPanicking :
      (w : W) (r : Probe × W)
      → probe_upstream_dhcp_with_retry host ifname d w ≡ some r
      → r.0 ≡ crashed
      → IsPanicking host ifname d
  probe_upstream_dhcp_with_retry-IsPanicking w (p, w') e =
      let explained : IsExplained (probe_upstream_dhcp_with_retry host ifname d w) =
        probe_upstream_dhcp_with_retry-IsExplained w in
      rw e at explained
