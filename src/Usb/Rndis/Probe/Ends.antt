-- ===== src/Usb/Rndis/Probe/Ends.antt =====
-- core/usb/rndis.go: the loops of the DHCP probe end, by the clock.
use wifi_stick_usb_switcher.Prelude.{
  ℕ, zero, suc, ◌+◌, ◌-◌, ◌≤◌, ◌<◌, Bool, true, false, Option, some, ◌≡◌, refl, arith, leb, ltb,
  inl, inr, Bool-cases, if◌then◌else◌,
}
use wifi_stick_usb_switcher.Prelude.Text.{Bytes}
use wifi_stick_usb_switcher.Usb.Rndis.{UsbGadgetRndis, Host, IsTimely}
use wifi_stick_usb_switcher.Usb.Rndis.Probe.{
  Probe, lease, failed, crashed, is_up, carrier_file, carrier_loop, wait_rndis_carrier,
  probe_upstream_dhcp, unless_failed, retry_loop, probe_upstream_dhcp_with_retry, script_file,
  script_text, udhcpc, parse_lease,
}

module _ {W : Type 0} (host : Host W) (timely : IsTimely host) where
  if_le :
      (n : ℕ) (b : Bool) (x y : Probe × W)
      → n ≤ host.now x.1
      → n ≤ host.now y.1
      → n ≤ host.now (if b then x else y).1
  if_le n true x y hx hy = hx
  if_le n false x y hx hy = hy

  probe_upstream_dhcp_takes :
      (ifname : Bytes) (timeout : ℕ) (d : UsbGadgetRndis) (w : W)
      → host.now w ≤ host.now (probe_upstream_dhcp host ifname timeout d w).1
  unfolding probe_upstream_dhcp
  probe_upstream_dhcp_takes ifname timeout d w =
      let argv = udhcpc host ifname (script_file host d) in
      let w1 = (host.write_file (script_file host d) (script_text host) w).1 in
      let w2 = (host.command_within timeout argv w1).2 in
      let written : host.now w ≤ host.now w1 =
        timely.write_file_takes (script_file host d) (script_text host) w in
      let ran : host.now w1 ≤ host.now w2 = timely.command_within_takes timeout argv w1 in
      let removed : host.now w2 ≤ host.now (host.remove_file (script_file host d) w2) =
        timely.remove_file_takes (script_file host d) w2 in
      let all : host.now w ≤ host.now (host.remove_file (script_file host d) w2) = omega arith in
      let w3 = host.remove_file (script_file host d) w2 in
      let out = (host.command_within timeout argv w1).1 in
      let killed = (host.command_within timeout argv w1).0 in
      let unwritten = (host.write_file (script_file host d) (script_text host) w).0 in
      if_le (host.now w) unwritten (failed, w1)
        (if killed then (failed, w3) else (parse_lease host out, w3)) written
        (if_le (host.now w) killed (failed, w3) (parse_lease host out, w3) all all)

  -- The loop has a result, at a later time.
  abbrev Ends : W → Option W → Type 0
  Ends w x = (w' : W) × (x ≡ some w') × (host.now w ≤ host.now w')

  later-Ends : (w w' : W) (x : Option W) → host.now w ≤ host.now w' → Ends w' x → Ends w x
  later-Ends w w' x h (r, e, le) = (r, e, omega arith)

  if_Ends : (w : W) (b : Bool) (x y : Option W) → Ends w x → Ends w y → Ends w (if b then x else y)
  if_Ends w true x y hx hy = hx
  if_Ends w false x y hx hy = hy

  carrier_loop-Ends :
      (rounds deadline : ℕ) (ifname : Bytes) (w : W)
      → deadline - host.now w < rounds
      → Ends w (carrier_loop host rounds deadline ifname w)
  unfolding carrier_loop
  carrier_loop-Ends zero deadline ifname w h = absurd (omega arith)
  carrier_loop-Ends (suc rounds) deadline ifname w h =
      let slept : host.now w + 50 ≤ host.now (host.sleep 50 w) = timely.sleep_takes 50 w in
      let here : Ends w (some w) = (w, refl, omega arith) in
      elim (Bool-cases (ltb (host.now w) deadline)) [
        | inl e ↦
            let early : host.now w < deadline = ground arith in
            let later = carrier_loop-Ends rounds deadline ifname (host.sleep 50 w) (omega arith) in
            rw e (
              if_Ends w (is_up host (host.read_file (carrier_file host ifname) w)) (some w) _ here
                (later-Ends w _ _ (omega arith) later))
        | inr e ↦ rw e here
      ]

  unless_failed-Ends :
      (p : Probe) (w : W) (x : Option (Probe × W))
      → (r : Probe × W) × (x ≡ some r)
      → (r : Probe × W) × (unless_failed host p w x ≡ some r)
  unless_failed-Ends failed w x h = h
  unless_failed-Ends crashed w x h = ((crashed, w), refl)
  unless_failed-Ends (lease subnet router dns) w x h = ((lease subnet router dns, w), refl)

  retry_loop-Ends :
      (rounds deadline : ℕ) (ifname : Bytes) (d : UsbGadgetRndis) (w : W)
      → deadline - host.now w < rounds
      → (r : Probe × W) × (retry_loop host rounds deadline ifname d w ≡ some r)
  unfolding retry_loop
  retry_loop-Ends zero deadline ifname d w h = absurd (omega arith)
  retry_loop-Ends (suc rounds) deadline ifname d w h =
      let found = probe_upstream_dhcp host ifname (deadline - host.now w) d w in
      let took : host.now w ≤ host.now found.1 =
        probe_upstream_dhcp_takes ifname (deadline - host.now w) d w in
      let slept : host.now found.1 + 1000 ≤ host.now (host.sleep 1000 found.1) =
        timely.sleep_takes 1000 found.1 in
      unless_failed-Ends found.0 found.1 _
        (elim (Bool-cases (leb (deadline - host.now found.1) 7000)) [
          | inl e ↦ ((failed, found.1), rw e refl)
          | inr e ↦
              let more : 7000 < deadline - host.now found.1 = ground arith in
              rw e
                (retry_loop-Ends rounds deadline ifname d (host.sleep 1000 found.1) (omega arith))
        ])

  -- The probe ends within its budget, whatever the interface and udhcpc do.
  pub probe_upstream_dhcp_with_retry-Ends :
      (ifname : Bytes) (d : UsbGadgetRndis) (w : W)
      → (r : Probe × W) × (probe_upstream_dhcp_with_retry host ifname d w ≡ some r)
  unfolding probe_upstream_dhcp_with_retry wait_rndis_carrier
  probe_upstream_dhcp_with_retry-Ends ifname d w =
      let deadline = host.now w + d.client_timeout in
      let (w', e, later) =
        carrier_loop-Ends (suc d.client_timeout) deadline ifname w (omega arith) in
      rw (probe_upstream_dhcp_with_retry, e)
        (retry_loop-Ends (suc d.client_timeout) deadline ifname d w' (omega arith))
