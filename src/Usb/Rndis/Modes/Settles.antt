-- ===== src/Usb/Rndis/Modes/Settles.antt =====
-- core/usb/rndis.go: what the client submode comes to once the probe has an answer.
use wifi_stick_usb_switcher.Prelude.{
  Bool, true, false, List, [], ◌∷◌, ◌++◌, Option, none, some, ◌≡◌, ◌⊎◌, inl, inr, refl, leb,
  Option-cases, if◌then◌else◌, ◌%◌,
}
use wifi_stick_usb_switcher.Prelude.Text.{Bytes, codes}
use wifi_stick_usb_switcher.Prelude.Decimal.{itoa}
use wifi_stick_usb_switcher.Usb.Network.{
  Addr, mask_to_prefix, masked, calc_client_ip, from4, dns_query, show_addr,
}
use wifi_stick_usb_switcher.Usb.Resolv.{Files, apply_dns, restore_dns}
use wifi_stick_usb_switcher.Usb.Rndis.{
  UsbGadgetRndis, Host, World, with_outside, RndisError, crashed, run, ip_flush, add_iface_addr,
  mask_not_contiguous, prefix_too_small, address_refused, default_route,
}
use wifi_stick_usb_switcher.Usb.Rndis.Probe.{Probe, lease, failed}
use wifi_stick_usb_switcher.Usb.Rndis.Modes.{
  Outcome, enable_gateway_mode, fallback_to_gateway_mode, take_lease, apply_dhcp_lease, show_client,
  enable_ics_static_mode, unless_leased, after_probe, ics_gateway,
}

-- Client of the upstream network, with its servers written over the resolver's.
abbrev pub Joins : {W : Type 0} → UsbGadgetRndis → Files → Outcome W → Type 0
Joins d fs (e, d', w') =
    (e ≡ none)
    × (d' ≡ d)
    × ((dns : List Addr) × (gateway : Addr) × (w'.files ≡ apply_dns dns gateway fs))

-- Gateway in submode 0, with the resolver's files put back.
abbrev pub FallsBack : {W : Type 0} → UsbGadgetRndis → Files → Outcome W → Type 0
FallsBack d fs (e, d', w') =
    (e ≡ none) × (d' ≡ record d { submode = 0 }) × (w'.files ≡ restore_dns fs)

abbrev pub Settles : {W : Type 0} → UsbGadgetRndis → Files → Outcome W → Type 0
Settles d fs o = Joins d fs o ⊎ FallsBack d fs o

module _ {W : Type 0} (host : Host W) where
  pub fallback_lem :
      (d : UsbGadgetRndis) (w : World W) → FallsBack d w.files (fallback_to_gateway_mode host d w)
  unfolding fallback_to_gateway_mode enable_gateway_mode
  fallback_lem d w = (refl, refl, refl)

  if_Settles :
      (d : UsbGadgetRndis) (fs : Files) (b : Bool) (x y : Outcome W)
      → Settles d fs x
      → Settles d fs y
      → Settles d fs (if b then x else y)
  if_Settles d fs true x y hx hy = hx
  if_Settles d fs false x y hx hy = hy

  enable_ics_static_mode-Settles :
      (ifname : Bytes) (d : UsbGadgetRndis) (w : World W)
      → Settles d w.files (enable_ics_static_mode host ifname d w)
  unfolding enable_ics_static_mode
  enable_ics_static_mode-Settles ifname d w =
      let ip = from4 (192 ∷ 168 ∷ 137 ∷ d.client_ip % 256 ∷ []) in
      let spec = show_addr ip ++ codes "/24" in
      let flushed = run host (ip_flush host "addr" ifname) w.outside in
      let added = add_iface_addr host ifname spec flushed in
      let asked =
        host.query ics_gateway d.ics_timeout (dns_query (codes "dns.msftncsi.com")) added.1 in
      let out = run host (default_route host (show_addr ics_gateway) ifname) asked.1 in
      let refused = fallback_to_gateway_mode host d (with_outside w added.1) in
      let silent = fallback_to_gateway_mode host d (with_outside w asked.1) in
      let joined : Outcome W =
        (none, d, record { outside = out; files = apply_dns [] ics_gateway w.files }) in
      if_Settles d w.files added.0 refused (if asked.0 then joined else silent)
        (inr (fallback_lem d (with_outside w added.1)))
        (if_Settles d w.files asked.0 joined silent (inl (refl, refl, ([], ics_gateway, refl)))
          (inr (fallback_lem d (with_outside w asked.1))))

  -- The lease is taken, or the resolver's files are as they were.
  abbrev Leases : Addr → List Addr → Files → Option RndisError × World W → Type 0
  Leases router dns fs (e, w') =
      (e ≡ none) × (w'.files ≡ apply_dns dns router fs)
      ⊎ ((x : RndisError) × (e ≡ some x) × (w'.files ≡ fs))

  if_Leases :
      (router : Addr) (dns : List Addr) (fs : Files) (b : Bool) (x y : Option RndisError × World W)
      → Leases router dns fs x
      → Leases router dns fs y
      → Leases router dns fs (if b then x else y)
  if_Leases router dns fs true x y hx hy = hx
  if_Leases router dns fs false x y hx hy = hy

  take_lease-Leases :
      (ifname spec : Bytes) (router : Addr) (dns : List Addr) (w : World W)
      → Leases router dns w.files (take_lease host ifname spec router dns w)
  unfolding take_lease
  take_lease-Leases ifname spec router dns w =
      let flushed = run host (ip_flush host "addr" ifname) w.outside in
      let added = add_iface_addr host ifname spec flushed in
      let out = run host (default_route host (show_addr router) ifname) added.1 in
      if_Leases router dns w.files added.0 (some (address_refused spec), with_outside w added.1)
        (none, record { outside = out; files = apply_dns dns router w.files })
        (inr (address_refused spec, refl, refl)) (inl (refl, refl))

  apply_dhcp_lease-Leases :
      (ifname : Bytes) (subnet router : Addr) (dns : List Addr) (d : UsbGadgetRndis) (w : World W)
      → Leases router dns w.files (apply_dhcp_lease host ifname subnet router dns d w)
  unfolding apply_dhcp_lease
  apply_dhcp_lease-Leases ifname subnet router dns d w =
      elim (Option-cases (mask_to_prefix subnet)) [
        | inl e ↦ rw (apply_dhcp_lease, e) (inr (mask_not_contiguous subnet, refl, refl))
        | inr (prefix, e) ↦
            let ip = calc_client_ip (masked router prefix) prefix d.client_ip in
            let spec = show_client ip ++ (b'/' ∷ itoa prefix) in
            rw (apply_dhcp_lease, e)
              (if_Leases router dns w.files (leb 30 prefix) (some (prefix_too_small prefix), w)
                (take_lease host ifname spec router dns w)
                (inr (prefix_too_small prefix, refl, refl))
                (take_lease-Leases ifname spec router dns w))
      ]

  unless_leased-Settles :
      (ifname : Bytes) (d : UsbGadgetRndis) (router : Addr) (dns : List Addr) (fs : Files)
      (tried : Option RndisError × World W)
      → Leases router dns fs tried
      → Settles d fs (unless_leased host ifname d tried)
  unless_leased-Settles ifname d router dns fs (none, w) (inl (e, files)) =
      inl (refl, refl, (dns, router, files))
  unless_leased-Settles ifname d router dns fs (none, w) (inr (x, e, files)) = absurd cc
  unless_leased-Settles ifname d router dns fs (some x, w) (inl (e, files)) = absurd cc
  unless_leased-Settles ifname d router dns fs (some x, w) (inr (y, e, files)) =
      rw⁻¹ files (enable_ics_static_mode-Settles ifname d w)

  -- The panic of the probe, which has changed nothing yet.
  abbrev pub Crashes : UsbGadgetRndis → Files → Probe → Outcome W → Type 0
  Crashes d fs probe (e, d', w') =
      (probe ≡ Probe.crashed) × (e ≡ some crashed) × (d' ≡ d) × (w'.files ≡ fs)

  -- After the probe the client submode has no error: it ends as a client with the upstream servers in
  -- place, or back in submode 0 with the original ones; or it panics with the probe.
  pub after_probe-Settles :
      (ifname : Bytes) (d : UsbGadgetRndis) (probe : Probe) (w : World W)
      → let o = after_probe host ifname d probe w in Settles d w.files o ⊎ Crashes d w.files probe o
  unfolding after_probe
  after_probe-Settles ifname d Probe.crashed w = inr (refl, refl, refl, refl)
  after_probe-Settles ifname d failed w = inl (enable_ics_static_mode-Settles ifname d w)
  after_probe-Settles ifname d (lease subnet router dns) w = inl (
      unless_leased-Settles ifname d router dns w.files _
        (apply_dhcp_lease-Leases ifname subnet router dns d w))
