-- ===== src/Usb/Rndis/Modes/Ends.antt =====
-- core/usb/rndis.go, enable: the method as a whole.
use mathlib.Core.Path.{subst}
use wifi_stick_usb_switcher.Prelude.{
  ℕ, zero, suc, ◌+◌, ◌*◌, ◌≤◌, ◌<◌, Bool, true, false, List, Option, none, some, ◌≡◌, ◌⊎◌, inl, inr,
  refl, ap, sym, ◌∙◌, arith, ltb, if◌then◌else◌,
}
use wifi_stick_usb_switcher.Prelude.Text.{Bytes}
use wifi_stick_usb_switcher.Usb.Network.{Addr}
use wifi_stick_usb_switcher.Usb.Resolv.{Files, apply_dns, restore_dns}
use wifi_stick_usb_switcher.Usb.Rndis.{
  UsbGadgetRndis, Host, World, IsTimely, with_outside, no_interface, crashed, run, add_iface_addr,
}
use wifi_stick_usb_switcher.Usb.Rndis.Dnsmasq.{stop_dnsmasq_all}
use wifi_stick_usb_switcher.Usb.Rndis.Probe.{Probe}
use wifi_stick_usb_switcher.Usb.Rndis.Probe.Crash.{
  IsPanicking, probe_upstream_dhcp_with_retry-IsPanicking,
}
use wifi_stick_usb_switcher.Usb.Rndis.Probe.Ends.{probe_upstream_dhcp_with_retry-Ends}
use wifi_stick_usb_switcher.Usb.Rndis.Modes.{
  Outcome, enable_gateway_mode, after_probe, enable_client_mode, resolved, wait_interface,
  unmanage_from_network_manager, link_up, enable_submode, enable_found, enable_waited, enable,
}
use wifi_stick_usb_switcher.Usb.Rndis.Modes.Settles.{Settles, Crashes, after_probe-Settles}

-- The result of `enable` on `d` with the resolver's files `fs`: gateway in submode 0 with the original
-- servers; client in submode 1 with the upstream's; without the interface, an error; or the panic of
-- the probe in submode 1, for what udhcpc printed. The last two change neither the submode nor the
-- files.
abbrev pub Enables : {W : Type 0} → Host W → UsbGadgetRndis → Files → Outcome W → Type 0
Enables host d fs (e, d', w') =
    (e ≡ none) × (d'.submode ≡ 0) × (w'.files ≡ restore_dns fs)
    ⊎ ((e ≡ none)
        × (d.submode ≡ 1)
        × (d'.submode ≡ 1)
        × ((dns : List Addr) × (gateway : Addr) × (w'.files ≡ apply_dns dns gateway fs)))
    ⊎ ((name : Bytes) × (e ≡ some (no_interface name)) × (d' ≡ d) × (w'.files ≡ fs))
    ⊎ ((e ≡ some crashed)
        × (d.submode ≡ 1)
        × (d'.submode ≡ 1)
        × (w'.files ≡ fs)
        × IsPanicking host d'.ifname d')

module _ {W : Type 0} (host : Host W) (timely : IsTimely host) where
  if_ends :
      {A : Type 0} (b : Bool) (x : A) (y : Option A)
      → (r : A) × (y ≡ some r)
      → (r : A) × ((if b then some x else y) ≡ some r)
  if_ends true x y h = (x, refl)
  if_ends false x y h = h

  wait_interface-Ends :
      (rounds deadline : ℕ) (ifname : Bytes) (w : W)
      → deadline < host.now w + 50 * rounds
      → (r : Bool × Bytes × W) × (wait_interface host (suc rounds) deadline ifname w ≡ some r)
  unfolding wait_interface
  wait_interface-Ends zero deadline ifname w h =
      let late : ltb deadline (host.now w) ≡ true = ground arith in
      if_ends (host.interface_exists ifname w) (true, ifname, w) _
        ((false, resolved host ifname w, w), rw late refl)
  wait_interface-Ends (suc rounds) deadline ifname w h =
      let slept : host.now w + 50 ≤ host.now (host.sleep 50 w) = timely.sleep_takes 50 w in
      let name = resolved host ifname w in
      let over : Option (Bool × Bytes × W) =
        wait_interface host (suc rounds) deadline name (host.sleep 50 w) in
      if_ends (host.interface_exists ifname w) (true, ifname, w)
        (if ltb deadline (host.now w) then some (false, name, w) else over)
        (if_ends (ltb deadline (host.now w)) (false, name, w) over
          (wait_interface-Ends rounds deadline name (host.sleep 50 w) (omega arith)))

  enable_client_mode-Enables :
      (ifname : Bytes) (d0 d : UsbGadgetRndis) (w : World W)
      → d0.submode ≡ 1
      → d.submode ≡ 1
      → d.ifname ≡ ifname
      → (o : Outcome W) × (enable_client_mode host ifname d w ≡ some o) × Enables host d0 w.files o
  unfolding enable_client_mode
  enable_client_mode-Enables ifname d0 d w h0 h named =
      let stopped = stop_dnsmasq_all host w.outside in
      let added = add_iface_addr host ifname d.ip_text stopped in
      let (found, e) = probe_upstream_dhcp_with_retry-Ends host timely ifname d added.1 in
      let after : World W = with_outside w found.1 in
      (
        after_probe host ifname d found.0 after,
        rw (enable_client_mode, e) refl,
        of_after (after_probe host ifname d found.0 after) found.0
            (probe_upstream_dhcp_with_retry-IsPanicking host ifname d added.1 found e)
            (after_probe-Settles host ifname d found.0 after),
      )
    where
      of_after :
          (o : Outcome W) (probe : Probe)
          → (probe ≡ Probe.crashed → IsPanicking host ifname d)
          → Settles d w.files o ⊎ Crashes host d w.files probe o
          → Enables host d0 w.files o
      of_after (e, d', w') probe why (inl (inl (err, same, files))) =
          inr (inl (err, h0, ap (λ x. x.submode) same ∙ h, files))
      of_after (e, d', w') probe why (inl (inr (err, same, files))) =
          inl (err, ap (λ x. x.submode) same, files)
      of_after (e, d', w') probe why (inr (was, err, same, files)) =
          let panicking : IsPanicking host d.ifname d =
            subst (λ n. IsPanicking host n d) (sym named) (why was) in
          inr (
            inr (
              inr (
                err,
                h0,
                ap (λ x. x.submode) same ∙ h,
                files,
                subst (λ x. IsPanicking host x.ifname x) (sym same) panicking,
              )))

  enable_submode-Enables :
      (n : ℕ) (ifname : Bytes) (d0 d : UsbGadgetRndis) (w : World W)
      → n ≤ 1
      → d0.submode ≡ n
      → d.submode ≡ n
      → d.ifname ≡ ifname
      → (o : Outcome W) × (enable_submode host n ifname d w ≡ some o) × Enables host d0 w.files o
  enable_submode-Enables zero ifname d0 d w le h0 h named =
      (enable_gateway_mode host ifname d w, refl, inl (gateway ifname d w h))
    where
      gateway :
          (ifname : Bytes) (d : UsbGadgetRndis) (w : World W)
          → d.submode ≡ 0
          → let o = enable_gateway_mode host ifname d w in
            (o.0 ≡ none) × (o.1.submode ≡ 0) × (o.2.files ≡ restore_dns w.files)
      gateway ifname d w h = (unfold enable_gateway_mode in (refl, h, refl))
  enable_submode-Enables (suc zero) ifname d0 d w le h0 h named =
      enable_client_mode-Enables ifname d0 d w h0 h named
  enable_submode-Enables (suc (suc n)) ifname d0 d w le h0 h named = absurd (omega arith)

  enable_waited-Enables :
      (d : UsbGadgetRndis) (fs : Files) (found : Bool × Bytes × W)
      → d.submode ≤ 1
      → (o : Outcome W) × (enable_waited host d fs (some found) ≡ some o) × Enables host d fs o
  unfolding enable_found
  enable_waited-Enables d fs (true, ifname, out) le =
      let w : World W = record { outside = out; files = fs } in
      let managed = unmanage_from_network_manager host ifname out in
      let up = run host (link_up host ifname) managed in
      enable_submode-Enables d.submode ifname d (record d { ifname = ifname }) (with_outside w up)
        le refl refl refl
  enable_waited-Enables d fs (false, ifname, out) le = (
    (some (no_interface ifname), d, record { outside = out; files = fs }),
    refl,
    inr (inr (inl (ifname, refl, refl, refl))),
  )

  pub enable-Enables :
      (d : UsbGadgetRndis) (w : World W)
      → d.submode ≤ 1
      → (o : Outcome W) × (enable host d w ≡ some o) × Enables host d w.files o
  unfolding enable
  enable-Enables d w le =
      let (found, e) =
        wait_interface-Ends 101 (host.now w.outside + 5000) d.ifname w.outside (omega arith) in
      rw (enable, e) (enable_waited-Enables d w.files found le)
