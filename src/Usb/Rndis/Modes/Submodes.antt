-- ===== src/Usb/Rndis/Modes/Submodes.antt =====
-- core/usb/rndis.go, enable: what the method does to the submode, on any system.
use wifi_stick_usb_switcher.Prelude.{
  ℕ, zero, suc, ◌+◌, none, some, Option, ◌≡◌, ◌⊎◌, inl, inr, refl, ap, Option-cases, Bool, true,
  false,
}
use wifi_stick_usb_switcher.Prelude.Text.{Bytes}
use wifi_stick_usb_switcher.Usb.Resolv.{Files}
use wifi_stick_usb_switcher.Usb.Rndis.{
  UsbGadgetRndis, Host, World, with_outside, run, add_iface_addr,
}
use wifi_stick_usb_switcher.Usb.Rndis.Dnsmasq.{stop_dnsmasq_all}
use wifi_stick_usb_switcher.Usb.Rndis.Probe.{Probe, probe_upstream_dhcp_with_retry}
use wifi_stick_usb_switcher.Usb.Rndis.Modes.{
  Outcome, enable_gateway_mode, after_probe, enable_client_mode, wait_interface,
  unmanage_from_network_manager, link_up, enable_submode, enable_found, enable_waited, enable,
}
use wifi_stick_usb_switcher.Usb.Rndis.Modes.Settles.{Settles, Crashes, after_probe-Settles}

-- The submode is `n` still, or 0.
abbrev pub IsKept : {W : Type 0} → ℕ → Option (Outcome W) → Type 0
IsKept n none = Unit
IsKept n (some (e, d', w')) = (d'.submode ≡ n) ⊎ (d'.submode ≡ 0)

module _ {W : Type 0} (host : Host W) where
  enable_client_mode-IsKept :
      (ifname : Bytes) (d : UsbGadgetRndis) (w : World W)
      → IsKept d.submode (enable_client_mode host ifname d w)
  unfolding enable_client_mode
  enable_client_mode-IsKept ifname d w =
      let stopped = stop_dnsmasq_all host w.outside in
      let added = add_iface_addr host ifname d.ip_text stopped in
      elim (Option-cases (probe_upstream_dhcp_with_retry host ifname d added.1)) [
        | inl e ↦ rw (enable_client_mode, e) tt
        | inr (found, e) ↦
            let after : World W = with_outside w found.1 in
            rw (enable_client_mode, e)
              (of_after found.0 (after_probe host ifname d found.0 after)
                (after_probe-Settles host ifname d found.0 after))
      ]
    where
      of_after :
          (probe : Probe) (o : Outcome W)
          → Settles d w.files o ⊎ Crashes host d w.files probe o
          → IsKept d.submode (some o)
      of_after probe (e, d', w') (inl (inl (err, same, files))) = inl (ap (λ x. x.submode) same)
      of_after probe (e, d', w') (inl (inr (err, same, files))) = inr (ap (λ x. x.submode) same)
      of_after probe (e, d', w') (inr (was, err, same, files)) = inl (ap (λ x. x.submode) same)

  enable_submode-IsKept :
      (n : ℕ) (ifname : Bytes) (d : UsbGadgetRndis) (w : World W)
      → IsKept d.submode (enable_submode host n ifname d w)
  unfolding enable_gateway_mode
  enable_submode-IsKept zero ifname d w = inl refl
  enable_submode-IsKept (suc zero) ifname d w = enable_client_mode-IsKept ifname d w
  enable_submode-IsKept (suc (suc n)) ifname d w = inl refl

  enable_waited-IsKept :
      (d : UsbGadgetRndis) (fs : Files) (found : Option (Bool × Bytes × W))
      → IsKept d.submode (enable_waited host d fs found)
  unfolding enable_found
  enable_waited-IsKept d fs none = tt
  enable_waited-IsKept d fs (some (true, ifname, out)) =
      let managed = unmanage_from_network_manager host ifname out in
      let up = run host (link_up host ifname) managed in
      enable_submode-IsKept d.submode ifname (record d { ifname = ifname })
        (record { outside = up; files = fs })
  enable_waited-IsKept d fs (some (false, ifname, out)) = inl refl

  pub enable-IsKept : (d : UsbGadgetRndis) (w : World W) → IsKept d.submode (enable host d w)
  unfolding enable
  enable-IsKept d w =
      enable_waited-IsKept d w.files
        (wait_interface host 102 (host.now w.outside + 5000) d.ifname w.outside)
