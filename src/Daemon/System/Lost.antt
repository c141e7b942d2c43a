-- ===== src/Daemon/System/Lost.antt =====
-- Two requests in one turn: a change of mode, and a change of its submode.
use wifi_stick_usb_switcher.Prelude.{ℕ, true, false, ◌≡◌, refl, arith, ◌==◌}
use wifi_stick_usb_switcher.Daemon.State.{Daemon, mode_at, set_current_mode}
use wifi_stick_usb_switcher.Daemon.Requests.{select}
use wifi_stick_usb_switcher.Daemon.Apply.{begin_apply}

module _ {W : Type 0} where
  first : (i n : ℕ) (d : Daemon W) → (i == d.current_mode) ≡ false → (select i n d).current_mode ≡ i
  unfolding select set_current_mode
  first i n d e = rw e refl

  second :
      (i m : ℕ) (d : Daemon W)
      → d.current_mode ≡ i
      → ((mode_at i d).submode == m) ≡ false
      → (begin_apply (select i m d)).1.submode_only ≡ true
  unfolding select begin_apply
  second i m d c e = ground arith

  -- A request for another mode `i`, and before the apply begins a request for another submode `m` of
  -- it than the one that the first selected: the current mode is then `i`, and the apply that begins
  -- only reconfigures its function, so that no gadget is built for the mode.
  pub select-select-begin_apply :
      (i n m : ℕ) (d : Daemon W)
      → (i == d.current_mode) ≡ false
      → ((mode_at i (select i n d)).submode == m) ≡ false
      → ((select i n d).current_mode ≡ i)
        × ((begin_apply (select i m (select i n d))).1.submode_only ≡ true)
  select-select-begin_apply i n m d e k =
      (first i n d e, second i m (select i n d) (first i n d e) k)
