-- ===== src/Daemon/System/Settle.antt =====
-- The end of an apply: it releases the mode switch on every branch that the process survives.
use mathlib.Core.Path.{subst}
use wifi_stick_usb_switcher.Prelude.{
  ℕ, Bool, true, false, not, ◌&&◌, ◌≡◌, refl, ap, ◌∙◌, inl, inr, ◌⊎◌, ltb, length,
}
use wifi_stick_usb_switcher.Usb.Controller.{Driver, Outcome, succeeds, fails, panics}
use wifi_stick_usb_switcher.Daemon.State.{Daemon, ApplyTarget, modes, set_current_mode, commit_mode}
use wifi_stick_usb_switcher.Daemon.Leds.{set_current_led, turn_off_all_leds, display_mode_state}
use wifi_stick_usb_switcher.Daemon.Apply.{
  Job, should_rollback, begin_rebuild, begin_apply, restore_mode, release_failed, settle_failure,
  last_good, rebuild, enable_gadget, then_enable, rollback_mode, rollback_submode, try_rollback,
  handle_apply_failure, reconfigure,
}
use wifi_stick_usb_switcher.Daemon.Apply.{conclude_reconfigure, conclude_enable, finish_apply}
use wifi_stick_usb_switcher.Daemon.System.Control.{
  Control, control, if_control, if_pair-control, display_mode_state-control,
}

-- A failure is over: the switch is released, or nothing recovered a panic. The rebind deadline is
-- as it was.
pub record Settled (c c' : Control) : Type 0 where
  pub released : (c'.mode_changing ≡ false) ⊎ (c'.crashed ≡ true)
  pub same_chan : c'.rebind_chan ≡ c.rebind_chan
  pub same_enable : c'.pending_enable ≡ c.pending_enable

abbrev unswitched : Control → Control
unswitched c = record c { mode_changing = false }

released_by : {c c' : Control} → c' ≡ unswitched c → Settled c c'
released_by e = record {
  released = inl (ap (λ x. x.mode_changing) e);
  same_chan = ap (λ x. x.rebind_chan) e;
  same_enable = ap (λ x. x.pending_enable) e;
}

module _ {W : Type 0} where
  begin_rebuild-control : (d : Daemon W) → control (begin_rebuild d) ≡ control d
  unfolding begin_rebuild set_current_led
  begin_rebuild-control d =
      if_control d.first_apply _ _ refl
        (if_control (d.submode_selection && not d.reapply) _ _ refl refl)

  pub begin_apply-control :
      (d : Daemon W) → control (begin_apply d).0 ≡ record (control d) { mode_changing = true }
  unfolding begin_apply set_current_led
  begin_apply-control d = if_control d.submode_changed _ _ refl (begin_rebuild-control _)

  release_failed-control :
      (d : Daemon W) → control (release_failed d) ≡ record (control d) { mode_changing = false }
  unfolding release_failed
  release_failed-control d =
      let shown =
        if_control d.led_init_done (display_mode_state d) d (display_mode_state-control d) refl in
      ap (unswitched) shown

  settle_failure-Settled :
      (p : Daemon W × Outcome) → Settled (control p.0) (control (settle_failure p))
  unfolding settle_failure
  settle_failure-Settled (d, succeeds) = released_by (release_failed-control _)
  settle_failure-Settled (d, fails) = released_by (
      release_failed-control _
      ∙ ap unswitched (if_control (ltb d.last_good_mode (length (modes d))) _ _ refl refl))
  settle_failure-Settled (d, panics) = record {
    released = inr refl;
    same_chan = refl;
    same_enable = refl;
  }

  module _ (driver : Driver W) where
    pub rebuild-control : (mode : ℕ) (d : Daemon W) → control (rebuild driver mode d).0 ≡ control d
    unfolding rebuild
    rebuild-control mode d = refl

    pub enable_gadget-control : (d : Daemon W) → control (enable_gadget driver d).0 ≡ control d
    unfolding enable_gadget
    enable_gadget-control d = refl

    pub reconfigure-control :
        (mode : ℕ) (d : Daemon W) → control (reconfigure driver mode d).0 ≡ control d
    unfolding reconfigure
    reconfigure-control mode d = refl

    then_enable-control : (p : Daemon W × Outcome) → control (then_enable driver p).0 ≡ control p.0
    then_enable-control (d, succeeds) = enable_gadget-control d
    then_enable-control (d, fails) = refl
    then_enable-control (d, panics) = refl

    try_rollback-control :
        (failed : ApplyTarget) (submode_only : Bool) (d : Daemon W)
        → control (try_rollback driver failed submode_only d).0 ≡ control d
    unfolding try_rollback rollback_mode rollback_submode restore_mode set_current_mode
    try_rollback-control failed submode_only d =
        if_pair-control (not (should_rollback (length (modes d)) failed (last_good d))) _ _ refl (
          if_pair-control submode_only _ _
            (if_pair-control (not (ltb d.last_good_mode (length (modes d)))) _ _ refl refl)
            (if_pair-control (not (ltb d.last_good_mode (length (modes d)))) _ _ refl
              (then_enable-control _ ∙ rebuild-control d.last_good_mode _)))

    pub handle_apply_failure-Settled :
        (failed : ApplyTarget) (submode_only : Bool) (d : Daemon W)
        → Settled (control d) (control (handle_apply_failure driver failed submode_only d))
    unfolding handle_apply_failure turn_off_all_leds
    handle_apply_failure-Settled failed submode_only d =
        subst (λ c. Settled c (control (handle_apply_failure driver failed submode_only d)))
          (try_rollback-control failed submode_only _) (settle_failure-Settled _)

    pub conclude_reconfigure-Settled :
        (job : Job) (p : Daemon W × Outcome)
        → Settled (control p.0) (control (conclude_reconfigure driver job p))
    unfolding conclude_reconfigure commit_mode set_current_led
    conclude_reconfigure-Settled job (d, succeeds) = released_by refl
    conclude_reconfigure-Settled job (d, fails) = handle_apply_failure-Settled job.target true d
    conclude_reconfigure-Settled job (d, panics) = handle_apply_failure-Settled job.target true d

    conclude_enable-Settled :
        (target : ApplyTarget) (p : Daemon W × Outcome)
        → Settled (control p.0) (control (conclude_enable driver target p))
    unfolding conclude_enable commit_mode
    conclude_enable-Settled target (d, succeeds) =
        let d' = record (commit_mode target d) { apply_done = true } in
        released_by (
          ap unswitched (
            if_control d'.led_init_done (display_mode_state d') d' (display_mode_state-control d')
              refl))
    conclude_enable-Settled target (d, fails) = handle_apply_failure-Settled target false d
    conclude_enable-Settled target (d, panics) = handle_apply_failure-Settled target false d

    pub finish_apply-Settled :
        (d : Daemon W) → Settled (control d) (control (finish_apply driver d))
    unfolding finish_apply enable_gadget
    finish_apply-Settled d = conclude_enable-Settled d.pending_apply _
