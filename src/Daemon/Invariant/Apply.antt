-- ===== src/Daemon/Invariant/Apply.antt =====
-- Applying a gadget keeps the invariant, however the driver answers.
use wifi_stick_usb_switcher.Prelude.{ℕ, ◌≤◌, Bool, true, false, List, sym, length, not, ◌&&◌, ltb}
use mathlib.Core.Path.{subst}
use wifi_stick_usb_switcher.Prelude.Int.{ℤ}
use wifi_stick_usb_switcher.Usb.Function.{UsbGadgetFunction}
use wifi_stick_usb_switcher.Usb.Controller.{Driver, Outcome, succeeds, fails, panics, add_function}
use wifi_stick_usb_switcher.Usb.Controller.Shape.{
  Shape, HasShape, DriverRespects, mark_effected-HasShape, apply_functions-HasShape,
  enable-HasShape, reconfigure_function-HasShape,
}
use wifi_stick_usb_switcher.Daemon.State.{Daemon, ApplyTarget, mode_at, modes, commit_mode}
use wifi_stick_usb_switcher.Daemon.Leds.{set_current_led, turn_off_all_leds, display_mode_state}
use wifi_stick_usb_switcher.Daemon.Apply.{
  Job, should_rollback, begin_rebuild, begin_apply, restore_mode, release_failed, settle_failure,
  last_good, rebuild, enable_gadget, then_enable, rollback_mode, rollback_submode, try_rollback,
  handle_apply_failure, conclude_reconfigure, conclude_rebuild, reconfigure, work_apply,
  conclude_enable, finish_apply,
}
use wifi_stick_usb_switcher.Daemon.Invariant.{
  IsTarget, Core, core, Inv, mode_at-shape, mode_at-IsLegal,
}
use wifi_stick_usb_switcher.Daemon.Invariant.Writes.{
  set_current_mode-Inv, set_submode_at-Inv, display_mode_state-core, if_Inv, if_pair-Inv,
}

functions_Inv :
    {sh : List Shape} (fs : List UsbGadgetFunction) (c : Core)
    → HasShape sh fs
    → Inv sh c
    → Inv sh (record c { functions = fs })
functions_Inv fs c s h = record {
  shape = s;
  current_in = h.current_in;
  good = h.good;
  pending = h.pending;
  flag = h.flag;
}

module _ {W : Type 0} {sh : List Shape} where
  commit_mode-Inv :
      (t : ApplyTarget) (d : Daemon W)
      → IsTarget sh t.mode t.submode
      → Inv sh (core d)
      → Inv sh (core (commit_mode t d))
  unfolding commit_mode
  commit_mode-Inv t d l h = record {
    shape = h.shape;
    current_in = h.current_in;
    good = l;
    pending = h.pending;
    flag = h.flag;
  }

  -- The target of an apply is a mode with one of its submodes.
  pub begin_apply-IsTarget :
      (d : Daemon W)
      → Inv sh (core d)
      → IsTarget sh (begin_apply d).1.target.mode (begin_apply d).1.target.submode
  unfolding begin_apply
  begin_apply-IsTarget d h = record {
    in_range = h.current_in;
    has_submode =
        subst (λ s. (mode_at d.current_mode d).submode ≤ s.1)
          (mode_at-shape d.current_mode d h.shape) (mode_at-IsLegal d.current_mode d h.shape);
  }

  begin_rebuild-Inv : (d : Daemon W) → Inv sh (core d) → Inv sh (core (begin_rebuild d))
  unfolding begin_rebuild set_current_led
  begin_rebuild-Inv d h =
      if_Inv d.first_apply _ _ (λ _. h)
        (λ _. if_Inv (d.submode_selection && not d.reapply) _ _ (λ _. h) (λ _. h))

  pub begin_apply-Inv : (d : Daemon W) → Inv sh (core d) → Inv sh (core (begin_apply d).0)
  unfolding begin_apply set_current_led
  begin_apply-Inv d h = if_Inv d.submode_changed _ _ (λ _. h) (λ _. begin_rebuild-Inv _ h)

  restore_mode-Inv : (d : Daemon W) → Inv sh (core d) → Inv sh (core (restore_mode d))
  unfolding restore_mode
  restore_mode-Inv d h =
      set_current_mode-Inv d.last_good_mode _ h.good.in_range
        (set_submode_at-Inv d.last_good_mode d.last_good_submode d h.good.has_submode h)

  release_failed-Inv : (d : Daemon W) → Inv sh (core d) → Inv sh (core (release_failed d))
  unfolding release_failed
  release_failed-Inv d h =
      if_Inv d.led_init_done _ _ (λ _. subst (λ c. Inv sh c) (sym (display_mode_state-core d)) h)
        (λ _. h)

  settle_failure-Inv :
      (p : Daemon W × Outcome) → Inv sh (core p.0) → Inv sh (core (settle_failure p))
  unfolding settle_failure
  settle_failure-Inv (d, succeeds) h = release_failed-Inv _ h
  settle_failure-Inv (d, fails) h = release_failed-Inv _ (
      if_Inv (ltb d.last_good_mode (length (modes d))) _ _
        (λ _.
          set_submode_at-Inv d.last_good_mode d.last_good_submode (record d { apply_error = true })
            h.good.has_submode h)
        (λ _. h))
  settle_failure-Inv (d, panics) h = h

  module _ (driver : Driver W) (r : DriverRespects driver) where
    rebuild-Inv :
        (mode : ℕ) (d : Daemon W) → Inv sh (core d) → Inv sh (core (rebuild driver mode d).0)
    unfolding rebuild add_function
    rebuild-Inv mode d h =
        functions_Inv _ (core d)
          (apply_functions-HasShape driver r _ _ (mark_effected-HasShape false mode d.rig h.shape))
          h

    pub enable_gadget-Inv :
        (d : Daemon W) → Inv sh (core d) → Inv sh (core (enable_gadget driver d).0)
    unfolding enable_gadget
    enable_gadget-Inv d h =
        functions_Inv _ (core d) (enable-HasShape driver r d.controller d.rig h.shape) h

    then_enable-Inv :
        (p : Daemon W × Outcome) → Inv sh (core p.0) → Inv sh (core (then_enable driver p).0)
    then_enable-Inv (d, succeeds) h = enable_gadget-Inv d h
    then_enable-Inv (d, fails) h = h
    then_enable-Inv (d, panics) h = h

    reconfigure-Inv :
        (mode : ℕ) (d : Daemon W) → Inv sh (core d) → Inv sh (core (reconfigure driver mode d).0)
    unfolding reconfigure
    reconfigure-Inv mode d h =
        functions_Inv _ (core d) (reconfigure_function-HasShape driver r mode d.rig h.shape) h

    rollback_mode-Inv : (d : Daemon W) → Inv sh (core d) → Inv sh (core (rollback_mode driver d).0)
    unfolding rollback_mode
    rollback_mode-Inv d h =
        if_pair-Inv (not (ltb d.last_good_mode (length (modes d)))) _ _ h
          (then_enable-Inv _ (rebuild-Inv _ _ (restore_mode-Inv d h)))

    rollback_submode-Inv :
        (d : Daemon W) → Inv sh (core d) → Inv sh (core (rollback_submode driver d).0)
    unfolding rollback_submode
    rollback_submode-Inv d h =
        let restored = restore_mode-Inv d h in
        if_pair-Inv (not (ltb d.last_good_mode (length (modes d)))) _ _ h (
          functions_Inv _ (core (restore_mode d))
            (reconfigure_function-HasShape driver r _ _ restored.shape) restored)

    try_rollback-Inv :
        (failed : ApplyTarget) (submode_only : Bool) (d : Daemon W)
        → Inv sh (core d)
        → Inv sh (core (try_rollback driver failed submode_only d).0)
    unfolding try_rollback
    try_rollback-Inv failed submode_only d h =
        if_pair-Inv (not (should_rollback (length (modes d)) failed (last_good d))) _ _ h
          (if_pair-Inv submode_only _ _ (rollback_submode-Inv d h) (rollback_mode-Inv d h))

    pub handle_apply_failure-Inv :
        (failed : ApplyTarget) (submode_only : Bool) (d : Daemon W)
        → Inv sh (core d)
        → Inv sh (core (handle_apply_failure driver failed submode_only d))
    unfolding handle_apply_failure turn_off_all_leds
    handle_apply_failure-Inv failed submode_only d h =
        settle_failure-Inv _ (try_rollback-Inv failed submode_only _ h)

    conclude_reconfigure-Inv :
        (job : Job) (p : Daemon W × Outcome)
        → IsTarget sh job.target.mode job.target.submode
        → Inv sh (core p.0)
        → Inv sh (core (conclude_reconfigure driver job p))
    unfolding conclude_reconfigure set_current_led
    conclude_reconfigure-Inv job (d, succeeds) t h = commit_mode-Inv job.target d t h
    conclude_reconfigure-Inv job (d, fails) t h = handle_apply_failure-Inv job.target true d h
    conclude_reconfigure-Inv job (d, panics) t h = handle_apply_failure-Inv job.target true d h

    conclude_rebuild-Inv :
        (now : ℤ) (job : Job) (p : Daemon W × Outcome)
        → IsTarget sh job.target.mode job.target.submode
        → Inv sh (core p.0)
        → Inv sh (core (conclude_rebuild driver now job p))
    unfolding conclude_rebuild
    conclude_rebuild-Inv now job (d, succeeds) t h = record {
      shape = h.shape;
      current_in = h.current_in;
      good = h.good;
      pending = t;
      flag = h.flag;
    }
    conclude_rebuild-Inv now job (d, fails) t h = handle_apply_failure-Inv job.target false d h
    conclude_rebuild-Inv now job (d, panics) t h = handle_apply_failure-Inv job.target false d h

    pub work_apply-Inv :
        (now : ℤ) (job : Job) (d : Daemon W)
        → IsTarget sh job.target.mode job.target.submode
        → Inv sh (core d)
        → Inv sh (core (work_apply driver now job d))
    unfolding work_apply
    work_apply-Inv now job d t h =
        if_Inv job.submode_only _ _
          (λ _. conclude_reconfigure-Inv job _ t (reconfigure-Inv job.target.mode d h))
          (λ _. conclude_rebuild-Inv now job _ t (rebuild-Inv job.target.mode d h))

    conclude_enable-Inv :
        (t : ApplyTarget) (p : Daemon W × Outcome)
        → IsTarget sh t.mode t.submode
        → Inv sh (core p.0)
        → Inv sh (core (conclude_enable driver t p))
    unfolding conclude_enable
    conclude_enable-Inv target (d, succeeds) t h =
        let committed = commit_mode-Inv target d t h in
        let d' = record (commit_mode target d) { apply_done = true } in
        if_Inv d'.led_init_done (display_mode_state d') d'
          (λ _. subst (λ c. Inv sh c) (sym (display_mode_state-core d')) committed) (λ _. committed)
    conclude_enable-Inv target (d, fails) t h = handle_apply_failure-Inv target false d h
    conclude_enable-Inv target (d, panics) t h = handle_apply_failure-Inv target false d h

    pub finish_apply-Inv : (d : Daemon W) → Inv sh (core d) → Inv sh (core (finish_apply driver d))
    unfolding finish_apply
    finish_apply-Inv d h = conclude_enable-Inv d.pending_apply _ h.pending (enable_gadget-Inv d h)
