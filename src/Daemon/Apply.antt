-- ===== src/Daemon/Apply.antt =====
-- core/daemon/daemon.go: applying a gadget in two phases, committing it, and rolling back.
-- `apply_function` runs in a goroutine of its own: `begin_apply` is what it reads and sets before
-- its first call of the controller, and `work_apply` the rest; the main loop may run in between.
pub mod Endings
pub mod Restoring
use wifi_stick_usb_switcher.Prelude.{
  ℕ, Bool, true, false, not, ◌&&◌, ◌||◌, [], ◌∷◌, Option, none, some, ◌==◌, ltb, length,
  if◌then◌else◌,
}
use wifi_stick_usb_switcher.Prelude.Int.{ℤ, ◌+ℤ◌}
use wifi_stick_usb_switcher.Led.Mode.{mode_preset_off}
use wifi_stick_usb_switcher.Usb.Controller.{
  Driver, Rig, Outcome, succeeds, fails, panics, Applied, returned, panicked, clear_functions,
  add_function, apply_functions, enable, reconfigure_function,
}
use wifi_stick_usb_switcher.Daemon.State.{
  Daemon, ApplyTarget, modes, mode_at, set_submode_at, set_current_mode, commit_mode,
}
use wifi_stick_usb_switcher.Daemon.Leds.{
  submode_led_mode, set_current_led, turn_off_all_leds, display_mode_state,
}

-- The snapshot that an `apply_function` works on.
pub record Job : Type 0 where
  pub target : ApplyTarget
  pub submode_only : Bool

abbrev pub outcome_of : Applied → Outcome
outcome_of (returned []) = succeeds
outcome_of (returned (_ ∷ _)) = fails
outcome_of panicked = panics

unfoldable pub should_rollback : ℕ → ApplyTarget → ApplyTarget → Bool
should_rollback modes_len failed last_good =
    if not (ltb 1 modes_len)
    then false
    else not (failed.mode == last_good.mode) || not (failed.submode == last_good.submode)

-- The send blocks while the channel is full; only one apply runs at a time, so it is not.
abbrev pub send_rebind : ℤ → Option ℤ → Option ℤ
send_rebind deadline none = some deadline
send_rebind deadline (some t) = some t

module _ {W : Type 0} where
  abbrev pub with_rig : Rig W → Daemon W → Daemon W
  with_rig rig d = record d { rig = rig }

  -- The LEDs while a rebuild runs. The first one leaves them to the initial indication.
  unfoldable pub begin_rebuild : Daemon W → Daemon W
  begin_rebuild d =
      let d' = record d { reapply = false; first_apply = false } in
      if d.first_apply
      then d'
      else if d.submode_selection && not d.reapply
      then set_current_led mode_preset_off d'
      else set_current_led d.led_mode_blink d'

  unfoldable pub begin_apply : Daemon W → Daemon W × Job
  begin_apply d =
      let d' = record d { submode_changed = false; mode_changing = true } in
      (
        if d.submode_changed then set_current_led mode_preset_off d' else begin_rebuild d',
        record {
          target = record { mode = d.current_mode; submode = (mode_at d.current_mode d).submode };
          submode_only = d.submode_changed;
        },
      )

  -- The last good mode is selected again, in the daemon and in the function.
  unfoldable pub restore_mode : Daemon W → Daemon W
  restore_mode d =
      set_current_mode d.last_good_mode (set_submode_at d.last_good_mode d.last_good_submode d)

  -- The end of `handle_apply_failure`: the LEDs, and the release of the mode switch.
  unfoldable pub release_failed : Daemon W → Daemon W
  release_failed d =
      let d' = if d.led_init_done then display_mode_state d else d in
      record d' { mode_changing = false }

  -- What follows a rollback that succeeded, that failed or was not tried, or that panicked.
  unfoldable pub settle_failure : Daemon W × Outcome → Daemon W
  settle_failure (d, succeeds) = release_failed (record d { apply_error = false })
  settle_failure (d, fails) =
      let d' = record d { apply_error = true } in
      release_failed (
        if ltb d.last_good_mode (length (modes d))
        then set_submode_at d.last_good_mode d.last_good_submode d'
        else d')
  settle_failure (d, panics) = record d { crashed = true }

  abbrev pub last_good : Daemon W → ApplyTarget
  last_good d = record { mode = d.last_good_mode; submode = d.last_good_submode }

  module _ (driver : Driver W) where
    -- `ClearFunctions`, `AddFunction` and `ApplyFunctions`. The first two return no error.
    unfoldable pub rebuild : ℕ → Daemon W → Daemon W × Outcome
    rebuild mode d =
        let (rig, controller) = add_function mode d.rig (clear_functions d.controller) in
        let (rig', applied) = apply_functions driver controller rig in
        (record d { rig = rig'; controller = controller }, outcome_of applied)

    unfoldable pub enable_gadget : Daemon W → Daemon W × Outcome
    enable_gadget d =
        let (rig, applied) = enable driver d.controller d.rig in
        (with_rig rig d, outcome_of applied)

    abbrev pub then_enable : Daemon W × Outcome → Daemon W × Outcome
    then_enable (d, succeeds) = enable_gadget d
    then_enable (d, outcome) = (d, outcome)

    unfoldable pub rollback_mode : Daemon W → Daemon W × Outcome
    rollback_mode d =
        if not (ltb d.last_good_mode (length (modes d)))
        then (d, fails)
        else then_enable (rebuild d.last_good_mode (restore_mode d))

    unfoldable pub rollback_submode : Daemon W → Daemon W × Outcome
    rollback_submode d =
        if not (ltb d.last_good_mode (length (modes d)))
        then (d, fails)
        else let d' = restore_mode d in
          let (rig, outcome) = reconfigure_function driver d'.last_good_mode d'.rig in
          (with_rig rig d', outcome)

    unfoldable pub try_rollback : ApplyTarget → Bool → Daemon W → Daemon W × Outcome
    try_rollback failed submode_only d =
        if not (should_rollback (length (modes d)) failed (last_good d))
        then (d, fails)
        else if submode_only
        then rollback_submode d
        else rollback_mode d

    unfoldable pub handle_apply_failure : ApplyTarget → Bool → Daemon W → Daemon W
    handle_apply_failure failed submode_only d =
        settle_failure
          (try_rollback failed submode_only (turn_off_all_leds (record d { apply_done = true })))

    -- An error and a recovered panic are handled alike.
    unfoldable pub conclude_reconfigure : Job → Daemon W × Outcome → Daemon W
    conclude_reconfigure job (d, succeeds) =
        let d' = commit_mode job.target d in
        let mode = if d'.turn_off_leds then mode_preset_off else submode_led_mode d' in
        record (set_current_led mode d') { mode_changing = false }
    conclude_reconfigure job (d, _) = handle_apply_failure job.target true d

    unfoldable pub conclude_rebuild : ℤ → Job → Daemon W × Outcome → Daemon W
    conclude_rebuild now job (d, succeeds) = record d {
      pending_apply = job.target;
      rebind_chan = send_rebind (now +ℤ d.rebind_delay) d.rebind_chan;
    }
    conclude_rebuild now job (d, _) = handle_apply_failure job.target false d

    unfoldable pub reconfigure : ℕ → Daemon W → Daemon W × Outcome
    reconfigure mode d =
        let (rig, outcome) = reconfigure_function driver mode d.rig in (with_rig rig d, outcome)

    unfoldable pub work_apply : ℤ → Job → Daemon W → Daemon W
    work_apply now job d =
        if job.submode_only
        then conclude_reconfigure job (reconfigure job.target.mode d)
        else conclude_rebuild now job (rebuild job.target.mode d)

    unfoldable pub apply_function : ℤ → Daemon W → Daemon W
    apply_function now d = let (d', job) = begin_apply d in work_apply now job d'

    unfoldable pub conclude_enable : ApplyTarget → Daemon W × Outcome → Daemon W
    conclude_enable target (d, succeeds) =
        let d' = record (commit_mode target d) { apply_done = true } in
        let d'' = if d'.led_init_done then display_mode_state d' else d' in
        record d'' { mode_changing = false }
    conclude_enable target (d, _) = handle_apply_failure target false d

    unfoldable pub finish_apply : Daemon W → Daemon W
    finish_apply d = conclude_enable d.pending_apply (enable_gadget d)
