-- ===== src/Daemon/Apply/Endings.antt =====
-- How an apply ends, on every branch.
use wifi_stick_usb_switcher.Prelude.{
  Bool, true, false, List, Option, ◌≡◌, ◌≢◌, refl, ap, ◌∙◌, sym, inl, inr, arith, Bool-cases, All,
  [], ◌∷◌, none, some, if◌then◌else◌, ltb, length, map,
}
use mathlib.Core.Path.{subst}
use wifi_stick_usb_switcher.Led.Mode.{mode_preset_off}
use wifi_stick_usb_switcher.Led.Interpreter.{LedInterpreter, set_mode}
use wifi_stick_usb_switcher.Usb.Controller.{Driver, Outcome, succeeds, fails, panics, returned}
use wifi_stick_usb_switcher.Daemon.State.{Daemon, ApplyTarget, modes, set_submode_at, commit_mode}
use wifi_stick_usb_switcher.Daemon.Leds.{
  set_slot, set_current_led, turn_off_all_leds, display_mode_state,
}
use wifi_stick_usb_switcher.Daemon.Apply.Restoring.{
  IsRestored, IsRefused, IsGivenUp, Attempt, try_rollback-Attempt,
}
use wifi_stick_usb_switcher.Daemon.Apply.{
  should_rollback, release_failed, settle_failure, last_good, handle_apply_failure, conclude_enable,
}

-- The LED of a slot shows that it is off.
abbrev IsOff : Option LedInterpreter → Type 0
IsOff none = Unit
IsOff (some it) = it.mode ≡ mode_preset_off

abbrev pub AllOff : List (Option LedInterpreter) → Type 0
AllOff slots = All IsOff slots

turned_off : (slots : List (Option LedInterpreter)) → AllOff (map (set_slot mode_preset_off) slots)
unfolding set_mode
turned_off [] = tt
turned_off (none ∷ slots) = (tt, turned_off slots)
turned_off (some it ∷ slots) = (refl, turned_off slots)

module _ {W : Type 0} (driver : Driver W) where
  -- How an apply of `target`, which the driver answered with `o` and left the daemon `d`, ends in
  -- `d'`. `submode_only` is whether only the submode changes.
  pub data Ends (submode_only : Bool) (target : ApplyTarget) (d : Daemon W) (o : Outcome)
      (d' : Daemon W) : Type 0 where
    committed :
        o ≡ succeeds
        → last_good d' ≡ target
        → d'.current_mode ≡ d.current_mode
        → d'.rig ≡ d.rig
        → d'.apply_error ≡ false
        → d'.mode_changing ≡ false
        → Ends submode_only target d o d'
    restored :
        o ≢ succeeds
        → should_rollback (length (modes d)) target (last_good d) ≡ true
        → last_good d' ≡ last_good d
        → d'.current_mode ≡ d.last_good_mode
        → IsRestored driver submode_only d d'
        → d'.apply_error ≡ false
        → d'.mode_changing ≡ false
        → Ends submode_only target d o d'
    given_up :
        o ≢ succeeds
        → IsGivenUp driver submode_only target d
        → last_good d' ≡ last_good d
        → AllOff d'.interpreters
        → d'.apply_error ≡ true
        → d'.mode_changing ≡ false
        → Ends submode_only target d o d'
    died :
        o ≢ succeeds
        → should_rollback (length (modes d)) target (last_good d) ≡ true
        → d'.crashed ≡ true
        → Ends submode_only target d o d'

module _ {W : Type 0} where
  -- What `release_failed` leaves of `x`.
  record Releases (x y : Daemon W) : Type 0 where
    same_mode : y.current_mode ≡ x.current_mode
    same_good : last_good y ≡ last_good x
    same_rig : y.rig ≡ x.rig
    same_controller : y.controller ≡ x.controller
    same_error : y.apply_error ≡ x.apply_error
    released : y.mode_changing ≡ false

  release_failed-Releases : (x : Daemon W) → Releases x (release_failed x)
  unfolding release_failed display_mode_state set_current_led turn_off_all_leds
  release_failed-Releases x = record {
    same_mode = ground arith;
    same_good = ground arith;
    same_rig = ground arith;
    same_controller = ground arith;
    same_error = ground arith;
    released = ground arith;
  }

  release_failed-AllOff :
      (x : Daemon W)
      → x.apply_error ≡ true
      → AllOff x.interpreters
      → AllOff (release_failed x).interpreters
  unfolding release_failed display_mode_state turn_off_all_leds
  release_failed-AllOff x e h = elim (Bool-cases x.led_init_done) [
    | inl shown ↦ rw (shown, e) (turned_off x.interpreters)
    | inr hidden ↦ rw hidden h
  ]

module _ {W : Type 0} (driver : Driver W) where
  -- Being restored is a matter of the system, the functions and the controller.
  IsRestored-same :
      (so : Bool) (d x y : Daemon W)
      → y.rig ≡ x.rig
      → y.controller ≡ x.controller
      → IsRestored driver so d x
      → IsRestored driver so d y
  IsRestored-same true d x y r c h = h ∙ ap (λ rig. (rig, succeeds)) (sym r)
  IsRestored-same false d x y r c (built, applied, enabled, same) =
      (built, applied, enabled ∙ ap (λ rig. (rig, returned [])) (sym r), c ∙ same)

  given_up_from :
      (so : Bool) (t : ApplyTarget) (d : Daemon W) (o : Outcome) (x : Daemon W)
      → o ≢ succeeds
      → IsGivenUp driver so t d
      → last_good x ≡ last_good d
      → x.apply_error ≡ true
      → AllOff x.interpreters
      → Ends driver so t d o (release_failed x)
  given_up_from so t d o x ne why g e off =
      let r = release_failed-Releases x in
      given_up ne why (r.same_good ∙ g) (release_failed-AllOff x e off) (r.same_error ∙ e)
        r.released

  if_given_up :
      (so : Bool) (t : ApplyTarget) (d : Daemon W) (o : Outcome) (b : Bool) (x y : Daemon W)
      → Ends driver so t d o (release_failed x)
      → Ends driver so t d o (release_failed y)
      → Ends driver so t d o (release_failed (if b then x else y))
  if_given_up so t d o true x y hx hy = hx
  if_given_up so t d o false x y hx hy = hy

  settle_failure-Ends :
      (so : Bool) (t : ApplyTarget) (d : Daemon W) (o : Outcome) (p : Daemon W × Outcome)
      → o ≢ succeeds
      → AllOff d.interpreters
      → Attempt driver so t d p
      → Ends driver so t d o (settle_failure p)
  unfolding settle_failure
  settle_failure-Ends so t d o (e, succeeds) ne off a = elim a.how [
    | inl h ↦ cc
    | inr (s, c, k) ↦
        let x = record e { apply_error = false } in
        let r = release_failed-Releases x in
        restored ne s (r.same_good ∙ a.same_good) (r.same_mode ∙ c)
          (IsRestored-same so d x (release_failed x) r.same_rig r.same_controller
            (IsRestored-same so d e x refl refl (k refl)))
          r.same_error r.released
  ]
  settle_failure-Ends so t d o (e, fails) ne off a =
      let off' = subst (λ l. AllOff l) (sym a.same_leds) off in
      if_given_up so t d o (ltb e.last_good_mode (length (modes e))) _ _
        (given_up_from so t d o
          (set_submode_at e.last_good_mode e.last_good_submode (record e { apply_error = true })) ne
          (a.why refl) a.same_good refl off')
        (given_up_from so t d o (record e { apply_error = true }) ne (a.why refl) a.same_good refl
          off')
  settle_failure-Ends so t d o (e, panics) ne off a = elim a.how [
    | inl h ↦ cc
    | inr (s, c, k) ↦ died ne s refl
  ]

  -- The daemon that a rollback starts from: only the LEDs differ.
  abbrev darkened : Daemon W → Daemon W
  darkened d = turn_off_all_leds (record d { apply_done = true })

  IsRestored-darkened :
      (so : Bool) (d d' : Daemon W)
      → IsRestored driver so (darkened d) d'
      → IsRestored driver so d d'
  unfolding turn_off_all_leds
  IsRestored-darkened true d d' h = h
  IsRestored-darkened false d d' h = h

  IsRefused-darkened :
      (so : Bool) (d : Daemon W) → IsRefused driver so (darkened d) → IsRefused driver so d
  unfolding turn_off_all_leds
  IsRefused-darkened true d h = h
  IsRefused-darkened false d h = h

  IsGivenUp-darkened :
      (so : Bool) (t : ApplyTarget) (d : Daemon W)
      → IsGivenUp driver so t (darkened d)
      → IsGivenUp driver so t d
  unfolding turn_off_all_leds
  IsGivenUp-darkened so t d (inl h) = inl h
  IsGivenUp-darkened so t d (inr (inl h)) = inr (inl h)
  IsGivenUp-darkened so t d (inr (inr h)) = inr (inr (IsRefused-darkened so d h))

  Ends-darkened :
      (so : Bool) (t : ApplyTarget) (d : Daemon W) (o : Outcome) (d' : Daemon W)
      → Ends driver so t (darkened d) o d'
      → Ends driver so t d o d'
  unfolding turn_off_all_leds
  Ends-darkened so t d o d' (committed s h1 h2 h3 h4 h5) = committed s h1 h2 h3 h4 h5
  Ends-darkened so t d o d' (restored n s h1 h2 h3 h4 h5) =
      restored n s h1 h2 (IsRestored-darkened so d d' h3) h4 h5
  Ends-darkened so t d o d' (given_up n why h1 h2 h3 h4) =
      given_up n (IsGivenUp-darkened so t d why) h1 h2 h3 h4
  Ends-darkened so t d o d' (died n s h) = died n s h

  -- A failed apply of `target` ends in one of three ways, and the last good mode stays what it was.
  -- It is restored: it is the current mode again, its last good submode was selected, and the
  -- reconfiguration of its function, or else the rebuild of the gadget with only that function and
  -- its enabling, left the system without an error. Or all LEDs go off and the error is shown; then
  -- no rollback is allowed, the last good mode does not exist, or one of these calls failed. In both
  -- cases the switch is released. Or a panic of the rollback ends the process. The first and the last
  -- happen only where `should_rollback` allows a rollback.
  pub handle_apply_failure-Ends :
      (target : ApplyTarget) (submode_only : Bool) (d : Daemon W) (o : Outcome)
      → o ≢ succeeds
      → Ends driver submode_only target d o (handle_apply_failure driver target submode_only d)
  unfolding handle_apply_failure turn_off_all_leds
  handle_apply_failure-Ends target submode_only d o ne = Ends-darkened submode_only target d o _ (
      settle_failure-Ends submode_only target (darkened d) o _ ne (turned_off d.interpreters)
        (try_rollback-Attempt driver target submode_only (darkened d)))

  pub conclude_enable-Ends :
      (t : ApplyTarget) (p : Daemon W × Outcome)
      → Ends driver false t p.0 p.1 (conclude_enable driver t p)
  unfolding conclude_enable commit_mode display_mode_state set_current_led turn_off_all_leds
  conclude_enable-Ends t (e, succeeds) =
      committed refl (ground arith) (ground arith) (ground arith) (ground arith) (ground arith)
  conclude_enable-Ends t (e, fails) = handle_apply_failure-Ends t false e fails (λ x. cc)
  conclude_enable-Ends t (e, panics) = handle_apply_failure-Ends t false e panics (λ x. cc)
