-- ===== src/Daemon/Apply/Restoring.antt =====
-- core/daemon/daemon.go, rollback_mode and rollback_submode: what a rollback that succeeds has done.
use wifi_stick_usb_switcher.Prelude.{
  Bool, true, false, not, ◌≡◌, refl, ap, inl, inr, arith, ◌⊎◌, [], ◌∷◌, if◌then◌else◌, ltb, length,
}
use wifi_stick_usb_switcher.Usb.Controller.{
  Driver, Rig, Outcome, succeeds, fails, panics, Applied, returned, panicked, clear_functions,
  add_function, apply_functions, enable, reconfigure_function,
}
use wifi_stick_usb_switcher.Daemon.State.{
  Daemon, ApplyTarget, modes, set_current_mode, set_submode_at,
}
use wifi_stick_usb_switcher.Daemon.Apply.{
  outcome_of, should_rollback, restore_mode, last_good, rebuild, enable_gadget, then_enable,
  rollback_mode, rollback_submode, try_rollback,
}

module _ {W : Type 0} (driver : Driver W) where
  -- The functions with the last good submode selected again in the last good mode.
  abbrev pub good_rig : Daemon W → Rig W
  good_rig d = (set_submode_at d.last_good_mode d.last_good_submode d).rig

  -- `d'` has the system and the functions that the restoring calls leave, and the calls succeeded:
  -- for a submode, the last good function was reconfigured in the last good submode; else the gadget
  -- was rebuilt with only that function in it, and enabled.
  abbrev pub IsRestored : Bool → Daemon W → Daemon W → Type 0
  IsRestored true d d' =
      reconfigure_function driver d.last_good_mode (good_rig d) ≡ (d'.rig, succeeds)
  IsRestored false d d' =
      let (rig, c) = add_function d.last_good_mode (good_rig d) (clear_functions d.controller) in
      (built : Rig W) × (apply_functions driver c rig ≡ (built, returned []))
      × (enable driver c built ≡ (d'.rig, returned []))
      × (d'.controller ≡ c)

  -- One of those calls ended in an error.
  abbrev pub IsRefused : Bool → Daemon W → Type 0
  IsRefused true d = (reconfigure_function driver d.last_good_mode (good_rig d)).1 ≡ fails
  IsRefused false d =
      let (rig, c) = add_function d.last_good_mode (good_rig d) (clear_functions d.controller) in
      let (built, applied) = apply_functions driver c rig in
      (outcome_of applied ≡ fails)
      ⊎ ((applied ≡ returned []) × (outcome_of (enable driver c built).1 ≡ fails))

  -- Why nothing was restored: no rollback is allowed, there is no such mode, or a call failed.
  abbrev pub IsGivenUp : Bool → ApplyTarget → Daemon W → Type 0
  IsGivenUp submode_only target d =
      (should_rollback (length (modes d)) target (last_good d) ≡ false)
      ⊎ (ltb d.last_good_mode (length (modes d)) ≡ false)
      ⊎ IsRefused submode_only d

module _ {W : Type 0} (driver : Driver W) (so : Bool) where
  -- What a rollback, tried or not, leaves of `d`.
  pub record Attempt (target : ApplyTarget) (d : Daemon W) (p : Daemon W × Outcome) : Type 0 where
    pub same_good : last_good p.0 ≡ last_good d
    pub same_leds : p.0.interpreters ≡ d.interpreters
    pub why : p.1 ≡ fails → IsGivenUp driver so target d
    pub how :
        (p.1 ≡ fails)
        ⊎ ((should_rollback (length (modes d)) target (last_good d) ≡ true)
            × (p.0.current_mode ≡ d.last_good_mode)
            × (p.1 ≡ succeeds → IsRestored driver so d p.0))

  if_Attempt :
      (t : ApplyTarget) (d : Daemon W) (b : Bool) (x y : Daemon W × Outcome)
      → (b ≡ true → Attempt t d x)
      → (b ≡ false → Attempt t d y)
      → Attempt t d (if b then x else y)
  if_Attempt t d true x y hx hy = hx refl
  if_Attempt t d false x y hx hy = hy refl

  not_tried : (t : ApplyTarget) (d : Daemon W) → IsGivenUp driver so t d → Attempt t d (d, fails)
  not_tried t d g = record { same_good = refl; same_leds = refl; why = λ e. g; how = inl refl }

outcome_lem : (a : Applied) → outcome_of a ≡ succeeds → a ≡ returned []
outcome_lem (returned []) e = refl
outcome_lem (returned (x ∷ xs)) e = absurd cc
outcome_lem panicked e = absurd cc

module _ {W : Type 0} (driver : Driver W) where
  enabled_lem :
      (d : Daemon W) (rig : Rig W) (a : Applied)
      → apply_functions driver d.controller rig ≡ (d.rig, a)
      → (then_enable driver (d, outcome_of a)).1 ≡ succeeds
      → (built : Rig W) × (apply_functions driver d.controller rig ≡ (built, returned []))
        × (enable driver d.controller built
            ≡ ((then_enable driver (d, outcome_of a)).0.rig, returned []))
        × ((then_enable driver (d, outcome_of a)).0.controller ≡ d.controller)
  unfolding enable_gadget
  enabled_lem d rig (returned []) e ok =
      let enabled = enable driver d.controller d.rig in
      (d.rig, e, ap (λ a. (enabled.0, a)) (outcome_lem enabled.1 ok), refl)
  enabled_lem d rig (returned (x ∷ xs)) e ok = absurd cc
  enabled_lem d rig panicked e ok = absurd cc

  refused_lem :
      (d : Daemon W) (a : Applied)
      → (then_enable driver (d, outcome_of a)).1 ≡ fails
      → (outcome_of a ≡ fails)
        ⊎ ((a ≡ returned []) × (outcome_of (enable driver d.controller d.rig).1 ≡ fails))
  unfolding enable_gadget
  refused_lem d (returned []) e = inr (refl, e)
  refused_lem d (returned (x ∷ xs)) e = inl refl
  refused_lem d panicked e = absurd cc

  then_enable-Attempt :
      (t : ApplyTarget) (d : Daemon W) (p : Daemon W × Outcome)
      → should_rollback (length (modes d)) t (last_good d) ≡ true
      → p.0.current_mode ≡ d.last_good_mode
      → last_good p.0 ≡ last_good d
      → p.0.interpreters ≡ d.interpreters
      → ((then_enable driver p).1 ≡ succeeds → IsRestored driver false d (then_enable driver p).0)
      → ((then_enable driver p).1 ≡ fails → IsRefused driver false d)
      → Attempt driver false t d (then_enable driver p)
  unfolding enable_gadget
  then_enable-Attempt t d (e, succeeds) s c g l k r = record {
    same_good = g;
    same_leds = l;
    why = λ e. inr (inr (r e));
    how = inr (s, c, k);
  }
  then_enable-Attempt t d (e, fails) s c g l k r = record {
    same_good = g;
    same_leds = l;
    why = λ e. inr (inr (r e));
    how = inr (s, c, k);
  }
  then_enable-Attempt t d (e, panics) s c g l k r = record {
    same_good = g;
    same_leds = l;
    why = λ e. inr (inr (r e));
    how = inr (s, c, k);
  }

  rollback_mode-Attempt :
      (t : ApplyTarget) (d : Daemon W)
      → should_rollback (length (modes d)) t (last_good d) ≡ true
      → Attempt driver false t d (rollback_mode driver d)
  unfolding rollback_mode rebuild restore_mode set_current_mode
  rollback_mode-Attempt t d s =
      let (rig, c) =
        add_function d.last_good_mode (good_rig driver d) (clear_functions d.controller) in
      let applied = apply_functions driver c rig in
      let built : Daemon W = record (restore_mode d) { rig = applied.0; controller = c } in
      if_Attempt driver false t d (not (ltb d.last_good_mode (length (modes d)))) _ _
        (λ e. not_tried driver false t d (inr (inl (ground arith))))
        (λ _.
          then_enable-Attempt t d (rebuild driver d.last_good_mode (restore_mode d)) s refl refl
            refl (λ ok. enabled_lem built rig applied.1 refl ok)
            (λ ko. refused_lem built applied.1 ko))

  rollback_submode-Attempt :
      (t : ApplyTarget) (d : Daemon W)
      → should_rollback (length (modes d)) t (last_good d) ≡ true
      → Attempt driver true t d (rollback_submode driver d)
  unfolding rollback_submode restore_mode set_current_mode
  rollback_submode-Attempt t d s =
      let again = reconfigure_function driver d.last_good_mode (good_rig driver d) in
      if_Attempt driver true t d (not (ltb d.last_good_mode (length (modes d)))) _ _
        (λ e. not_tried driver true t d (inr (inl (ground arith))))
        (λ _. record {
          same_good = refl;
          same_leds = refl;
          why = λ ko. inr (inr ko);
          how = inr (s, refl, λ ok. ap (λ o. (again.0, o)) ok);
        })

  pub try_rollback-Attempt :
      (t : ApplyTarget) (so : Bool) (d : Daemon W)
      → Attempt driver so t d (try_rollback driver t so d)
  unfolding try_rollback
  try_rollback-Attempt t so d =
      if_Attempt driver so t d (not (should_rollback (length (modes d)) t (last_good d))) _ _
        (λ e. not_tried driver so t d (inl (ground arith))) (λ e. tried so (ground arith))
    where
      tried :
          (so : Bool)
          → should_rollback (length (modes d)) t (last_good d) ≡ true
          → Attempt driver so t d (if so then rollback_submode driver d else rollback_mode driver d)
      tried true s = rollback_submode-Attempt t d s
      tried false s = rollback_mode-Attempt t d s
