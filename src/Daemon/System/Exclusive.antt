-- ===== src/Daemon/System/Exclusive.antt =====
-- The mode switch: it is taken exactly while one apply is under way.
use wifi_stick_usb_switcher.Prelude.{
  ℕ, suc, Bool, true, false, List, ◌∷◌, ◌++◌, Option, none, some, ◌≡◌, refl, sym, inl, inr, ◌⊎◌,
  if◌then◌else◌, length, length-append, arith,
}
use mathlib.Core.Path.{subst}
use wifi_stick_usb_switcher.Prelude.Int.{ℤ, ◌+ℤ◌}
use wifi_stick_usb_switcher.Usb.Controller.{Driver, Outcome, succeeds, fails, panics}
use wifi_stick_usb_switcher.Daemon.State.{Daemon}
use wifi_stick_usb_switcher.Daemon.Leds.{display_mode_state, set_turn_off_leds}
use wifi_stick_usb_switcher.Daemon.Apply.{
  Job, begin_apply, reconfigure, rebuild, conclude_rebuild, work_apply, finish_apply,
}
use wifi_stick_usb_switcher.Daemon.System.{
  Task, starting, working, finishing, System, Step, woken, received, began, worked, finished,
  device_changed, requested, indicated, leds_set, Run, still, next, end_indication,
}
use wifi_stick_usb_switcher.Daemon.System.Control.{control, if_control, display_mode_state-control}
use wifi_stick_usb_switcher.Daemon.System.Settle.{
  begin_apply-control, rebuild-control, reconfigure-control, handle_apply_failure-Settled,
  conclude_reconfigure-Settled, finish_apply-Settled,
}
use wifi_stick_usb_switcher.Daemon.Apply.{send_rebind}
use wifi_stick_usb_switcher.Daemon.System.Balance.{
  held, taken_le, IsBalanced, IsExclusive, Settled-balance, turn-IsExclusive, received-IsBalanced,
}

without_task : (ts us : List Task) (t : Task) → length (ts ++ t ∷ us) ≡ suc (length (ts ++ us))
without_task ts us t = omega (arith, length-append ts (t ∷ us), length-append ts us)

held-send_rebind : (t : ℤ) (o : Option ℤ) → held (send_rebind t o) ≡ 1
held-send_rebind t none = refl
held-send_rebind t (some u) = refl

module _ {W : Type 0} where
  -- Behind a step: the process is dead, or the switch is taken exactly while one apply is under way.
  abbrev Settles : ℕ → Daemon W → Type 0
  Settles n d = (d.crashed ≡ true) ⊎ IsBalanced (control d) n

  if_Settles :
      (n : ℕ) (b : Bool) (x y : Daemon W)
      → Settles n x
      → Settles n y
      → Settles n (if b then x else y)
  if_Settles n true x y hx hy = hx
  if_Settles n false x y hx hy = hy

  begin_apply-IsBalanced :
      (d : Daemon W) (n : ℕ)
      → IsBalanced (control d) (suc n)
      → IsBalanced (control (begin_apply d).0) (suc n)
  begin_apply-IsBalanced d n b =
      subst (λ c. IsBalanced c (suc n)) (sym (begin_apply-control d))
        (let limit = taken_le d.mode_changing in ground arith)

  end_indication-control : (d : Daemon W) → control (end_indication d) ≡ control d
  unfolding end_indication
  end_indication-control d =
      if_control d.apply_done (display_mode_state _) _ (display_mode_state-control _) refl

  set_turn_off_leds-control :
      (off : Bool) (d : Daemon W) → control (set_turn_off_leds off d) ≡ control d
  unfolding set_turn_off_leds
  set_turn_off_leds-control off d = display_mode_state-control _

  -- The goroutine `t` is gone from the list.
  left :
      (ts us : List Task) (t : Task) (d d' : Daemon W)
      → IsBalanced (control d) (length (ts ++ t ∷ us))
      → (IsBalanced (control d) (suc (length (ts ++ us))) → Settles (length (ts ++ us)) d')
      → IsExclusive (record { daemon = d'; tasks = ts ++ us })
  unfolding IsExclusive
  left ts us t d d' b f = f (subst (λ l. IsBalanced (control d) l) (without_task ts us t) b)

  module _ (driver : Driver W) where
    conclude_rebuild-Settles :
        (now : ℤ) (job : Job) (p : Daemon W × Outcome) (n : ℕ)
        → IsBalanced (control p.0) (suc n)
        → Settles n (conclude_rebuild driver now job p)
    unfolding conclude_rebuild
    conclude_rebuild-Settles now job (d, succeeds) n b =
        let limit = taken_le d.mode_changing in
        let sent = held-send_rebind (now +ℤ d.rebind_delay) d.rebind_chan in inr (ground arith)
    conclude_rebuild-Settles now job (d, fails) n b =
        Settled-balance _ _ n (handle_apply_failure-Settled driver job.target false d) b
    conclude_rebuild-Settles now job (d, panics) n b =
        Settled-balance _ _ n (handle_apply_failure-Settled driver job.target false d) b

    work_apply-Settles :
        (now : ℤ) (job : Job) (d : Daemon W) (n : ℕ)
        → IsBalanced (control d) (suc n)
        → Settles n (work_apply driver now job d)
    unfolding work_apply
    work_apply-Settles now job d n b =
        if_Settles n job.submode_only _ _
          (Settled-balance _ _ n
            (conclude_reconfigure-Settled driver job (reconfigure driver job.target.mode d))
            (subst (λ c. IsBalanced c (suc n)) (sym (reconfigure-control driver job.target.mode d))
              b))
          (conclude_rebuild-Settles now job (rebuild driver job.target.mode d) n
            (subst (λ c. IsBalanced c (suc n)) (sym (rebuild-control driver job.target.mode d)) b))

    Step-IsExclusive :
        (s t : System W)
        → IsBalanced (control s.daemon) (length s.tasks)
        → Step driver s t
        → IsExclusive t
    unfolding IsExclusive
    Step-IsExclusive s t b (woken now d ts) = turn-IsExclusive now ts d b
    Step-IsExclusive s t b (received now deadline d ts e) =
        turn-IsExclusive now ts _ (received-IsBalanced deadline d (length ts) e b)
    Step-IsExclusive s t b (began d ts us) =
        let counted = subst (λ l. IsBalanced (control d) l) (without_task ts us starting) b in
        inr (
          subst (λ l. IsBalanced (control (begin_apply d).0) l)
            (sym (without_task ts us (working (begin_apply d).1)))
            (begin_apply-IsBalanced d _ counted))
    Step-IsExclusive s t b (worked now job d ts us) =
        left ts us (working job) d (work_apply driver now job d) b (work_apply-Settles now job d _)
    Step-IsExclusive s t b (finished d ts us) =
        left ts us finishing d (finish_apply driver d) b
          (Settled-balance _ _ _ (finish_apply-Settled driver d))
    Step-IsExclusive s t b (device_changed device d ts) = inr b
    Step-IsExclusive s t b (requested raw d ts) = inr b
    Step-IsExclusive s t b (indicated d ts) =
        inr (subst (λ c. IsBalanced c (length ts)) (sym (end_indication-control d)) b)
    Step-IsExclusive s t b (leds_set off d ts) =
        inr (subst (λ c. IsBalanced c (length ts)) (sym (set_turn_off_leds-control off d)) b)

    -- In every run that starts so, while the process lives, exactly one apply is under way if the
    -- mode switch is taken, and none if it is free: two applies never run at once, a deadline is
    -- never sent into a full channel, and the switch is never left taken with nothing to release it.
    pub Run-IsExclusive : (s t : System W) → IsExclusive s → Run driver s t → IsExclusive t
    unfolding IsExclusive
    Run-IsExclusive s t e (still _) = e
    Run-IsExclusive s t e (next _ m _ alive step rest) = elim e [
      | inl dead ↦ cc
      | inr b ↦ Run-IsExclusive m t (Step-IsExclusive s m b step) rest
    ]
