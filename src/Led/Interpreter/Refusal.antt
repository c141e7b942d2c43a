-- ===== src/Led/Interpreter/Refusal.antt =====
-- core/led/interpreter.go: a turn of the loop where the LED refuses an action.
use native.Mathlib.Nat.{mod-eq_of_lt}
use wifi_stick_usb_switcher.Prelude.{ℕ, ◌<◌, true, false, none, some, ◌≡◌, ◌≢◌, arith, get_elem?}
use wifi_stick_usb_switcher.Prelude.Int.{ℤ, pos}
use wifi_stick_usb_switcher.Led.Mode.{
  LedModeAction, mode_action_wait, trigger_failed, LedDriver, apply_action,
}
use wifi_stick_usb_switcher.Led.Interpreter.{
  LedInterpreter, before, current_action, count_loop, due_action, after_action,
  normalize_action_index, loop_turn, sleeps,
}

-- One turn of the loop on a mode of several actions, where the LED refuses the next one.
normalize_in_range :
    (it : LedInterpreter) (i : ℕ)
    → it.mode_action_index ≡ pos i
    → i < it.mode_actions_length
    → normalize_action_index it ≡ it
unfolding normalize_action_index
normalize_in_range it i e h = ground (arith, mod-eq_of_lt h)

module _ {W : Type 0} (driver : LedDriver W)
    (refuses : (v : W) → (driver.set_trigger_none v).1 ≡ true) where
  apply_refused :
      (now : ℤ) (a : LedModeAction) (w : W)
      → a.action ≢ mode_action_wait
      → ((apply_action driver now a w).failure ≡ some trigger_failed)
        × ((apply_action driver now a w).next_action_time ≡ none)
  unfolding apply_action
  apply_refused now a w k = ground (arith, refuses w)

  module _ (now : ℤ) (w : W) (it : LedInterpreter) (i : ℕ) (a : LedModeAction)
      (e : it.mode_action_index ≡ pos i) (h : i < it.mode_actions_length)
      (g : get_elem? it.mode.actions i ≡ some a) (k : a.action ≢ mode_action_wait) where
    after_refused :
        (j : LedInterpreter)
        → after_action driver j (apply_action driver now a w)
          ≡ ((apply_action driver now a w).led, j, some trigger_failed)
    unfolding after_action
    after_refused j = ground (arith, apply_refused now a w k)

    g' : current_action (count_loop it) ≡ some a
    unfolding current_action count_loop
    g' = rw (e, g)

    due_refused :
        due_action driver now w it
        ≡ ((apply_action driver now a w).led, count_loop it, some trigger_failed)
    unfolding due_action
    due_refused = ground (arith, normalize_in_range it i e h, g', after_refused (count_loop it))

  -- Where the action that is due turns the LED on or off and its trigger cannot be set, the loop
  -- does not sleep before the next turn, and the next turn applies the same action again.
  pub loop_turn_refused :
      (now : ℤ) (w : W) (it : LedInterpreter) (i : ℕ) (a : LedModeAction)
      → it.running ≡ true
      → it.init ≡ true
      → 1 < it.mode_actions_length
      → before now it.next_action_time ≡ false
      → it.mode_action_index ≡ pos i
      → i < it.mode_actions_length
      → get_elem? it.mode.actions i ≡ some a
      → a.action ≢ mode_action_wait
      → let (w', it', next) = loop_turn driver false now w it in
        (next ≡ sleeps (pos 0))
        × (it'.mode_action_index ≡ pos i)
        × (it'.next_action_time ≡ it.next_action_time)
  unfolding loop_turn
  loop_turn_refused now w it i a r b n x e h g k =
      ground (arith, due_refused now w it i a e h g k, normalize_in_range it i e h)
