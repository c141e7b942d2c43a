-- ===== src/Tests/Led.antt =====
-- The theorems on the LED interpreter, on the indication of the entry and on a LED that is gone.
use wifi_stick_usb_switcher.Prelude.{ℕ, ◌<◌, true, false, [], ◌∷◌, none, ◌≡◌, refl, arith}
use wifi_stick_usb_switcher.Prelude.Int.{ℤ, pos, pos_part, negsuc, ◌≤ℤ◌, ◌+ℤ◌}
use wifi_stick_usb_switcher.Led.Mode.{LedMode, LedDriver, mode_action_on, apply_action}
use wifi_stick_usb_switcher.Led.Interpreter.{
  LedInterpreter, normalize_action_index, loop_turn, sleeps, tick, set_mode, due_action, act,
  after_action, count_loop, init_mode, skip_action, current_action,
}
use wifi_stick_usb_switcher.Led.Interpreter.Timing.{
  Succeeds, entry_mode, starts, ticks, normalize_action_index_bounds, entry_duration,
}
use wifi_stick_usb_switcher.Led.Interpreter.Refusal.{loop_turn_refused}

abbrev lit : LedDriver ℕ
lit = record {
  set_trigger_none = λ w. (w, false);
  get_max_brightness = λ w. 255;
  set_brightness = λ b w. (b, false);
}

abbrev gone : LedDriver ℕ
gone = record {
  set_trigger_none = λ w. (w, true);
  get_max_brightness = λ w. 255;
  set_brightness = λ b w. (w, true);
}

lit-Succeeds : Succeeds lit
lit-Succeeds = record { trigger_ok = λ w. refl; brightness_ok = λ b w. refl }

abbrev blinking : LedMode
blinking = record {
  actions =
      record { action = mode_action_on; duration = pos 0 }
      ∷ record { action = mode_action_on; duration = pos 0 }
      ∷ [];
}

abbrev interpreter : LedMode → ℤ → LedInterpreter
interpreter mode index = record {
  mode = mode;
  init = true;
  mode_action_index = index;
  mode_actions_length = 2;
  next_action_time = none;
  loop_count = pos 0;
  loop = true;
  running = true;
}

normalize_action_index_bounds_example :
    let i = (normalize_action_index (interpreter blinking (negsuc 4))).mode_action_index in
    (pos 0 ≤ℤ i) × (pos_part i < 2)
normalize_action_index_bounds_example =
    normalize_action_index_bounds (interpreter blinking (negsuc 4)) (omega arith)

loop_turn_refused_example :
    let (w', it', next) = loop_turn gone false (pos 7) 0 (interpreter blinking (pos 1)) in
    (next ≡ sleeps (pos 0)) × (it'.mode_action_index ≡ pos 1) × (it'.next_action_time ≡ none)
loop_turn_refused_example =
    loop_turn_refused gone (λ w. refl) (pos 7) 0 (interpreter blinking (pos 1)) 1
      (record { action = mode_action_on; duration = pos 0 }) refl refl (omega arith) refl refl
      (omega arith) refl (λ e. cc)

abbrev played : LedInterpreter
played = set_mode (entry_mode (pos 5)) (interpreter blinking (pos 0))

-- The counter stands at 1 in the turn after the wait.
played_long :
    pos 1
    ≤ℤ (tick lit
        (pos 5)
        0
        (tick lit (pos 5) 0 (tick lit (pos 0) 0 (tick lit (pos 0) 0 played).1).1).1).1.loop_count
unfolding tick set_mode due_action act after_action normalize_action_index count_loop apply_action
    init_mode skip_action current_action ◌+ℤ◌
played_long = omega arith

entry_duration_example : pos 0 +ℤ pos 5 ≤ℤ pos 5
entry_duration_example =
    entry_duration lit lit-Succeeds (pos 5) (pos 0)
      (ticks (pos 5) 0
        (ticks (pos 5) 0
          (ticks (pos 0) 0 (ticks (pos 0) 0 (starts (interpreter blinking (pos 0))) (omega arith))
            (omega arith))
          (omega arith))
        (omega arith))
      played_long
