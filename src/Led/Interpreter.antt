-- ===== src/Led/Interpreter.antt =====
-- core/led/interpreter.go: the state of a `LedInterpreter`, its methods, and one turn of its loop.
-- The LED's files are passed beside the interpreter; the lock makes each method one step.
pub mod Timing
pub mod Refusal
use wifi_stick_usb_switcher.Prelude.{
  ℕ, suc, ◌-◌, ◌%◌, ◌/◌, ◌^◌, Bool, true, false, not, ◌&&◌, ◌||◌, [], Option, none, some, length,
  get_elem?, if◌then◌else◌, ◌==◌,
}
use wifi_stick_usb_switcher.Prelude.Int.{ℤ, pos, negsuc, pos_part, sub_ℕ, ◌+ℤ◌, ltb_ℤ}
use wifi_stick_usb_switcher.Led.Mode.{
  LedMode, LedModeAction, mode_action_wait, LedError, LedDriver, Applied, apply_action,
}

-- `loop` is true while `mode_cancel` belongs to a running loop goroutine; the zero time is `none`.
pub record LedInterpreter : Type 0 where
  pub mode : LedMode
  pub init : Bool
  pub mode_action_index : ℤ
  pub mode_actions_length : ℕ
  pub next_action_time : Option ℤ
  pub loop_count : ℤ
  pub loop : Bool
  pub running : Bool

-- math.MaxInt on the 64-bit targets.
abbrev pub max_int : ℕ
max_int = 2 ^ 63 - 1

abbrev bool2uint : Bool → ℤ
bool2uint b = if b then pos 1 else pos 0

-- Go's `%` takes the sign of the dividend.
abbrev rem_ℤ : ℤ → ℕ → ℤ
rem_ℤ (pos a) n = pos (a % n)
rem_ℤ (negsuc a) n = sub_ℕ 0 (suc a % n)

abbrev is_zero : ℤ → Bool
is_zero (pos n) = n == 0
is_zero (negsuc n) = false

normalized : ℕ → ℤ → ℤ
normalized n i =
    if n == 0 then i else let r = rem_ℤ i n in if ltb_ℤ r (pos 0) then r +ℤ pos n else r

unfoldable pub normalize_action_index : LedInterpreter → LedInterpreter
unfolding normalized
normalize_action_index it = record it {
  mode_action_index = normalized it.mode_actions_length it.mode_action_index;
}

-- `SkipAction()` is `skip_action (pos 1)`.
unfoldable pub skip_action : ℤ → LedInterpreter → LedInterpreter
unfolding normalize_action_index
skip_action step it =
    normalize_action_index (record it { mode_action_index = it.mode_action_index +ℤ step })

-- Counts a loop when the first action is due, and keeps the count below overflow.
unfoldable pub count_loop : LedInterpreter → LedInterpreter
count_loop it =
    let n = it.loop_count +ℤ bool2uint (is_zero it.mode_action_index) in
    record it { loop_count = if ltb_ℤ n (pos (max_int / 2)) then n else pos (max_int / 4) }

abbrev pub before : ℤ → Option ℤ → Bool
before now none = false
before now (some t) = ltb_ℤ now t

unfoldable pub current_action : LedInterpreter → Option LedModeAction
current_action it = get_elem? it.mode.actions (pos_part it.mode_action_index)

abbrev set_next_action_time : Option ℤ → LedInterpreter → LedInterpreter
set_next_action_time none it = it
set_next_action_time (some t) it = record it { next_action_time = some t }

-- What the loop does after one turn: return, block until it is cancelled, or sleep.
pub data Next : Type 0 where
  returns parks : Next
  sleeps : ℤ → Next

abbrev is_wait : Option LedModeAction → Bool
is_wait none = false
is_wait (some a) = elim a.action [ mode_action_wait ↦ true | _ ↦ false ]

abbrev wait_of : Option LedModeAction → ℤ
wait_of none = pos 0
wait_of (some a) = elim a.action [ mode_action_wait ↦ a.duration | _ ↦ pos 0 ]

module _ {W : Type 0} (driver : LedDriver W) where
  unfoldable pub after_action : LedInterpreter → Applied W → W × LedInterpreter × Option LedError
  unfolding skip_action
  after_action it a = elim a.failure [
    | some e ↦ (a.led, set_next_action_time a.next_action_time it, some e)
    | none ↦ (a.led, skip_action (pos 1) (set_next_action_time a.next_action_time it), none)
  ]

  -- The index is in range where `mode_actions_length` is the length of the actions, which `SetMode`
  -- sees to; Go would panic elsewhere.
  unfoldable pub due_action : ℤ → W → LedInterpreter → W × LedInterpreter × Option LedError
  due_action now w it =
      let it' = count_loop (normalize_action_index it) in
      elim (current_action it') [
        | none ↦ (w, it', none)
        | some action ↦ after_action it' (apply_action driver now action w)
      ]

  unfoldable pub act : ℤ → W → LedInterpreter → W × LedInterpreter × Option LedError
  unfolding due_action normalize_action_index count_loop current_action apply_action after_action
  act now w it =
      if it.mode_actions_length == 0 || (it.mode_actions_length == 1 && it.init)
      then (w, it, none)
      else if before now it.next_action_time
      then (w, it, none)
      else due_action now w it

  mark_init : W × LedInterpreter × Option LedError → W × LedInterpreter × Option LedError
  mark_init (w, it, some e) = (w, it, some e)
  mark_init (w, it, none) = (w, record it { init = true }, none)

  unfoldable pub init_mode : ℤ → W → LedInterpreter → W × LedInterpreter × Option LedError
  unfolding act mark_init
  init_mode now w it = mark_init (act now w (record it { mode_action_index = pos 0 }))

  unfoldable pub tick : ℤ → W → LedInterpreter → W × LedInterpreter × Option LedError
  unfolding init_mode
  tick now w it = if not it.init then init_mode now w it else act now w it

  -- One turn of `loop`. `cancelled` is `ctx.Err() != nil`. The action that decides how long to sleep
  -- is the one before the turn's action is applied.
  unfoldable pub loop_turn : Bool → ℤ → W → LedInterpreter → W × LedInterpreter × Next
  unfolding tick normalize_action_index current_action
  loop_turn cancelled now w it =
      if not it.running || cancelled
      then (w, it, returns)
      else let it' = if it.mode_actions_length == 0 then it else normalize_action_index it in
        let action = if it.mode_actions_length == 0 then none else current_action it' in
        let (w', it'', _) = tick now w it' in
        let static_mode =
          it.mode_actions_length == 0 || (it.mode_actions_length == 1 && not (is_wait action)) in
        (w', it'', if static_mode then parks else sleeps (wait_of action))

unfoldable pub new_led_interpreter : LedInterpreter
new_led_interpreter = record {
  mode = record { actions = [] };
  init = false;
  mode_action_index = pos 0;
  mode_actions_length = 0;
  next_action_time = none;
  loop_count = pos 0;
  loop = false;
  running = false;
}

-- A running interpreter cancels its loop and starts a fresh one; a stopped one has none.
unfoldable pub set_mode : LedMode → LedInterpreter → LedInterpreter
set_mode mode it = record {
  mode = mode;
  init = false;
  mode_action_index = pos 0;
  mode_actions_length = length mode.actions;
  next_action_time = none;
  loop_count = negsuc 0;
  loop = it.running;
  running = it.running;
}

abbrev pub get_loop_count : LedInterpreter → ℤ
get_loop_count it = it.loop_count

abbrev pub reset_loop_count : LedInterpreter → LedInterpreter
reset_loop_count it = record it { loop_count = pos 0 }

unfoldable pub start : LedInterpreter → LedInterpreter
start it = if it.running then it else record it { running = true; loop = true }

unfoldable pub stop : LedInterpreter → LedInterpreter
stop it = if not it.running then it else record it { running = false; loop = false }
