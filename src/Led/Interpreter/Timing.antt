-- ===== src/Led/Interpreter/Timing.antt =====
-- core/led/interpreter.go: the bounds of the index, and how long the indication at the entry to the
-- submode selection lasts.
use wifi_stick_usb_switcher.Prelude.{
  ℕ, ◌<◌, Bool, true, false, Option, none, some, ◌≡◌, refl, ◌⊎◌, inl, inr, arith,
}
use wifi_stick_usb_switcher.Prelude.Int.{ℤ, ltb_ℤ, pos, negsuc, pos_part, ◌+ℤ◌, ◌≤ℤ◌, int_laws}
use wifi_stick_usb_switcher.Led.Mode.{LedMode, LedDriver, new_led_mode, off, wait, done}
use wifi_stick_usb_switcher.Led.Interpreter.{LedInterpreter, normalize_action_index, tick, set_mode}

-- For every index, negative ones included, the normalised index of a mode with actions is one of
-- its actions.
pub normalize_action_index_bounds :
    (it : LedInterpreter)
    → 0 < it.mode_actions_length
    → let i = (normalize_action_index it).mode_action_index in
      (pos 0 ≤ℤ i) × (pos_part i < it.mode_actions_length)
unfolding normalize_action_index ◌+ℤ◌
normalize_action_index_bounds it h = ground arith

-- The LED takes every write.
pub record Succeeds {W : Type 0} (driver : LedDriver W) : Type 0 where
  pub trigger_ok : (w : W) → (driver.set_trigger_none w).1 ≡ false
  pub brightness_ok : (b : ℕ) (w : W) → (driver.set_brightness b w).1 ≡ false

-- The indication at the entry to the submode selection: off, then wait.
abbrev pub entry_mode : ℤ → LedMode
entry_mode d = done (wait d (off new_led_mode))

module _ {W : Type 0} (driver : LedDriver W) where
  -- `it` is reached from `SetMode(m)` by ticks at times that do not decrease, from `t0` to `t`.
  pub data Plays (m : LedMode) (t0 : ℤ) : ℤ → LedInterpreter → Type 0 where
    starts : (old : LedInterpreter) → Plays m t0 t0 (set_mode m old)
    ticks :
        {t : ℤ} {it : LedInterpreter} (t' : ℤ) (w : W)
        → Plays m t0 t it
        → t ≤ℤ t'
        → Plays m t0 t' (tick driver t' w it).1

  -- The interpreter while it plays the indication for the first time.
  abbrev playing : ℤ → Bool → ℤ → Option ℤ → ℤ → Bool → Bool → LedInterpreter
  playing d init index next loops loop running = record {
    mode = entry_mode d;
    init = init;
    mode_action_index = index;
    mode_actions_length = 2;
    next_action_time = next;
    loop_count = loops;
    loop = loop;
    running = running;
  }

  -- How far the indication has come, at the time `t` of the last tick.
  data Phase (d t0 t : ℤ) (it : LedInterpreter) : Type 0 where
    fresh :
        (l r : Bool) → it ≡ playing d false (pos 0) none (negsuc 0) l r → t0 ≤ℤ t → Phase d t0 t it
    dark : (l r : Bool) → it ≡ playing d true (pos 1) none (pos 0) l r → t0 ≤ℤ t → Phase d t0 t it
    waiting :
        (u : ℤ) (l r : Bool)
        → it ≡ playing d true (pos 0) (some u) (pos 0) l r
        → t0 +ℤ d ≤ℤ u
        → Phase d t0 t it
    over : t0 +ℤ d ≤ℤ t → Phase d t0 t it

  tick-fresh :
      (ok : Succeeds driver) (d t : ℤ) (w : W) (l r : Bool)
      → (tick driver t w (playing d false (pos 0) none (negsuc 0) l r)).1
        ≡ playing d true (pos 1) none (pos 0) l r
  unfolding tick ◌+ℤ◌
  tick-fresh ok d t w l r =
      ground (arith, ok.trigger_ok w, ok.brightness_ok 0 (driver.set_trigger_none w).0)

  tick-dark :
      (d t : ℤ) (w : W) (l r : Bool)
      → (tick driver t w (playing d true (pos 1) none (pos 0) l r)).1
        ≡ playing d true (pos 0) (some (t +ℤ d)) (pos 0) l r
  unfolding tick ◌+ℤ◌
  tick-dark d t w l r = refl

  tick-waiting :
      (d t u : ℤ) (w : W) (l r : Bool)
      → ltb_ℤ t u ≡ true
      → (tick driver t w (playing d true (pos 0) (some u) (pos 0) l r)).1
        ≡ playing d true (pos 0) (some u) (pos 0) l r
  unfolding tick
  tick-waiting d t u w l r h = rw h

  ltb_ℤ-cases : (a b : ℤ) → (ltb_ℤ a b ≡ true) ⊎ (b ≤ℤ a)
  ltb_ℤ-cases a b = grind arith

  tick-Phase :
      (ok : Succeeds driver) (d t0 t t' : ℤ) (w : W) (it : LedInterpreter)
      → t ≤ℤ t'
      → Phase d t0 t it
      → Phase d t0 t' (tick driver t' w it).1
  tick-Phase ok d t0 t t' w it h (fresh l r e k) =
      dark l r (rw e (tick-fresh ok d t' w l r)) (omega arith)
  tick-Phase ok d t0 t t' w it h (dark l r e k) =
      waiting (t' +ℤ d) l r (rw e (tick-dark d t' w l r)) (omega int_laws)
  tick-Phase ok d t0 t t' w it h (waiting u l r e k) = elim (ltb_ℤ-cases t' u) [
    | inl early ↦ waiting u l r (rw e (tick-waiting d t' u w l r early)) k
    | inr late ↦ over (omega int_laws)
  ]
  tick-Phase ok d t0 t t' w it h (over k) = over (omega int_laws)

  Plays-Phase :
      (ok : Succeeds driver) (d t0 : ℤ) {t : ℤ} {it : LedInterpreter}
      → Plays (entry_mode d) t0 t it
      → Phase d t0 t it
  unfolding set_mode
  Plays-Phase ok d t0 (starts old) = fresh old.running old.running refl (omega arith)
  Plays-Phase ok d t0 (ticks {t} {it} t' w p h) =
      tick-Phase ok d t0 t t' w it h (Plays-Phase ok d t0 p)

  Phase_over :
      (d t0 t : ℤ) (it : LedInterpreter) → Phase d t0 t it → pos 1 ≤ℤ it.loop_count → t0 +ℤ d ≤ℤ t
  Phase_over d t0 t it (fresh l r e k) h = absurd (omega (arith, rw e at h))
  Phase_over d t0 t it (dark l r e k) h = absurd (omega (arith, rw e at h))
  Phase_over d t0 t it (waiting u l r e k) h = absurd (omega (arith, rw e at h))
  Phase_over d t0 t it (over k) h = k

  -- Where the LED takes every write and the clock does not go back, a loop count of 1 or more after
  -- `SetMode` of the entry indication shows that its duration `d` has passed.
  pub entry_duration :
      (ok : Succeeds driver) (d t0 : ℤ) {t : ℤ} {it : LedInterpreter}
      → Plays (entry_mode d) t0 t it
      → pos 1 ≤ℤ it.loop_count
      → t0 +ℤ d ≤ℤ t
  entry_duration ok d t0 {t} {it} p h = Phase_over d t0 t it (Plays-Phase ok d t0 p) h
