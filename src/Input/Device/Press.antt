-- ===== src/Input/Device/Press.antt =====
-- One press of the button, from KEY DOWN to KEY UP, with the long-tap timer firing in between.
use mathlib.Core.Path.{subst}
use wifi_stick_usb_switcher.Prelude.{
  true, false, List, [], ◌∷◌, ◌++◌, some, ◌≡◌, refl, sym, ◌⊎◌, inl, inr, arith, Bool-cases,
}
use wifi_stick_usb_switcher.Prelude.Int.{ℤ, ◌-ℤ◌, ltb_ℤ}
use wifi_stick_usb_switcher.Input.Device.{
  InputEvent, InputDevice, input_long_tap, new_event, push_back, signal_wake, key_down, key_up,
  long_tap_timer_fires, type_of,
}

-- The timer's function runs at each of the times.
pub fire_all : List ℤ → InputDevice → InputDevice
fire_all [] d = d
fire_all (t ∷ ts) d = fire_all ts (long_tap_timer_fires d.config.long_tap_threshold t d)

-- The button is held since `t0`, and either nothing was reported or one event `e` was.
record Holding (q : List InputEvent) (threshold t0 : ℤ) (d : InputDevice) : Type 0 where
  pressed : d.pressed ≡ true
  start : d.press_start ≡ some t0
  same_threshold : d.config.long_tap_threshold ≡ threshold
  reported :
      ((d.long_tap_reported ≡ false) × (d.event_queue ≡ q))
      ⊎ ((d.long_tap_reported ≡ true)
          × ((e : InputEvent) × (d.event_queue ≡ q ++ e ∷ [])
              × (e.type ≡ type_of e.duration threshold)
              × (e.duration ≡ e.time -ℤ t0)))

fire_reported :
    (threshold t : ℤ) (d : InputDevice)
    → d.long_tap_reported ≡ true
    → long_tap_timer_fires threshold t d ≡ d
unfolding long_tap_timer_fires
fire_reported threshold t d r = ground arith

fire_early :
    (threshold t t0 : ℤ) (d : InputDevice)
    → d.press_start ≡ some t0
    → ltb_ℤ (t -ℤ t0) threshold ≡ true
    → long_tap_timer_fires threshold t d ≡ d
unfolding long_tap_timer_fires
fire_early threshold t t0 d s early = ground arith

abbrev long_event : InputDevice → ℤ → ℤ → InputEvent
long_event d t t0 = new_event d.devnode t (t -ℤ t0) input_long_tap

fire_due :
    (threshold t t0 : ℤ) (d : InputDevice)
    → d.pressed ≡ true
    → d.long_tap_reported ≡ false
    → d.press_start ≡ some t0
    → ltb_ℤ (t -ℤ t0) threshold ≡ false
    → long_tap_timer_fires threshold t d
      ≡ signal_wake (push_back (long_event d t t0) (record d { long_tap_reported = true }))
unfolding long_tap_timer_fires
fire_due threshold t t0 d p r s due = rw (p, r, s, due)

fire-Holding :
    (q : List InputEvent) (threshold t0 t : ℤ) (d : InputDevice)
    → Holding q threshold t0 d
    → Holding q threshold t0 (long_tap_timer_fires threshold t d)
fire-Holding q threshold t0 t d h = elim h.reported [
  | inr r ↦ rw (fire_reported threshold t d r.0) h
  | inl r ↦ elim (Bool-cases (ltb_ℤ (t -ℤ t0) threshold)) [
    | inl early ↦ rw (fire_early threshold t t0 d h.start early) h
    | inr due ↦ rw (fire_due threshold t t0 d h.pressed r.0 h.start due) (record {
      pressed = h.pressed;
      start = h.start;
      same_threshold = h.same_threshold;
      reported = inr (refl, (long_event d t t0, rw r.1, rw due, refl));
    })
  ]
]

fire_all-Holding :
    (q : List InputEvent) (threshold t0 : ℤ) (ts : List ℤ) (d : InputDevice)
    → Holding q threshold t0 d
    → Holding q threshold t0 (fire_all ts d)
unfolding fire_all
fire_all-Holding q threshold t0 [] d h = h
fire_all-Holding q threshold t0 (t ∷ ts) d h = fire_all-Holding q threshold t0 ts _ (
    subst (λ x. Holding q threshold t0 (long_tap_timer_fires x t d)) (sym h.same_threshold)
      (fire-Holding q threshold t0 t d h))

key_down-Holding :
    (t0 : ℤ) (d : InputDevice)
    → d.pressed ≡ false
    → Holding d.event_queue d.config.long_tap_threshold t0 (key_down t0 d)
unfolding key_down
key_down-Holding t0 d p = record {
  pressed = ground arith;
  start = ground arith;
  same_threshold = ground arith;
  reported = inl (ground arith, ground arith);
}

-- The button is up again, and the press was reported by one event.
pub record Reported (q : List InputEvent) (threshold t0 : ℤ) (d : InputDevice) : Type 0 where
  pub released : d.pressed ≡ false
  pub not_reported : d.long_tap_reported ≡ false
  pub event : InputEvent
  pub queued : d.event_queue ≡ q ++ event ∷ []
  pub kind : event.type ≡ type_of event.duration threshold
  pub measured : event.duration ≡ event.time -ℤ t0

key_up-Reported :
    (q : List InputEvent) (threshold t0 t1 : ℤ) (d : InputDevice)
    → Holding q threshold t0 d
    → Reported q threshold t0 (key_up t1 d)
unfolding key_up
key_up-Reported q threshold t0 t1 d h = elim h.reported [
  | inr (r, (e, queued, kind, measured)) ↦
      rw (h.pressed, r)
        (record {
          released = refl;
          not_reported = refl;
          event = e;
          queued = queued;
          kind = kind;
          measured = measured;
        })
  | inl (r, queued) ↦
      rw (h.pressed, r, h.start, h.same_threshold)
        (record {
          released = refl;
          not_reported = refl;
          event = new_event d.devnode t1 (t1 -ℤ t0) (type_of (t1 -ℤ t0) threshold);
          queued = rw queued;
          kind = refl;
          measured = refl;
        })
]

-- A press of a button that is up is reported by exactly one event, whenever and as often as the
-- long-tap timer fires before the release: a long tap if the event's duration reaches the
-- threshold, and else a tap. Its duration is measured from KEY DOWN. Afterwards the button is up.
pub press-Reported :
    (t0 t1 : ℤ) (fires : List ℤ) (d : InputDevice)
    → d.pressed ≡ false
    → Reported d.event_queue d.config.long_tap_threshold t0
        (key_up t1 (fire_all fires (key_down t0 d)))
press-Reported t0 t1 fires d p =
    key_up-Reported _ _ t0 t1 _ (fire_all-Holding _ _ t0 fires _ (key_down-Holding t0 d p))
