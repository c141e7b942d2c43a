-- ===== src/Input/Drain/Taps.antt =====
-- What `DrainEvents` keeps of the queued events: the number of taps, and all that is no tap.
use mathlib.Core.List.{append-nil, append_assoc}
use wifi_stick_usb_switcher.Prelude.{
  ℕ, ◌+◌, Bool, true, false, List, [], ◌∷◌, ◌++◌, ◌≡◌, refl, inl, inr, ◌∙◌, ap, arith, All,
  All-append, length, if◌then◌else◌, Bool-cases,
}
use wifi_stick_usb_switcher.Prelude.Int.{ℤ, pos, ltb_ℤ, ◌-ℤ◌}
use wifi_stick_usb_switcher.Input.Device.{
  InputEvent, InputEventType, input_tap, input_multiple_tap, InputDevice, InputDeviceConfig,
  arm_multi_tap_timer,
}
use wifi_stick_usb_switcher.Input.Drain.{
  is_empty, last_of, merge_chain_events, flush, interrupts, chain_events, settle_chain,
  drain_events,
}

-- How many taps an event reports.
abbrev weight : InputEventType → ℕ → ℕ
weight input_tap n = n
weight input_multiple_tap n = n
weight _ n = 0

abbrev pub taps : List InputEvent → ℕ
taps [] = 0
taps (e ∷ es) = weight e.type e.tap_count + taps es

abbrev is_press : InputEventType → Bool
is_press input_tap = true
is_press input_multiple_tap = true
is_press _ = false

-- The events that are neither a tap nor a chain of taps.
abbrev pub others : List InputEvent → List InputEvent
others [] = []
others (e ∷ es) = if is_press e.type then others es else e ∷ others es

-- A queued tap counts once, and no queued event is a chain.
abbrev IsQueuedType : InputEventType → ℕ → Type 0
IsQueuedType input_tap n = n ≡ 1
IsQueuedType input_multiple_tap n = ⊥
IsQueuedType _ n = Unit

abbrev pub IsQueued : InputEvent → Type 0
IsQueued e = IsQueuedType e.type e.tap_count

abbrev IsTapOnce : InputEvent → Type 0
IsTapOnce e = (e.type ≡ input_tap) × (e.tap_count ≡ 1)

pub taps-append : (xs ys : List InputEvent) → taps (xs ++ ys) ≡ taps xs + taps ys
taps-append [] ys = omega arith
taps-append (x ∷ xs) ys = omega (arith, taps-append xs ys)

pub others-append : (xs ys : List InputEvent) → others (xs ++ ys) ≡ others xs ++ others ys
others-append [] ys = refl
others-append (x ∷ xs) ys = ground (arith, others-append xs ys)

taps_chain : (xs : List InputEvent) → All IsTapOnce xs → taps xs ≡ length xs
taps_chain [] h = refl
taps_chain (x ∷ xs) h = ground (arith, taps_chain xs h.1)

others_chain : (xs : List InputEvent) → All IsTapOnce xs → others xs ≡ []
others_chain [] h = refl
others_chain (x ∷ xs) h = ground (arith, others_chain xs h.1)

taps-flush :
    (chain result : List InputEvent)
    → All IsTapOnce chain
    → taps (flush chain result) ≡ taps result + taps chain
unfolding merge_chain_events
taps-flush [] result h = omega arith
taps-flush (x ∷ []) result h = ground (arith, taps-append result (merge_chain_events x [] ∷ []))
taps-flush (x ∷ y ∷ ys) result h =
    ground (arith, taps-append result (merge_chain_events x (y ∷ ys) ∷ []), taps_chain ys h.1.1)

others-flush : (chain result : List InputEvent) → others (flush chain result) ≡ others result
unfolding merge_chain_events
others-flush [] result = refl
others-flush (x ∷ []) result = others-append result (merge_chain_events x [] ∷ []) ∙ append-nil _
others-flush (x ∷ y ∷ ys) result =
    others-append result (merge_chain_events x (y ∷ ys) ∷ []) ∙ append-nil _

others_cons :
    (e : InputEvent) (events : List InputEvent)
    → others (e ∷ []) ++ others events ≡ others (e ∷ events)
others_cons e events = ground arith

-- What the loop has kept when `events` are still to come.
record Kept (queue chain result events : List InputEvent) : Type 0 where
  once : All IsTapOnce chain
  same_taps : taps result + taps chain + taps events ≡ taps queue
  same_others : others result ++ others events ≡ others queue

module _ (queue chain result : List InputEvent) (e : InputEvent) (events : List InputEvent)
    (k : Kept queue chain result (e ∷ events)) where
  interrupted-Kept : Kept queue [] (flush chain result ++ e ∷ []) events
  interrupted-Kept = record {
    once = tt;
    same_taps = omega (
      arith,
      taps-append (flush chain result) (e ∷ []),
      taps-flush chain result k.once,
      k.same_taps,
    );
    same_others =
        ap (λ l. l ++ others events) (others-append (flush chain result) (e ∷ []))
        ∙ ap (λ l. (l ++ others (e ∷ [])) ++ others events) (others-flush chain result)
        ∙ append_assoc (others result) (others (e ∷ [])) (others events)
        ∙ ap (λ l. others result ++ l) (others_cons e events)
        ∙ k.same_others;
  }

  extended-Kept : IsTapOnce e → Kept queue (chain ++ e ∷ []) result events
  extended-Kept t = record {
    once = All-append IsTapOnce chain (e ∷ []) k.once (t, tt);
    same_taps = omega (arith, taps-append chain (e ∷ []), k.same_taps);
    same_others = ground (arith, k.same_others);
  }

tap_of_kept :
    (c : InputDeviceConfig) (chain : List InputEvent) (e : InputEvent)
    → IsQueued e
    → interrupts c chain e ≡ false
    → IsTapOnce e
tap_of_kept c chain e q h = ground arith

chain_events-Kept :
    (c : InputDeviceConfig) (queue events chain result : List InputEvent)
    → All IsQueued events
    → Kept queue chain result events
    → Kept queue (chain_events c chain result events).0 (chain_events c chain result events).1 []
unfolding chain_events
chain_events-Kept c queue [] chain result q k = k
chain_events-Kept c queue (e ∷ events) chain result q k = elim (Bool-cases (interrupts c chain e)) [
  | inl stop ↦
      rw (stop, chain_events)
        (chain_events-Kept c queue events [] (flush chain result ++ e ∷ []) q.1
          (interrupted-Kept queue chain result e events k))
  | inr more ↦
      rw (more, chain_events)
        (chain_events-Kept c queue events (chain ++ e ∷ []) result q.1
          (extended-Kept queue chain result e events k (tap_of_kept c chain e q.0 more)))
]

-- The taps and the other events of the queue that a drain leaves and of the events it returns.
pub record Conserved (before after returned : List InputEvent) : Type 0 where
  pub same_taps : taps after + taps returned ≡ taps before
  pub same_others : others returned ++ others after ≡ others before

queue-arm : (t : ℤ) (d : InputDevice) → (arm_multi_tap_timer t d).event_queue ≡ d.event_queue
queue-arm t d = ground arith

settle-Conserved :
    (now : ℤ) (d : InputDevice) (queue chain result : List InputEvent)
    → d.event_queue ≡ []
    → Kept queue chain result []
    → let (d', returned) = settle_chain now chain result d in
      Conserved queue d'.event_queue returned
unfolding settle_chain
settle-Conserved now d queue [] result e k =
    rw e (record { same_taps = omega (arith, k.same_taps); same_others = k.same_others })
settle-Conserved now d queue (x ∷ xs) result e k =
    elim (Bool-cases (ltb_ℤ d.config.multiple_tap_threshold (now -ℤ (last_of x xs).time))) [
      | inl late ↦
          rw (late, settle_chain)
            (rw e (record {
              same_taps = omega (arith, taps-flush (x ∷ xs) result k.once, k.same_taps);
              same_others = ap (λ l. l ++ []) (others-flush (x ∷ xs) result) ∙ k.same_others;
            }))
      | inr soon ↦
          rw (soon, settle_chain)
            (rw (queue-arm, e)
              (record {
                same_taps = omega (arith, k.same_taps);
                same_others =
                    ap (λ l. others result ++ l) (others_chain (x ∷ xs) k.once) ∙ k.same_others;
              }))
    ]

-- Draining the queue neither loses nor invents a tap, and the events that are neither taps nor
-- chains come out in their order, before those that stay queued. The queue holds single taps and
-- no chains, as the key handler and the button simulation fill it.
pub drain_events-Conserved :
    (now : ℤ) (d : InputDevice)
    → All IsQueued d.event_queue
    → Conserved d.event_queue (drain_events now d).0.event_queue (drain_events now d).1
unfolding drain_events
drain_events-Conserved now d q = elim (Bool-cases (is_empty d.event_queue)) [
  | inl empty ↦ rw (empty, drain_events) (record { same_taps = omega arith; same_others = refl })
  | inr queued ↦ elim (Bool-cases (ltb_ℤ d.config.multiple_tap_threshold (pos 0))) [
    | inl disabled ↦
        rw (queued, disabled, drain_events)
          (record { same_taps = omega arith; same_others = append-nil _ })
    | inr enabled ↦
        rw (queued, enabled, drain_events)
          (settle-Conserved now _ d.event_queue _ _ refl (
            chain_events-Kept d.config d.event_queue d.event_queue [] [] q
              (record { once = tt; same_taps = omega arith; same_others = refl })))
  ]
]
