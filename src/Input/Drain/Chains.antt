-- ===== src/Input/Drain/Chains.antt =====
-- The chains that `DrainEvents` reports: their length, and where a chain begins.
use wifi_stick_usb_switcher.Prelude.{
  ℕ, ◌≤◌, true, List, [], ◌∷◌, ◌++◌, ◌≡◌, inl, inr, arith, All, All-append, length, length-append,
  Bool-cases,
}
use wifi_stick_usb_switcher.Prelude.Int.{ℤ, pos, ltb_ℤ, ◌-ℤ◌, ◌≤ℤ◌}
use wifi_stick_usb_switcher.Input.Device.{InputEvent, input_tap, InputDevice, InputDeviceConfig}
use wifi_stick_usb_switcher.Input.Drain.{
  is_empty, last_of, merge_chain_events, flush, interrupts, chain_events, settle_chain,
  drain_events,
}

abbrev pub CountsAtMost : ℕ → InputEvent → Type 0
CountsAtMost n e = e.tap_count ≤ n

flush-CountsAtMost :
    (n : ℕ) (chain result : List InputEvent)
    → 1 ≤ n
    → length chain ≤ n
    → All (CountsAtMost n) result
    → All (CountsAtMost n) (flush chain result)
unfolding merge_chain_events
flush-CountsAtMost n [] result one h k = k
flush-CountsAtMost n (x ∷ []) result one h k = All-append (CountsAtMost n) result _ k (one, tt)
flush-CountsAtMost n (x ∷ y ∷ ys) result one h k = All-append (CountsAtMost n) result _ k (h, tt)

chain_events-CountsAtMost :
    (c : InputDeviceConfig) (events chain result : List InputEvent)
    → let n = c.multiple_tap_max_count in
      1 ≤ n
      → All (CountsAtMost n) events
      → length chain ≤ n
      → All (CountsAtMost n) result
      → let (chain', result') = chain_events c chain result events in
        (length chain' ≤ n) × All (CountsAtMost n) result'
unfolding chain_events
chain_events-CountsAtMost c [] chain result one q h k = (h, k)
chain_events-CountsAtMost c (e ∷ events) chain result one q h k =
    elim (Bool-cases (interrupts c chain e)) [
      | inl stop ↦
          rw (stop, chain_events)
            (chain_events-CountsAtMost c events [] _ one q.1 (omega arith) (
              All-append (CountsAtMost c.multiple_tap_max_count) _ _
                (flush-CountsAtMost _ chain result one h k) (q.0, tt)))
      | inr more ↦
          rw (more, chain_events)
            (chain_events-CountsAtMost c events (chain ++ e ∷ []) result one q.1
              (ground (arith, length-append chain (e ∷ []))) k)
    ]

settle-CountsAtMost :
    (now : ℤ) (n : ℕ) (chain result : List InputEvent) (d : InputDevice)
    → 1 ≤ n
    → length chain ≤ n
    → All (CountsAtMost n) result
    → All (CountsAtMost n) (settle_chain now chain result d).1
unfolding settle_chain
settle-CountsAtMost now n [] result d one h k = k
settle-CountsAtMost now n (x ∷ xs) result d one h k =
    elim (Bool-cases (ltb_ℤ d.config.multiple_tap_threshold (now -ℤ (last_of x xs).time))) [
      | inl late ↦ rw (late, settle_chain) (flush-CountsAtMost n (x ∷ xs) result one h k)
      | inr soon ↦ rw (soon, settle_chain) k
    ]

-- No returned event counts more taps than the configured maximum, if no queued event does.
pub drain_events-CountsAtMost :
    (now : ℤ) (d : InputDevice)
    → 1 ≤ d.config.multiple_tap_max_count
    → All (CountsAtMost d.config.multiple_tap_max_count) d.event_queue
    → All (CountsAtMost d.config.multiple_tap_max_count) (drain_events now d).1
unfolding drain_events
drain_events-CountsAtMost now d one q = elim (Bool-cases (is_empty d.event_queue)) [
  | inl empty ↦ rw (empty, drain_events) tt
  | inr queued ↦ elim (Bool-cases (ltb_ℤ d.config.multiple_tap_threshold (pos 0))) [
    | inl disabled ↦ rw (queued, disabled, drain_events) q
    | inr enabled ↦
        let loop = chain_events-CountsAtMost d.config d.event_queue [] [] one q (omega arith) tt in
        rw (queued, enabled, drain_events) (settle-CountsAtMost now _ _ _ _ one loop.0 loop.1)
  ]
]

-- A queued tap `a`, and a double tap `b`, `c` that begins after the threshold: `a` and `c` are
-- reported as taps and `b` between them as the tap that it is, so that no chain is reported.
pub late_double_tap :
    (now : ℤ) (d : InputDevice) (a b c : InputEvent)
    → d.event_queue ≡ a ∷ b ∷ c ∷ []
    → (a.type ≡ input_tap) × (b.type ≡ input_tap) × (c.type ≡ input_tap)
    → 2 ≤ d.config.multiple_tap_max_count
    → pos 0 ≤ℤ d.config.multiple_tap_threshold
    → ltb_ℤ d.config.multiple_tap_threshold (b.time -ℤ a.time) ≡ true
    → c.time -ℤ b.time ≤ℤ d.config.multiple_tap_threshold
    → ltb_ℤ d.config.multiple_tap_threshold (now -ℤ c.time) ≡ true
    → (drain_events now d).1
      ≡ record a { type = input_tap; tap_count = 1 }
        ∷ b
        ∷ record c { type = input_tap; tap_count = 1 }
        ∷ []
unfolding drain_events chain_events settle_chain merge_chain_events ◌-ℤ◌
late_double_tap now d a b c e t m z late close done = rw (e, chain_events) (ground arith)
