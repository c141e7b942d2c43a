-- ===== src/Input/Drain.antt =====
-- core/input/handler.go: `DrainEvents` and the merging of tap chains.
pub mod Taps
pub mod Chains
use wifi_stick_usb_switcher.Prelude.{
  Bool, true, false, not, ◌||◌, List, [], ◌∷◌, ◌++◌, leb, length, if◌then◌else◌,
}
use wifi_stick_usb_switcher.Prelude.Int.{ℤ, pos, ◌-ℤ◌, ltb_ℤ}
use wifi_stick_usb_switcher.Input.Device.{
  InputEvent, InputEventType, input_tap, input_multiple_tap, InputDevice, InputDeviceConfig,
  stop_multi_tap_timer, arm_multi_tap_timer,
}

abbrev pub is_tap : InputEventType → Bool
is_tap input_tap = true
is_tap _ = false

abbrev pub last_of : InputEvent → List InputEvent → InputEvent
last_of e [] = e
last_of _ (e ∷ es) = last_of e es

-- What `merge_chain_events` appends for the chain `first ∷ rest`.
unfoldable pub merge_chain_events : InputEvent → List InputEvent → InputEvent
merge_chain_events first [] = record first { type = input_tap; tap_count = 1 }
merge_chain_events first (e ∷ es) =
    let last = last_of e es in
    record last {
      type = input_multiple_tap;
      duration = last.time -ℤ first.time;
      tap_count = length (first ∷ e ∷ es);
    }

-- The chain, flushed into the result if there is one.
abbrev pub flush : List InputEvent → List InputEvent → List InputEvent
flush [] result = result
flush (first ∷ rest) result = result ++ merge_chain_events first rest ∷ []

-- More than the threshold has passed since the last event of the chain.
abbrev pub too_late : ℤ → ℤ → List InputEvent → Bool
too_late threshold t [] = false
too_late threshold t (first ∷ rest) = ltb_ℤ threshold (t -ℤ (last_of first rest).time)

abbrev pub interrupts : InputDeviceConfig → List InputEvent → InputEvent → Bool
interrupts c chain event =
    not (is_tap event.type)
    || too_late c.multiple_tap_threshold event.time chain
    || leb c.multiple_tap_max_count (length chain)

-- The loop over the events: the chain that is left, and the result.
unfoldable pub chain_events :
    InputDeviceConfig
    → List InputEvent
    → List InputEvent
    → List InputEvent
    → List InputEvent × List InputEvent
chain_events c chain result [] = (chain, result)
chain_events c chain result (event ∷ events) =
    let stop = interrupts c chain event in
    chain_events c (if stop then [] else chain ++ event ∷ [])
      (if stop then flush chain result ++ event ∷ [] else result) events

-- What is done with the chain that is left.
unfoldable pub settle_chain :
    ℤ → List InputEvent → List InputEvent → InputDevice → InputDevice × List InputEvent
settle_chain now [] result d = (d, result)
settle_chain now (first ∷ rest) result d =
    let threshold = d.config.multiple_tap_threshold in
    let passed = now -ℤ (last_of first rest).time in
    if ltb_ℤ threshold passed then (d, flush (first ∷ rest) result) else (
      arm_multi_tap_timer (threshold -ℤ passed)
          (record d { event_queue = d.event_queue ++ (first ∷ rest) }),
      result,
    )

abbrev pub is_empty : List InputEvent → Bool
is_empty [] = true
is_empty (_ ∷ _) = false

unfoldable pub drain_events : ℤ → InputDevice → InputDevice × List InputEvent
unfolding chain_events settle_chain
drain_events now d =
    if is_empty d.event_queue
    then (d, [])
    else let emptied = record d { event_queue = [] } in
      if ltb_ℤ d.config.multiple_tap_threshold (pos 0)
      then (emptied, d.event_queue)
      else let (chain, result) = chain_events d.config [] [] d.event_queue in
        settle_chain now chain result (stop_multi_tap_timer emptied)
