-- ===== src/Daemon/System/Balance.antt =====
-- The applies under way against the mode switch, over a turn of the main loop.
use wifi_stick_usb_switcher.Prelude.{
  ℕ, suc, ◌+◌, ◌≤◌, Bool, true, false, List, [], ◌++◌, Option, none, some, ◌≡◌, refl, ap, ◌∙◌, sym,
  inl, inr, ◌⊎◌, if◌then◌else◌, length, map, length-map, length-append, arith,
}
use mathlib.Core.Path.{subst}
use wifi_stick_usb_switcher.Prelude.Int.{ℤ}
use wifi_stick_usb_switcher.Prelude.Text.{Bytes}
use wifi_stick_usb_switcher.Prelude.Result.{Result}
use wifi_stick_usb_switcher.Daemon.State.{Daemon, update_status}
use wifi_stick_usb_switcher.Daemon.Leds.{turn_off_all_leds, do_shutdown}
use wifi_stick_usb_switcher.Daemon.Requests.{RequestError, handle_gadget_requests}
use wifi_stick_usb_switcher.Daemon.Events.{
  Spawn, check_rebind, check_entry, check_change, begin_shutdown, drain_input, wants_shutdown,
  process_events, handle_events,
}
use wifi_stick_usb_switcher.Daemon.System.{Task, System, task_of, turn, receive_rebind}
use wifi_stick_usb_switcher.Daemon.System.Control.{
  Control, control, drain_input-control, handle_gadget_requests-control, check_entry-control,
}
use wifi_stick_usb_switcher.Daemon.System.Settle.{Settled}

abbrev pub taken : Bool → ℕ
taken true = 1
taken false = 0

abbrev pub held : Option ℤ → ℕ
held none = 0
held (some t) = 1

-- The applies under way: the goroutines, a deadline in the channel, and a deadline that is waited for.
abbrev pub under_way : Control → ℕ → ℕ
under_way c n = held c.rebind_chan + taken c.pending_enable + n

abbrev pub IsBalanced : Control → ℕ → Type 0
IsBalanced c n = under_way c n ≡ taken c.mode_changing

-- While the process lives, one apply is under way if the switch is taken, and none otherwise.
unfoldable pub IsExclusive : {W : Type 0} → System W → Type 0
IsExclusive s =
    (s.daemon.crashed ≡ true)
    ⊎ (under_way (control s.daemon) (length s.tasks) ≡ taken s.daemon.mode_changing)

pub taken_le : (b : Bool) → taken b ≤ 1
taken_le true = omega arith
taken_le false = omega arith

-- An apply that is over, with the deadline as it was, leaves none under way.
pub Settled-balance :
    (c c' : Control) (n : ℕ)
    → Settled c c'
    → IsBalanced c (suc n)
    → (c'.crashed ≡ true) ⊎ IsBalanced c' n
Settled-balance c c' n s b = elim s.released [
  | inl r ↦ inr (
      let chan = ap held s.same_chan in
      let enable = ap taken s.same_enable in
      let off = ap taken r in let limit = taken_le c.mode_changing in ground (arith))
  | inr r ↦ inl r
]

module _ {W : Type 0} where
  check_rebind-IsBalanced :
      (now : ℤ) (d : Daemon W) (n : ℕ)
      → IsBalanced (control d) n
      → IsBalanced (control (check_rebind now d).0) (length (check_rebind now d).1 + n)
  unfolding check_rebind
  check_rebind-IsBalanced now d n b = ground arith

  check_change-IsBalanced :
      (d : Daemon W) (n : ℕ)
      → IsBalanced (control d) n
      → IsBalanced (control (check_change d).0) (length (check_change d).1 + n)
  unfolding check_change turn_off_all_leds
  check_change-IsBalanced d n b = ground arith

  process_events-IsBalanced :
      (now : ℤ) (d : Daemon W) (n : ℕ)
      → IsBalanced (control d) n
      → IsBalanced (control (process_events now d).0) (length (process_events now d).1 + n)
  unfolding process_events
  process_events-IsBalanced now d n b =
      let drained = drain_input now d in
      let answered = (handle_gadget_requests drained).0 in
      check_change-IsBalanced (check_entry answered) n (
        subst (λ c. IsBalanced c n)
          (sym (
            check_entry-control answered
            ∙ handle_gadget_requests-control drained
            ∙ drain_input-control now d))
          b)

  begin_shutdown-control : (d : Daemon W) → control (begin_shutdown d) ≡ control d
  unfolding begin_shutdown do_shutdown update_status
  begin_shutdown-control d = refl

  update_status-control : (d : Daemon W) → control (update_status d) ≡ control d
  unfolding update_status
  update_status-control d = refl

  abbrev TurnIsBalanced : ℕ → Daemon W × List Spawn × List (Result RequestError Bytes) → Type 0
  TurnIsBalanced n t = IsBalanced (control t.0) (length t.1 + n)

  if_turn-IsBalanced :
      (b : Bool) (n : ℕ) (x y : Daemon W × List Spawn × List (Result RequestError Bytes))
      → TurnIsBalanced n x
      → TurnIsBalanced n y
      → TurnIsBalanced n (if b then x else y)
  if_turn-IsBalanced true n x y hx hy = hx
  if_turn-IsBalanced false n x y hx hy = hy

  -- The shape of a turn: what waits in the first phase is counted with the goroutines.
  turn_go_on :
      (now : ℤ) (d : Daemon W) (spawns : List Spawn) (n : ℕ)
      → IsBalanced (control d) (length spawns + n)
      → IsBalanced
          (control (process_events now d).0)
          (length (spawns ++ (process_events now d).1) + n)
  turn_go_on now d spawns n b =
      let more = (process_events now d).1 in
      subst (λ l. IsBalanced (control (process_events now d).0) l)
        (omega (arith, length-append spawns more))
        (process_events-IsBalanced now d (length spawns + n) b)

  handle_events-IsBalanced :
      (now : ℤ) (d : Daemon W) (n : ℕ)
      → IsBalanced (control d) n
      → TurnIsBalanced n (handle_events now d)
  unfolding handle_events
  handle_events-IsBalanced now d n b =
      let checked = check_rebind now (update_status d) in
      let d' = checked.0 in
      let processed = process_events now d' in
      let b' =
        check_rebind-IsBalanced now (update_status d) n
          (subst (λ c. IsBalanced c n) (sym (update_status-control d)) b) in
      let stop : Daemon W × List Spawn × List (Result RequestError Bytes) = (d', checked.1, []) in
      let shut : Daemon W × List Spawn × List (Result RequestError Bytes) =
        (begin_shutdown d', checked.1, []) in
      let go_on : Daemon W × List Spawn × List (Result RequestError Bytes) =
        (processed.0, checked.1 ++ processed.1, processed.2) in
      if_turn-IsBalanced d'.shutting_down n stop (if wants_shutdown now d' then shut else go_on) b'
        (if_turn-IsBalanced (wants_shutdown now d') n shut go_on
          (subst (λ c. IsBalanced c (length checked.1 + n)) (sym (begin_shutdown-control d')) b')
          (turn_go_on now d' checked.1 n b'))

  pub turn-IsExclusive :
      (now : ℤ) (ts : List Task) (d : Daemon W)
      → IsBalanced (control d) (length ts)
      → IsExclusive (turn now ts d)
  unfolding IsExclusive
  turn-IsExclusive now ts d b =
      let spawns = (handle_events now d).1 in
      let counted = length-append (map task_of spawns) ts in
      let mapped = length-map spawns task_of in
      inr (
        subst (λ l. IsBalanced (control (handle_events now d).0) l) (omega arith)
          (handle_events-IsBalanced now d (length ts) b))

  pub received-IsBalanced :
      (deadline : ℤ) (d : Daemon W) (n : ℕ)
      → d.rebind_chan ≡ some deadline
      → IsBalanced (control d) n
      → IsBalanced (control (receive_rebind deadline d)) n
  unfolding receive_rebind
  received-IsBalanced deadline d n e b =
      let chan = ap held e in let limit = taken_le d.mode_changing in ground arith
