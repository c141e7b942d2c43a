-- ===== src/Daemon/System/Modes.antt =====
-- The invariant of the modes, in every run of the daemon.
use wifi_stick_usb_switcher.Prelude.{Bool, List, [], ◌∷◌, ◌++◌, sym, All, map}
use mathlib.Core.Path.{subst}
use wifi_stick_usb_switcher.Prelude.Int.{ℤ}
use wifi_stick_usb_switcher.Usb.Controller.{Driver}
use wifi_stick_usb_switcher.Usb.Controller.Shape.{Shape, DriverRespects}
use wifi_stick_usb_switcher.Daemon.State.{Daemon}
use wifi_stick_usb_switcher.Daemon.Leds.{display_mode_state, set_turn_off_leds}
use wifi_stick_usb_switcher.Daemon.Events.{Spawn, spawn_apply, spawn_finish, handle_events}
use wifi_stick_usb_switcher.Daemon.System.{
  Task, starting, working, finishing, System, task_of, turn, Step, woken, received, began, worked,
  finished, device_changed, requested, indicated, leds_set, Run, still, next, receive_rebind,
  end_indication,
}
use wifi_stick_usb_switcher.Daemon.Invariant.{IsTarget, core, Inv}
use wifi_stick_usb_switcher.Daemon.Invariant.Writes.{display_mode_state-core, if_Inv}
use wifi_stick_usb_switcher.Daemon.Invariant.Events.{handle_events-Inv}
use wifi_stick_usb_switcher.Daemon.Invariant.Apply.{
  begin_apply-IsTarget, begin_apply-Inv, work_apply-Inv, finish_apply-Inv,
}

abbrev TaskIsLegal : List Shape → Task → Type 0
TaskIsLegal sh starting = Unit
TaskIsLegal sh finishing = Unit
TaskIsLegal sh (working job) = IsTarget sh job.target.mode job.target.submode

-- The daemon's invariant, and every apply under way has a mode and one of its submodes for target.
pub record IsLegalSystem {W : Type 0} (sh : List Shape) (s : System W) : Type 0 where
  pub daemon_inv : Inv sh (core s.daemon)
  pub tasks_legal : All (TaskIsLegal sh) s.tasks

spawned_legal : (sh : List Shape) (ss : List Spawn) → All (TaskIsLegal sh) (map task_of ss)
spawned_legal sh [] = tt
spawned_legal sh (spawn_apply ∷ ss) = (tt, spawned_legal sh ss)
spawned_legal sh (spawn_finish ∷ ss) = (tt, spawned_legal sh ss)

All-before :
    (sh : List Shape) (ts us : List Task)
    → All (TaskIsLegal sh) (ts ++ us)
    → All (TaskIsLegal sh) ts
All-before sh [] us h = tt
All-before sh (t ∷ ts) us h = (h.0, All-before sh ts us h.1)

All-behind :
    (sh : List Shape) (ts us : List Task)
    → All (TaskIsLegal sh) (ts ++ us)
    → All (TaskIsLegal sh) us
All-behind sh [] us h = h
All-behind sh (t ∷ ts) us h = All-behind sh ts us h.1

All-join :
    (sh : List Shape) (ts us : List Task)
    → All (TaskIsLegal sh) ts
    → All (TaskIsLegal sh) us
    → All (TaskIsLegal sh) (ts ++ us)
All-join sh [] us h k = k
All-join sh (t ∷ ts) us h k = (h.0, All-join sh ts us h.1 k)

module _ {W : Type 0} {sh : List Shape} where
  turn-IsLegal :
      (now : ℤ) (ts : List Task) (d : Daemon W)
      → Inv sh (core d)
      → All (TaskIsLegal sh) ts
      → IsLegalSystem sh (turn now ts d)
  turn-IsLegal now ts d h l = record {
    daemon_inv = handle_events-Inv now d h;
    tasks_legal = All-join sh _ ts (spawned_legal sh (handle_events now d).1) l;
  }

  receive_rebind-Inv :
      (deadline : ℤ) (d : Daemon W) → Inv sh (core d) → Inv sh (core (receive_rebind deadline d))
  unfolding receive_rebind
  receive_rebind-Inv deadline d h = h

  display_mode_state-Inv : (d : Daemon W) → Inv sh (core d) → Inv sh (core (display_mode_state d))
  display_mode_state-Inv d h = subst (λ c. Inv sh c) (sym (display_mode_state-core d)) h

  end_indication-Inv : (d : Daemon W) → Inv sh (core d) → Inv sh (core (end_indication d))
  unfolding end_indication
  end_indication-Inv d h = if_Inv d.apply_done _ _ (λ _. display_mode_state-Inv _ h) (λ _. h)

  set_turn_off_leds-Inv :
      (off : Bool) (d : Daemon W) → Inv sh (core d) → Inv sh (core (set_turn_off_leds off d))
  unfolding set_turn_off_leds
  set_turn_off_leds-Inv off d h = display_mode_state-Inv _ h

  module _ (driver : Driver W) (r : DriverRespects driver) where
    Step-IsLegal : (s t : System W) → IsLegalSystem sh s → Step driver s t → IsLegalSystem sh t
    Step-IsLegal s t l (woken now d ts) = turn-IsLegal now ts d l.daemon_inv l.tasks_legal
    Step-IsLegal s t l (received now deadline d ts e) =
        turn-IsLegal now ts _ (receive_rebind-Inv deadline d l.daemon_inv) l.tasks_legal
    Step-IsLegal s t l (began d ts us) = record {
      daemon_inv = begin_apply-Inv d l.daemon_inv;
      tasks_legal =
          All-join sh ts _ (All-before sh ts _ l.tasks_legal)
            (begin_apply-IsTarget d l.daemon_inv, (All-behind sh ts _ l.tasks_legal).1);
    }
    Step-IsLegal s t l (worked now job d ts us) =
        let behind = All-behind sh ts _ l.tasks_legal in
        record {
          daemon_inv = work_apply-Inv driver r now job d behind.0 l.daemon_inv;
          tasks_legal = All-join sh ts us (All-before sh ts _ l.tasks_legal) behind.1;
        }
    Step-IsLegal s t l (finished d ts us) = record {
      daemon_inv = finish_apply-Inv driver r d l.daemon_inv;
      tasks_legal =
          All-join sh ts us (All-before sh ts _ l.tasks_legal) (All-behind sh ts _ l.tasks_legal).1;
    }
    Step-IsLegal s t l (device_changed device d ts) = record {
      daemon_inv = l.daemon_inv;
      tasks_legal = l.tasks_legal;
    }
    Step-IsLegal s t l (requested raw d ts) = record {
      daemon_inv = l.daemon_inv;
      tasks_legal = l.tasks_legal;
    }
    Step-IsLegal s t l (indicated d ts) = record {
      daemon_inv = end_indication-Inv d l.daemon_inv;
      tasks_legal = l.tasks_legal;
    }
    Step-IsLegal s t l (leds_set off d ts) = record {
      daemon_inv = set_turn_off_leds-Inv off d l.daemon_inv;
      tasks_legal = l.tasks_legal;
    }

    -- In every run with a driver whose methods respect the functions, the daemon stays legal.
    pub Run-IsLegal : (s t : System W) → IsLegalSystem sh s → Run driver s t → IsLegalSystem sh t
    Run-IsLegal s t l (still _) = l
    Run-IsLegal s t l (next _ m _ alive step rest) = Run-IsLegal m t (Step-IsLegal s m l step) rest
