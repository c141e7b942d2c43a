-- ===== src/Daemon/System.antt =====
-- core/daemon/daemon.go: the main loop and the goroutines it starts, as one step relation.
-- A goroutine is what it has left to do. `begin_apply`, `work_apply`, `finish_apply` and a turn of the
-- loop are a step each, and any order of them is a run.
pub mod Control
pub mod Settle
pub mod Balance
pub mod Exclusive
pub mod Modes
pub mod Program
pub mod Finish
pub mod Lost
pub mod Priority
pub mod Requests
use wifi_stick_usb_switcher.Prelude.{
  ℕ, Bool, true, false, List, [], ◌∷◌, ◌++◌, Option, none, some, ◌≡◌, map, if◌then◌else◌,
}
use wifi_stick_usb_switcher.Prelude.Int.{ℤ}
use wifi_stick_usb_switcher.Prelude.Text.{Bytes}
use wifi_stick_usb_switcher.Input.Device.{InputDevice}
use wifi_stick_usb_switcher.Usb.Controller.{Driver}
use wifi_stick_usb_switcher.Daemon.State.{Daemon}
use wifi_stick_usb_switcher.Daemon.Leds.{display_mode_state, set_turn_off_leds}
use wifi_stick_usb_switcher.Daemon.Apply.{Job, begin_apply, work_apply, finish_apply}
use wifi_stick_usb_switcher.Daemon.Events.{Spawn, spawn_apply, spawn_finish, handle_events}

pub data Task : Type 0 where
  starting finishing : Task
  working : Job → Task

pub record System (W : Type 0) : Type 0 where
  pub daemon : Daemon W
  pub tasks : List Task

abbrev pub task_of : Spawn → Task
task_of spawn_apply = starting
task_of spawn_finish = finishing

module _ {W : Type 0} where
  -- A turn of the main loop on the daemon `d`, next to the goroutines `ts`.
  abbrev pub turn : ℤ → List Task → Daemon W → System W
  turn now ts d =
      let (d', spawns, responses) = handle_events now d in
      record { daemon = d'; tasks = map task_of spawns ++ ts }

  -- The main loop receives a deadline.
  unfoldable pub receive_rebind : ℤ → Daemon W → Daemon W
  receive_rebind deadline d = record d {
    rebind_chan = none;
    enable_deadline = deadline;
    pending_enable = true;
  }

  -- The end of `led_init_indication`.
  unfoldable pub end_indication : Daemon W → Daemon W
  end_indication d =
      let d' = record d { led_init_done = true } in
      if d.apply_done then display_mode_state d' else d'

  abbrev pub begin_task : List Task → List Task → Daemon W → System W
  begin_task ts us d =
      let (d', job) = begin_apply d in record { daemon = d'; tasks = ts ++ working job ∷ us }

  abbrev pub leave : List Task → List Task → Daemon W → System W
  leave ts us d = record { daemon = d; tasks = ts ++ us }

  -- What can happen next while the process lives.
  pub data Step (driver : Driver W) : System W → System W → Type 0 where
    woken :
        (now : ℤ) (d : Daemon W) (ts : List Task)
        → Step driver (record { daemon = d; tasks = ts }) (turn now ts d)
    received :
        (now deadline : ℤ) (d : Daemon W) (ts : List Task)
        → d.rebind_chan ≡ some deadline
        → Step driver (record { daemon = d; tasks = ts }) (turn now ts (receive_rebind deadline d))
    began :
        (d : Daemon W) (ts us : List Task)
        → Step driver (record { daemon = d; tasks = ts ++ starting ∷ us }) (begin_task ts us d)
    worked :
        (now : ℤ) (job : Job) (d : Daemon W) (ts us : List Task)
        → Step driver
            (record { daemon = d; tasks = ts ++ working job ∷ us })
            (leave ts us (work_apply driver now job d))
    finished :
        (d : Daemon W) (ts us : List Task)
        → Step driver
            (record { daemon = d; tasks = ts ++ finishing ∷ us })
            (leave ts us (finish_apply driver d))
    device_changed :
        (device : InputDevice) (d : Daemon W) (ts : List Task)
        → Step driver
            (record { daemon = d; tasks = ts })
            (record { daemon = record d { input_device = device }; tasks = ts })
    requested :
        (raw : Bytes) (d : Daemon W) (ts : List Task)
        → Step driver
            (record { daemon = d; tasks = ts })
            (record {
              daemon = record d { gadget_req_chan = d.gadget_req_chan ++ raw ∷ [] };
              tasks = ts;
            })
    indicated :
        (d : Daemon W) (ts : List Task)
        → Step driver
            (record { daemon = d; tasks = ts })
            (record { daemon = end_indication d; tasks = ts })
    leds_set :
        (off : Bool) (d : Daemon W) (ts : List Task)
        → Step driver
            (record { daemon = d; tasks = ts })
            (record { daemon = set_turn_off_leds off d; tasks = ts })

  -- A run of the daemon. A step is taken only while the process lives.
  pub data Run (driver : Driver W) : System W → System W → Type 0 where
    still : (s : System W) → Run driver s s
    next :
        (s t u : System W)
        → s.daemon.crashed ≡ false
        → Step driver s t
        → Run driver t u
        → Run driver s u
