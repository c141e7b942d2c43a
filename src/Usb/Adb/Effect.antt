-- ===== src/Usb/Adb/Effect.antt =====
-- core/usb/adb.go, effect and kill_adbd: the launch of adbd.
pub mod Ends
use wifi_stick_usb_switcher.Prelude.{
  ℕ, zero, suc, ◌+◌, ◌≤◌, Bool, true, false, not, ◌&&◌, List, [], ◌∷◌, ◌++◌, Option, none, some,
  ltb, if◌then◌else◌,
}
use wifi_stick_usb_switcher.Prelude.Int.{pos, negsuc}
use wifi_stick_usb_switcher.Prelude.Result.{Result, ok, err}
use wifi_stick_usb_switcher.Prelude.Text.{Bytes, codes, bytes_eq, trim_space}
use wifi_stick_usb_switcher.Prelude.Decimal.{atoi, itoa}
use wifi_stick_usb_switcher.Usb.Adb.Identity.{
  Account, Accounts, AdbdIdentity, IdentityError, identity_env, adbd_home_dir,
  resolve_adbd_identity,
}
use wifi_stick_usb_switcher.Usb.Adb.Envs.{merge_envs}

pub record UsbGadgetAdb : Type 0 where
  pub ffs_path : Bytes
  pub serial_number : Bytes
  pub manufacturer : Bytes
  pub product : Bytes
  pub run_as_user : Bytes
  pub run_as_group : Bytes
  pub envs : List Bytes
  pub instance_name : Bytes

-- What `exec.Command` is given: the path, the directory, the identity and the environment.
pub record Launch : Type 0 where
  pub path : Bytes
  pub dir : Bytes
  pub identity : Option AdbdIdentity
  pub env : List Bytes

-- The operating system, with its state of type `W`. A Boolean answer is true where the call fails.
pub record AdbHost (W : Type 0) : Type 0 where
  pub now : W → ℕ
  -- Receives the tick of that number from a ticker of 20 milliseconds that was started at that time.
  pub tick : ℕ → ℕ → W → W
  pub accounts : W → Accounts
  pub environ : W → List Bytes
  pub set_gadget_attrs : W → Bool × W
  pub set_strs : Bytes → Bytes → Bytes → W → Bool × W
  pub umount_ffs : Bytes → W → W
  pub make_dirs : Bytes → W → Bool × W
  pub mount : Bytes → W → Bool × W
  pub look_path : W → Option Bytes
  pub change_mode : Bytes → W → Bool × W
  pub change_owner : Bytes → ℕ → ℕ → W → Bool × W
  -- The process id, where the process started.
  pub start : Launch → W → Option ℕ × W
  pub file_exists : Bytes → W → Bool
  pub read_file : Bytes → W → Option Bytes
  pub write_file : Bytes → Bytes → W → Bool × W
  pub remove_file : Bytes → W → W
  pub is_alive : ℕ → W → Bool
  -- SIGTERM, a wait of 2 seconds at most, SIGKILL.
  pub stop_process : ℕ → W → W

-- The package's variable `adbd_process` (the id of the process it holds) and the system.
pub record World (W : Type 0) : Type 0 where
  pub adbd_process : Option ℕ
  pub outside : W

pub data EffectError : Type 0 where
  no_instance attrs_failed strs_failed mkdir_failed mount_failed no_adbd : EffectError
  bad_identity : IdentityError → EffectError
  chmod_failed chown_failed start_failed exited timed_out : EffectError

abbrev pub adbd_pid_file : Bytes
adbd_pid_file = codes "/tmp/miruku-wifi-stick-usb-switcher-adbd.pid"

module _ {W : Type 0} (host : AdbHost W) where
  abbrev pub comm_text : Option Bytes → Bytes
  comm_text none = []
  comm_text (some text) = trim_space text

  abbrev pub read_proc_comm : ℕ → W → Bytes
  read_proc_comm pid w =
      comm_text (host.read_file (codes "/proc/" ++ (itoa pid ++ codes "/comm")) w)

  -- The process that the pid file names, if it is an adbd.
  abbrev pub recorded : Option Bytes → W → Option ℕ
  recorded none w = none
  recorded (some text) w = elim (atoi (trim_space text)) [
    | none ↦ none
    | some (negsuc n) ↦ none
    | some (pos zero) ↦ none
    | some (pos (suc n)) ↦
        if bytes_eq (read_proc_comm (suc n) w) (codes "adbd") then some (suc n) else none
  ]

  abbrev pub held_or : Option ℕ → Option ℕ → Option ℕ
  held_or none other = other
  held_or (some pid) other = some pid

  abbrev pub stop_it : Option ℕ → W → W
  stop_it none w = w
  stop_it (some pid) w = host.stop_process pid w

  unfoldable pub kill_adbd : World W → World W
  kill_adbd w =
      let proc =
        held_or w.adbd_process (recorded (host.read_file adbd_pid_file w.outside) w.outside) in
      record {
        adbd_process = none;
        outside = host.remove_file adbd_pid_file (stop_it proc w.outside);
      }

  abbrev pub with_outside : World W → W → World W
  with_outside w out = record w { outside = out }

  -- The error leaves no process in the variable.
  abbrev pub dropped : EffectError → W → Option EffectError × World W
  dropped e out = (some e, record { adbd_process = none; outside = out })

  abbrev pub ep1 : UsbGadgetAdb → Bytes
  ep1 d = d.ffs_path ++ codes "/ep1"

  -- Polls for the descriptors, with that many ticks received from the ticker that was started at
  -- `start`. `none` is a loop that has not ended after that many rounds.
  unfoldable pub wait_ready :
      ℕ → ℕ → ℕ → ℕ → UsbGadgetAdb → ℕ → World W → Option (Option EffectError × World W)
  wait_ready zero ticks start deadline d pid w = none
  wait_ready (suc rounds) ticks start deadline d pid w =
      let ticked = with_outside w (host.tick start (suc ticks) w.outside) in
      let later = wait_ready rounds (suc ticks) start deadline d pid ticked in
      if ltb (host.now w.outside) deadline
      then if host.file_exists (ep1 d) w.outside
        then some (none, w)
        else if host.is_alive pid w.outside
        then later
        else some (some exited, kill_adbd w)
      else some (some timed_out, kill_adbd w)

  -- After `Start`: the timeout is 2 seconds, the ticker 20 milliseconds.
  unfoldable pub started : UsbGadgetAdb → Option ℕ × W → Option (Option EffectError × World W)
  started d (none, out) = some (dropped start_failed out)
  started d (some pid, out) =
      let (unwritten, out') = host.write_file adbd_pid_file (itoa pid ++ (b'\n' ∷ [])) out in
      let start = host.now out' in
      wait_ready 101 0 start (start + 2000) d pid
        (record { adbd_process = some pid; outside = out' })

  abbrev pub user_env : Option Account → List Bytes
  user_env none = []
  user_env (some account) =
      (codes "USER=" ++ account.username) ∷ (codes "LOGNAME=" ++ account.username) ∷ []

  -- Neither a user nor a group is given: adbd runs as the daemon.
  unfoldable pub launch_plain : UsbGadgetAdb → Bytes → W → Option (Option EffectError × World W)
  launch_plain d path out =
      let sys = host.accounts out in
      let dir = adbd_home_dir sys [] in
      let env_extras = (codes "HOME=" ++ dir) ∷ user_env sys.current in
      started d (
        host.start
          (record {
            path = path;
            dir = dir;
            identity = none;
            env = merge_envs (host.environ out) (env_extras ++ d.envs);
          })
          out)

  unfoldable pub launch_as :
      UsbGadgetAdb → Bytes → AdbdIdentity → W → Option (Option EffectError × World W)
  launch_as d path identity out =
      let (unmoded, out1) = host.change_mode d.ffs_path out in
      let (unowned, out2) = host.change_owner d.ffs_path identity.uid identity.gid out1 in
      let launch : Launch = record {
        path = path;
        dir = identity.home;
        identity = some identity;
        env = merge_envs (host.environ out2) (identity_env identity ++ d.envs);
      } in
      let run = started d (host.start launch out2) in
      if unmoded
      then some (dropped chmod_failed out1)
      else if unowned
      then some (dropped chown_failed out2)
      else run

  unfoldable pub launch_identity : UsbGadgetAdb → Bytes → W → Option (Option EffectError × World W)
  launch_identity d path out =
      elim (resolve_adbd_identity (host.accounts out) d.run_as_user d.run_as_group) [
        | err e ↦ some (dropped (bad_identity e) out)
        | ok identity ↦ launch_as d path identity out
      ]

  -- After the function file system is mounted.
  unfoldable pub mounted : UsbGadgetAdb → World W → Option (Option EffectError × World W)
  mounted d w =
      let w1 = kill_adbd w in
      elim (host.look_path w1.outside) [
        | none ↦ some (some no_adbd, w1)
        | some path ↦
            let plain = launch_plain d path w1.outside in
            let as_user = launch_identity d path w1.outside in
            if bytes_eq d.run_as_user [] && bytes_eq d.run_as_group [] then plain else as_user
      ]

  unfoldable pub effect : UsbGadgetAdb → World W → Option (Option EffectError × World W)
  effect d w =
      let (unset, out1) = host.set_gadget_attrs w.outside in
      let (unnamed, out2) = host.set_strs d.serial_number d.manufacturer d.product out1 in
      let (unmade, out3) = host.make_dirs d.ffs_path (host.umount_ffs d.ffs_path out2) in
      let (unmounted, out4) = host.mount d.ffs_path out3 in
      let rest = mounted d (with_outside w out4) in
      if bytes_eq d.instance_name []
      then some (some no_instance, w)
      else if unset
      then some (some attrs_failed, with_outside w out1)
      else if unnamed
      then some (some strs_failed, with_outside w out2)
      else if unmade
      then some (some mkdir_failed, with_outside w out3)
      else if unmounted
      then some (some mount_failed, with_outside w out4)
      else rest
