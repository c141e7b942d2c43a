-- ===== src/Tests/Adb.antt =====
-- The identity, the environment and the launch of adbd on concrete accounts and a concrete system.
use wifi_stick_usb_switcher.Prelude.{
  ℕ, ◌+◌, ◌*◌, true, false, ltb, List, [], ◌∷◌, none, some, ◌≡◌, refl, arith, map, not,
}
use wifi_stick_usb_switcher.Prelude.Result.{ok}
use wifi_stick_usb_switcher.Prelude.Decimal.{unsigned_value, digits_value}
use wifi_stick_usb_switcher.Prelude.Text.{Bytes, codes, bytes_eq}
use wifi_stick_usb_switcher.Usb.Adb.Identity.{
  Account, Accounts, AdbdIdentity, append_group, add_groups, with_account, find_account, with_group,
  resolve_adbd_identity,
}
use wifi_stick_usb_switcher.Usb.Adb.Identity.Groups.{IsComplete, resolve_adbd_identity-IsComplete}
use wifi_stick_usb_switcher.Usb.Adb.Envs.{merge_envs}
use wifi_stick_usb_switcher.Usb.Adb.Envs.Overlay.{entry, getenv, overlay, getenv-merge_envs}
use wifi_stick_usb_switcher.Usb.Adb.Effect.{UsbGadgetAdb, AdbHost, World, effect}
use wifi_stick_usb_switcher.Usb.Adb.Effect.Ends.{Ends, effect-Ends}

abbrev account : Account
account = record {
  uid = codes "1000";
  gid = codes "1000";
  username = codes "stick";
  home_dir = codes "/home/stick";
}

abbrev accounts : Accounts
accounts = record {
  effective_uid = 0;
  effective_gid = 0;
  lookup = λ name. some account;
  current = none;
  user_home_dir = none;
  group_ids = λ a. some (codes "27" ∷ codes "1000" ∷ codes "27" ∷ []);
  group_gid = λ name. none;
}

abbrev identity : AdbdIdentity
identity = record {
  uid = 1000;
  gid = 1000;
  groups = 27 ∷ 1000 ∷ [];
  user = codes "stick";
  home = codes "/home/stick";
}

resolved : resolve_adbd_identity accounts (codes "stick") [] ≡ ok identity
unfolding resolve_adbd_identity find_account with_account with_group add_groups append_group
    unsigned_value digits_value bytes_eq
resolved = refl

resolve_adbd_identity-IsComplete_example : IsComplete accounts (codes "stick") identity
resolve_adbd_identity-IsComplete_example =
    resolve_adbd_identity-IsComplete accounts (codes "stick") [] identity resolved

abbrev settings : List (Bytes × Bytes)
settings = (codes "HOME", codes "/root") ∷ (codes "HOME", codes "/home/stick") ∷ []

getenv-merge_envs_example :
    getenv (codes "HOME") (merge_envs (codes "HOME=/" ∷ []) (map entry settings))
    ≡ overlay (codes "HOME") settings (getenv (codes "HOME") (codes "HOME=/" ∷ []))
getenv-merge_envs_example =
    getenv-merge_envs (codes "HOME") settings (codes "HOME=/" ∷ []) (ground arith) (ground arith)

abbrev pub host : AdbHost ℕ
host = record {
  now = λ t. t;
  tick = λ start k t. start + 20 * k;
  accounts = λ t. accounts;
  environ = λ t. [];
  set_gadget_attrs = λ t. (false, t);
  set_strs = λ s m p t. (false, t);
  umount_ffs = λ p t. t;
  make_dirs = λ p t. (false, t);
  mount = λ p t. (false, t);
  look_path = λ t. some (codes "/usr/bin/adbd");
  change_mode = λ p t. (false, t);
  change_owner = λ p u g t. (false, t);
  start = λ l t. (some 77, t);
  file_exists = λ p t. not (ltb t 100);
  read_file = λ p t. none;
  write_file = λ p s t. (false, t);
  remove_file = λ p t. t;
  is_alive = λ pid t. true;
  stop_process = λ pid t. t;
}

abbrev pub function : UsbGadgetAdb
function = record {
  ffs_path = codes "/dev/usb-ffs/adb";
  serial_number = [];
  manufacturer = [];
  product = [];
  run_as_user = codes "stick";
  run_as_group = [];
  envs = [];
  instance_name = codes "adb";
}

abbrev world : World ℕ
world = record { adbd_process = none; outside = 0 }

effect-Ends_example : Ends host function world (effect host function world)
effect-Ends_example = effect-Ends host function world (λ start k t. omega arith)
