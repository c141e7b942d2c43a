-- ===== src/Usb/Adb/Identity.antt =====
-- core/usb/adb.go: the account that adbd runs as.
pub mod Groups
use wifi_stick_usb_switcher.Prelude.{
  ℕ, ◌-◌, ◌%◌, ◌^◌, Bool, true, false, List, [], ◌∷◌, ◌++◌, Option, none, some, ◌==◌, if◌then◌else◌,
}
use wifi_stick_usb_switcher.Prelude.Result.{Result, ok, err}
use wifi_stick_usb_switcher.Prelude.Text.{Bytes, codes, bytes_eq}
use wifi_stick_usb_switcher.Prelude.Decimal.{unsigned_value}

-- `user.User`.
pub record Account : Type 0 where
  pub uid : Bytes
  pub gid : Bytes
  pub username : Bytes
  pub home_dir : Bytes

-- The account database and the process, as Go's `os/user` and `os` show them; `none` is an error.
pub record Accounts : Type 0 where
  pub effective_uid : ℕ
  pub effective_gid : ℕ
  pub lookup : Bytes → Option Account
  pub current : Option Account
  pub user_home_dir : Option Bytes
  pub group_ids : Account → Option (List Bytes)
  pub group_gid : Bytes → Option Bytes

pub record AdbdIdentity : Type 0 where
  pub uid : ℕ
  pub gid : ℕ
  pub groups : List ℕ
  pub user : Bytes
  pub home : Bytes

pub data IdentityError : Type 0 where
  no_user no_group : Bytes → IdentityError
  bad_uid bad_gid no_groups : Bytes → IdentityError
  bad_group_id : Bytes → Bytes → IdentityError

-- `strconv.ParseUint(s, 10, 32)`.
abbrev pub parse_uint32 : Bytes → Option ℕ
parse_uint32 s = unsigned_value (2 ^ 32 - 1) s

abbrev is_empty : Bytes → Bool
is_empty s = bytes_eq s []

unfoldable pub append_group : List ℕ → ℕ → List ℕ
append_group [] gid = gid ∷ []
append_group (g ∷ groups) gid =
    let rest = append_group groups gid in if g == gid then g ∷ groups else g ∷ rest

unfoldable pub identity_env : AdbdIdentity → List Bytes
identity_env i =
    (if is_empty i.home then [] else ((codes "HOME=" ++ i.home) ∷ []))
    ++ (if is_empty i.user
        then []
        else ((codes "USER=" ++ i.user) ∷ (codes "LOGNAME=" ++ i.user) ∷ []))

abbrev home_of : Option Account → Option Bytes
home_of none = none
home_of (some account) = if is_empty account.home_dir then none else some account.home_dir

abbrev home_or : Option Bytes → Bytes → Bytes
home_or none other = other
home_or (some home) other = home

abbrev not_empty : Option Bytes → Option Bytes
not_empty none = none
not_empty (some text) = if is_empty text then none else some text

unfoldable pub adbd_home_dir : Accounts → Bytes → Bytes
adbd_home_dir sys run_as_user =
    let named = if is_empty run_as_user then none else home_of (sys.lookup run_as_user) in
    let last = if sys.effective_uid == 0 then codes "/root" else codes "/" in
    home_or named (home_or (home_of sys.current) (home_or (not_empty sys.user_home_dir) last))

abbrev pub bind {ℓ κ} :
    {E : Type 0} {A : Type ℓ} {B : Type κ} → Result E A → (A → Result E B) → Result E B
bind (ok a) f = f a
bind (err e) f = err e

abbrev pub or_error : {E A : Type 0} → E → Option A → Result E A
or_error e none = err e
or_error e (some a) = ok a

-- A numeric id that may be left empty.
abbrev pub id_or : IdentityError → ℕ → Bytes → Result IdentityError ℕ
id_or e default text = if is_empty text then ok default else or_error e (parse_uint32 text)

unfoldable pub add_groups : Bytes → List Bytes → List ℕ → Result IdentityError (List ℕ)
add_groups username [] groups = ok groups
add_groups username (text ∷ rest) groups = elim (parse_uint32 text) [
  | none ↦ err (bad_group_id text username)
  | some gid ↦ add_groups username rest (append_group groups gid)
]

-- The part for an account that is known.
unfoldable pub with_account : Accounts → AdbdIdentity → Account → Result IdentityError AdbdIdentity
with_account sys i account = bind (id_or (bad_uid account.username) i.uid account.uid) (λ uid.
    bind (id_or (bad_gid account.username) i.gid account.gid) (λ gid.
      bind (or_error (no_groups account.username) (sys.group_ids account)) (λ ids.
        bind (add_groups account.username ids []) (λ groups. ok (record {
          uid = uid;
          gid = gid;
          groups = groups;
          user = account.username;
          home = if is_empty account.home_dir then i.home else account.home_dir;
        })))))

unfoldable pub find_account : Accounts → Bytes → Result IdentityError (Option Account)
find_account sys user_name =
    if is_empty user_name then ok sys.current else elim (sys.lookup user_name) [
      | none ↦ err (no_user user_name)
      | some account ↦ ok (some account)
    ]

abbrev pub if_account : Accounts → AdbdIdentity → Option Account → Result IdentityError AdbdIdentity
if_account sys i none = ok i
if_account sys i (some account) = with_account sys i account

-- The primary group that the settings name, or the one so far.
unfoldable pub with_group : Accounts → Bytes → ℕ → Result IdentityError ℕ
with_group sys group_name gid =
    if is_empty group_name
    then ok gid
    else bind (or_error (no_group group_name) (sys.group_gid group_name))
        (λ text. or_error (bad_gid group_name) (parse_uint32 text))

abbrev pub first_identity : Accounts → Bytes → AdbdIdentity
first_identity sys user_name = record {
  uid = sys.effective_uid % 2 ^ 32;
  gid = sys.effective_gid % 2 ^ 32;
  groups = [];
  user = [];
  home = adbd_home_dir sys user_name;
}

unfoldable pub resolve_adbd_identity : Accounts → Bytes → Bytes → Result IdentityError AdbdIdentity
resolve_adbd_identity sys user_name group_name = bind (find_account sys user_name) (λ account.
    bind (if_account sys (first_identity sys user_name) account) (λ i.
      bind (with_group sys group_name i.gid)
        (λ gid. ok (record i { gid = gid; groups = append_group i.groups gid }))))
