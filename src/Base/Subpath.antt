-- ===== src/Base/Subpath.antt =====
-- core/base/subpath_writter.go: reading and writing files below a base path. The operating system is
-- a record of functions on its state.
use wifi_stick_usb_switcher.Prelude.{
  ℕ, Bool, true, false, ◌&&◌, not, Option, none, some, ltb, if◌then◌else◌, [], length,
}
use wifi_stick_usb_switcher.Prelude.Result.{Result, ok, err}
use wifi_stick_usb_switcher.Prelude.Text.{Bytes, bytes_eq, trim_space}

-- The class of an error, as GetStatusByError and WriteFile tell them apart.
pub data FileStatus : Type 0 where
  not_exists permission stat_failed general : FileStatus

-- The files below the base path of one owner.
pub record Files (W : Type 0) : Type 0 where
  pub read : Bytes → W → Result FileStatus Bytes
  pub stat : Bytes → W → Option FileStatus
  pub write : Bytes → Bytes → W → Option FileStatus × W

pub data SubpathError : Type 0 where
  not_found : Bytes → SubpathError
  failed : FileStatus → SubpathError
  too_large empty : Bytes → SubpathError

abbrev is_missing : FileStatus → Bool
is_missing not_exists = true
is_missing _ = false

abbrev subpath_error : Bytes → FileStatus → SubpathError
subpath_error path s = if is_missing s then not_found path else failed s

module _ {W : Type 0} (files : Files W) where
  unfoldable pub read_subpath : ℕ → Bytes → Bool → W → Result SubpathError Bytes
  read_subpath max_filesize path emptyable w = elim (files.read path w) [
    | err s ↦ err (subpath_error path s)
    | ok raw ↦
        let text = trim_space raw in
        if ltb max_filesize (length text)
        then err (too_large path)
        else if not emptyable && bytes_eq text []
        then err (empty path)
        else ok text
  ]

  unfoldable pub write_file : Bytes → Bool → Bytes → W → Option FileStatus × W
  write_file path exist_only text w = elim (files.stat path w) [
    | none ↦ files.write path text w
    | some s ↦
        if is_missing s
        then if exist_only then (some not_exists, w) else files.write path text w
        else (some stat_failed, w)
  ]

  abbrev pub as_error : Bytes → Option FileStatus × W → Option SubpathError × W
  as_error path (none, w) = (none, w)
  as_error path (some s, w) = (some (subpath_error path s), w)

  unfoldable pub write_subpath : Bytes → Bool → Bytes → W → Option SubpathError × W
  write_subpath path exist_only text w = as_error path (write_file path exist_only text w)
