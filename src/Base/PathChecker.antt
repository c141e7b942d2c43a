-- ===== src/Base/PathChecker.antt =====
-- core/base/path_checker.go: whether a path lies below a base path and is a file or a folder.
use wifi_stick_usb_switcher.Prelude.{Bool, ◌&&◌, ◌||◌, not, Option, none, some, if◌then◌else◌}
use wifi_stick_usb_switcher.Prelude.Result.{Result, ok, err}
use wifi_stick_usb_switcher.Prelude.Text.{Bytes, codes, bytes_eq}
use wifi_stick_usb_switcher.Prelude.Search.{has_prefix}

pub data PathStatus : Type 0 where
  path_ok path_not_exists path_absolute_failed path_unmatched_prefix : PathStatus
  path_invalid_type path_no_subpath path_stat_failed : PathStatus

-- What `os.Stat` tells of an error.
pub data StatError : Type 0 where
  missing unreadable : StatError

-- `filepath.Abs`, `filepath.Rel` (from a base to a path) and `os.Stat`, which tells a folder from a
-- file.
pub record Paths : Type 0 where
  pub absolute : Bytes → Option Bytes
  pub relative : Bytes → Bytes → Option Bytes
  pub is_folder : Bytes → Result StatError Bool

abbrev pub leaves : Bytes → Bool
leaves rel = bytes_eq rel (codes "..") || has_prefix (codes "../") rel

module _ (sys : Paths) where
  abbrev pub of_stat : Bool → Result StatError Bool → PathStatus
  of_stat file_required (err missing) = path_not_exists
  of_stat file_required (err unreadable) = path_stat_failed
  of_stat file_required (ok is_dir) =
      if file_required && is_dir || (not file_required && not is_dir)
      then path_invalid_type
      else path_ok

  unfoldable pub is_valid_path : Bytes → Bytes → Bool → Bool → PathStatus
  is_valid_path path base file_required subpath_required = elim (sys.absolute path) [
    | none ↦ path_absolute_failed
    | some abs_path ↦ elim (sys.absolute base) [
      | none ↦ path_absolute_failed
      | some abs_base ↦ elim (sys.relative abs_base abs_path) [
        | none ↦ path_unmatched_prefix
        | some rel ↦
            if leaves rel
            then path_unmatched_prefix
            else if subpath_required && bytes_eq rel (codes ".")
            then path_no_subpath
            else of_stat file_required (sys.is_folder abs_path)
      ]
    ]
  ]
