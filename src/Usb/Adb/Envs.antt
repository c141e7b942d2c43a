-- ===== src/Usb/Adb/Envs.antt =====
-- core/usb/adb.go, merge_envs: the environment of adbd.
pub mod Overlay
use wifi_stick_usb_switcher.Prelude.{
  ℕ, Bool, true, false, ◌||◌, List, [], ◌∷◌, ◌++◌, Option, none, some, if◌then◌else◌, ◌≡◌, ◌≢◌, ◌⊎◌,
  refl, sym, ap, ◌∙◌, arith, All, Option-cases, Bool-cases, inl, inr, ◌==◌, map,
}
use wifi_stick_usb_switcher.Prelude.Text.{Bytes, bytes_eq, bytes_eq_iff}
use wifi_stick_usb_switcher.Prelude.Decimal.{cut, cut-append}
use wifi_stick_usb_switcher.Prelude.Search.{cut_prefix, has_prefix, cut_prefix-append}

-- The text before the first `=`, or all of it, with a `=` behind it.
unfoldable pub key_of : Bytes → Bytes
key_of extra = (cut b'=' extra).0 ++ (b'=' ∷ [])

unfoldable pub replace_env : Bytes → Bytes → List Bytes → List Bytes
replace_env key extra [] = []
replace_env key extra (kv ∷ env) =
    (if has_prefix key kv then extra else kv) ∷ replace_env key extra env

unfoldable pub has_env : Bytes → List Bytes → Bool
has_env key [] = false
has_env key (kv ∷ env) = has_prefix key kv || has_env key env

unfoldable pub merge_env : List Bytes → Bytes → List Bytes
merge_env env extra =
    let key = key_of extra in
    let replaced = replace_env key extra env in
    if bytes_eq extra []
    then env
    else if has_env key env
    then replaced
    else replaced ++ (extra ∷ [])

-- `inherited` is `os.Environ()`.
unfoldable pub merge_envs : List Bytes → List Bytes → List Bytes
merge_envs inherited [] = inherited
merge_envs inherited (extra ∷ extras) = merge_envs (merge_env inherited extra) extras
