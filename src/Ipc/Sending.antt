-- ===== src/Ipc/Sending.antt =====
-- core/daemonipc/core.go, SendPackage and check_data: a package is sent only if its payload fits the
-- struct registered for its type. The encoding to JSON is a parameter.
use wifi_stick_usb_switcher.Prelude.{List, Option, none, some}
use wifi_stick_usb_switcher.Prelude.Int.{ℤ}
use wifi_stick_usb_switcher.Prelude.Result.{Result, ok, err}
use wifi_stick_usb_switcher.Prelude.Text.{Bytes}
use wifi_stick_usb_switcher.Ipc.Core.{Kind, Value, Package, Registry}

pub data SendError : Type 0 where
  unknown_struct : SendError
  unfit : Bytes → SendError
  unwritable : Bytes → SendError

module _ (parse_data : List Kind → Bytes → Result Bytes (List Value)) where
  abbrev pub check_against : Option (List Kind) → Bytes → Option SendError
  check_against none data_ = some unknown_struct
  check_against (some metas) data_ = elim (parse_data metas data_) [
    | err e ↦ some (unfit e)
    | ok _ ↦ none
  ]

module _ {W : Type 0} (parse_data : List Kind → Bytes → Result Bytes (List Value)) where
  unfoldable pub check_data : Registry W → ℤ → Bytes → Option SendError
  check_data r t data_ = check_against parse_data (r.structs t) data_

  -- What is written to the transport: the type and the data.
  abbrev pub send_encoded : Registry W → ℤ → Result Bytes Bytes → Result SendError (ℤ × Bytes)
  send_encoded r t (err e) = err (unwritable e)
  send_encoded r t (ok data_) = elim (check_data r t data_) [
    | some e ↦ err e
    | none ↦ ok (t, data_)
  ]

  unfoldable pub send_package :
      (List Value → Result Bytes Bytes) → Registry W → Package → Result SendError (ℤ × Bytes)
  send_package payload2json r p = send_encoded r p.package_type (payload2json p.payload)
