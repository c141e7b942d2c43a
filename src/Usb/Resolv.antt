-- ===== src/Usb/Resolv.antt =====
-- core/usb/rndis.go, apply_dns, backup_resolv_conf and restore_dns: the client submode writes its
-- servers over /etc/resolv.conf, after it has kept the original in a backup file. Reading and
-- writing the path follow a symbolic link; removing it does not.
pub mod Restore
use wifi_stick_usb_switcher.Prelude.{
  ℕ, Bool, true, false, List, [], ◌∷◌, ◌++◌, Option, none, some, if◌then◌else◌,
}
use wifi_stick_usb_switcher.Prelude.Text.{Bytes, codes, bytes_eq}
use wifi_stick_usb_switcher.Prelude.Decimal.{cut}
use wifi_stick_usb_switcher.Prelude.Search.{cut_prefix}
use wifi_stick_usb_switcher.Usb.Network.{Addr, show_addr}

-- What stands at /etc/resolv.conf.
pub data Node : Type 0 where
  absent : Node
  regular : Bytes → Node
  link : Bytes → Node

-- `backup` is the file /tmp/rndis-resolv.conf, `contents` the files that a link can name.
pub record Files : Type 0 where
  pub conf : Node
  pub backup : Option Bytes
  pub contents : Bytes → Option Bytes

unfoldable pub update : (Bytes → Option Bytes) → Bytes → Bytes → Bytes → Option Bytes
update contents path text p = if bytes_eq path p then some text else contents p

abbrev pub read_node : Node → (Bytes → Option Bytes) → Option Bytes
read_node absent contents = none
read_node (regular text) contents = some text
read_node (link target) contents = contents target

-- `os.ReadFile(resolvConfPath)`.
unfoldable pub read_conf : Files → Option Bytes
read_conf fs = read_node fs.conf fs.contents

-- `os.WriteFile(resolvConfPath, text)`.
unfoldable pub write_conf : Bytes → Files → Files
write_conf text fs = elim fs.conf [
  | absent ↦ record fs { conf = regular text }
  | regular _ ↦ record fs { conf = regular text }
  | link target ↦ record fs { contents = update fs.contents target text }
]

-- `os.Remove(resolvConfPath)`.
abbrev pub remove_conf : Files → Files
remove_conf fs = record fs { conf = absent }

abbrev pub link_mark : Bytes
link_mark = codes "LINK:"

-- The backup of a path with that content.
unfoldable pub backup_text : Node → Bytes → Bytes
backup_text (link target) text = (link_mark ++ target) ++ (b'\n' ∷ text)
backup_text _ text = text

unfoldable pub backup_resolv_conf : Files → Files
backup_resolv_conf fs = elim fs.backup [
  | some _ ↦ fs
  | none ↦ elim (read_conf fs) [
    | none ↦ fs
    | some text ↦ record fs { backup = some (backup_text fs.conf text) }
  ]
]

unfoldable pub nameservers : List Addr → Bytes
nameservers [] = []
nameservers (server ∷ servers) =
    codes "nameserver " ++ (show_addr server ++ (b'\n' ∷ nameservers servers))

abbrev pub servers_or : List Addr → Addr → List Addr
servers_or [] fallback = fallback ∷ []
servers_or (server ∷ servers) fallback = server ∷ servers

unfoldable pub resolv_text : List Addr → Addr → Bytes
resolv_text dns fallback =
    codes "# generated by miruku-wifi-stick-usb-switcher RNDIS client submode\n"
    ++ nameservers (servers_or dns fallback)

unfoldable pub apply_dns : List Addr → Addr → Files → Files
apply_dns dns fallback fs =
    write_conf (resolv_text dns fallback) (remove_conf (backup_resolv_conf fs))

-- The target and the content of a backup that is cut after its first line.
abbrev pub link_of : Bytes × Bytes × Bool → Option (Bytes × Bytes)
link_of (first, rest, found) = elim (cut_prefix link_mark first) [
  | none ↦ none
  | some target ↦ if found then some (target, rest) else none
]

unfoldable pub linked : Bytes → Option (Bytes × Bytes)
linked text = link_of (cut b'\n' text)

unfoldable pub restore_backup : Bytes → Files → Files
restore_backup text fs = elim (linked text) [
  | none ↦ write_conf text fs
  | some at ↦ write_conf at.1 (record fs { conf = link at.0 })
]

unfoldable pub restore_dns : Files → Files
restore_dns fs = elim fs.backup [
  | none ↦ fs
  | some text ↦ record (restore_backup text (remove_conf fs)) { backup = none }
]
