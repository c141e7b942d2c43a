-- ===== src/Usb/Resolv/Restore.antt =====
-- core/usb/rndis.go: what restore_dns brings back after any calls of apply_dns.
use wifi_stick_usb_switcher.Prelude.{
  ℕ, true, List, [], ◌∷◌, ◌++◌, Option, none, some, ◌≡◌, ◌≢◌, ◌⊎◌, inl, inr, refl, sym, ap, ◌∙◌,
  All, All-append, arith, Bool-cases,
}
use wifi_stick_usb_switcher.Prelude.Text.{Bytes, bytes_eq, bytes_eq_iff}
use wifi_stick_usb_switcher.Prelude.Decimal.{cut, cut-append}
use wifi_stick_usb_switcher.Prelude.Search.{cut_prefix-append}
use wifi_stick_usb_switcher.Usb.Network.{Addr}
use wifi_stick_usb_switcher.Usb.Resolv.{
  Node, absent, read_node, regular, link, Files, update, read_conf, write_conf, link_mark,
  backup_text, backup_resolv_conf, apply_dns, linked, link_of, restore_backup, restore_dns,
  resolv_text,
}

-- A regular file whose first line is no `LINK:` line, which a restore would take for the mark of a
-- link; or a link, without a line feed in its target, to a file that can be read.
abbrev pub IsRestorable : Files → Type 0
IsRestorable fs = elim fs.conf [
  | absent ↦ ⊥
  | regular text ↦ linked text ≡ none
  | link target ↦ All (λ c. c ≢ b'\n') target × ((text : Bytes) × (fs.contents target ≡ some text))
]

abbrev pub IsSame : Files → Files → Type 0
IsSame a b = (a.conf ≡ b.conf) × ((p : Bytes) → a.contents p ≡ b.contents p)

-- The original stands in place, or in the backup.
abbrev pub IsRecoverable : Files → Files → Type 0
IsRecoverable original fs =
    IsSame original fs × (fs.backup ≡ none)
    ⊎ ((text : Bytes) × (read_conf original ≡ some text)
        × (fs.backup ≡ some (backup_text original.conf text))
        × ((p : Bytes) → original.contents p ≡ fs.contents p))

linked-backup_text :
    (target text : Bytes)
    → All (λ c. c ≢ b'\n') target
    → linked (backup_text (link target) text) ≡ some (target, text)
unfolding linked backup_text
linked-backup_text target text h =
    let line : All (λ (c : ℕ). c ≢ b'\n') (link_mark ++ target) =
      All-append (λ (c : ℕ). c ≢ b'\n') link_mark target (ground arith) h in
    let e : cut b'\n' (backup_text (link target) text) ≡ (link_mark ++ target, text, true) =
      cut-append b'\n' (link_mark ++ target) text line in
    ap link_of e ∙ ap (named text) (cut_prefix-append link_mark target)
  where
    named : Bytes → Option Bytes → Option (Bytes × Bytes)
    named text none = none
    named text (some target) = some (target, text)

update_same :
    (contents : Bytes → Option Bytes) (path text p : Bytes)
    → contents path ≡ some text
    → update contents path text p ≡ contents p
unfolding update
update_same contents path text p h = elim (Bool-cases (bytes_eq path p)) [
  | inl e ↦ rw e (sym h ∙ ap contents ((bytes_eq_iff path p).0 e))
  | inr e ↦ rw e refl
]

read_node_pointwise :
    (n : Node) (c d : Bytes → Option Bytes)
    → ((p : Bytes) → c p ≡ d p)
    → read_node n d ≡ read_node n c
read_node_pointwise absent c d h = refl
read_node_pointwise (regular text) c d h = refl
read_node_pointwise (link target) c d h = sym (h target)

read_conf-IsSame : (a b : Files) → IsSame a b → read_conf b ≡ read_conf a
unfolding read_conf
read_conf-IsSame a b (e, h) = rw (sym e) (read_node_pointwise a.conf a.contents b.contents h)

readable_text :
    (n : Node) (contents : Bytes → Option Bytes)
    → IsRestorable (record { conf = n; backup = none; contents = contents })
    → (text : Bytes) × (read_node n contents ≡ some text)
readable_text absent contents r = absurd r
readable_text (regular text) contents r = (text, refl)
readable_text (link target) contents r = r.1

backup_resolv_conf-IsRecoverable :
    (original fs : Files)
    → IsRestorable original
    → IsRecoverable original fs
    → (text : Bytes) × (read_conf original ≡ some text)
      × ((backup_resolv_conf fs).backup ≡ some (backup_text original.conf text))
      × ((p : Bytes) → original.contents p ≡ (backup_resolv_conf fs).contents p)
unfolding backup_resolv_conf
backup_resolv_conf-IsRecoverable original fs r (inl (same, e)) =
    let (text, e_text) = readable_text original.conf original.contents r in
    let read : read_conf fs ≡ some text =
      read_conf-IsSame original fs same ∙ (unfold read_conf in e_text) in
    (
      text,
      (unfold read_conf in e_text),
      rw (backup_resolv_conf, e, read) (ap (λ n. some (backup_text n text)) (sym same.0)),
      λ p. rw (backup_resolv_conf, e, read) (same.1 p),
    )
backup_resolv_conf-IsRecoverable original fs r (inr (text, e_text, e, same)) =
    (text, e_text, rw (backup_resolv_conf, e) e, λ p. rw (backup_resolv_conf, e) (same p))

-- apply_dns keeps the original recoverable.
pub apply_dns-IsRecoverable :
    (original fs : Files) (dns : List Addr) (fallback : Addr)
    → IsRestorable original
    → IsRecoverable original fs
    → IsRecoverable original (apply_dns dns fallback fs)
unfolding apply_dns write_conf
apply_dns-IsRecoverable original fs dns fallback r h =
    inr (backup_resolv_conf-IsRecoverable original fs r h)

restore_node :
    (n : Node) (contents now : Bytes → Option Bytes) (text : Bytes)
    → IsRestorable (record { conf = n; backup = none; contents = contents })
    → read_node n contents ≡ some text
    → ((p : Bytes) → contents p ≡ now p)
    → (bk : Option Bytes)
    → let fs' =
        restore_backup
          (backup_text n text)
          (record { conf = absent; backup = bk; contents = now }) in
      (n ≡ fs'.conf) × ((p : Bytes) → contents p ≡ fs'.contents p)
unfolding restore_backup write_conf backup_text
restore_node absent contents now text r e same bk = absurd r
restore_node (regular first) contents now text r e same bk =
    let one : text ≡ first = cc in
    let plain : linked (backup_text (regular first) text) ≡ none = ap linked one ∙ r in
    rw (restore_backup, plain) (ap regular (sym one), same)
restore_node (link target) contents now text r e same bk =
    let named : linked (backup_text (link target) text) ≡ some (target, text) =
      linked-backup_text target text r.0 in
    rw (restore_backup, named)
      (refl, λ p. same p ∙ sym (update_same now target text p (sym (same target) ∙ e)))

-- restore_dns brings the original back.
pub restore_dns-IsSame :
    (original fs : Files)
    → IsRestorable original
    → IsRecoverable original fs
    → IsSame original (restore_dns fs) × ((restore_dns fs).backup ≡ none)
unfolding restore_dns
restore_dns-IsSame original fs r (inl (same, e)) = rw (restore_dns, e) (same, e)
restore_dns-IsSame original fs r (inr (text, e_text, e, same)) =
    rw (restore_dns, e)
      (
        restore_node original.conf original.contents fs.contents text r (unfold read_conf in e_text)
            same fs.backup,
        refl,
      )

abbrev pub apply_all : List (List Addr × Addr) → Files → Files
apply_all [] fs = fs
apply_all (a ∷ rest) fs = apply_all rest (apply_dns a.0 a.1 fs)

apply_all-IsRecoverable :
    (uses : List (List Addr × Addr)) (original fs : Files)
    → IsRestorable original
    → IsRecoverable original fs
    → IsRecoverable original (apply_all uses fs)
apply_all-IsRecoverable [] original fs r h = h
apply_all-IsRecoverable (a ∷ uses) original fs r h =
    apply_all-IsRecoverable uses original (apply_dns a.0 a.1 fs) r
      (apply_dns-IsRecoverable original fs a.0 a.1 r h)

-- From no backup file and a resolv.conf that is a regular file whose first line does not begin with
-- `LINK:`, or a link, without a line feed in its target, to a file that can be read: any number of
-- apply_dns calls followed by one restore_dns leaves the original path, link or file, the original
-- content of every file, and no backup.
pub restore_dns-apply_dns :
    (original : Files) (uses : List (List Addr × Addr))
    → IsRestorable original
    → original.backup ≡ none
    → IsSame original (restore_dns (apply_all uses original))
      × ((restore_dns (apply_all uses original)).backup ≡ none)
restore_dns-apply_dns original uses r e =
    restore_dns-IsSame original (apply_all uses original) r
      (apply_all-IsRecoverable uses original original r (inl ((refl, λ p. refl), e)))

-- A path that was absent is not made absent again: with no backup file, restore_dns leaves the
-- generated servers in place.
pub restore_dns-absent :
    (fs : Files) (dns : List Addr) (fallback : Addr)
    → fs.conf ≡ absent
    → fs.backup ≡ none
    → (restore_dns (apply_dns dns fallback fs)).conf ≡ regular (resolv_text dns fallback)
unfolding restore_dns apply_dns write_conf
restore_dns-absent fs dns fallback e b =
    let unread : read_conf fs ≡ none = (unfold read_conf in ap (λ n. read_node n fs.contents) e) in
    let kept : (apply_dns dns fallback fs).backup ≡ none =
      (unfold backup_resolv_conf in ground (arith, unread, b)) in
    rw (restore_dns, kept) refl
