-- ===== src/Usb/Rndis/Modes/Runs.antt =====
-- core/usb/rndis.go: the resolver's files over any run of `enable` calls.
use wifi_stick_usb_switcher.Prelude.{◌≤◌, none, some, ◌≡◌, inl, inr, sym, ap, ◌∙◌, arith}
use wifi_stick_usb_switcher.Usb.Resolv.{Files, restore_dns}
use wifi_stick_usb_switcher.Usb.Resolv.Restore.{
  IsRestorable, IsSame, IsRecoverable, apply_dns-IsRecoverable, restore_dns-IsSame,
}
use wifi_stick_usb_switcher.Usb.Rndis.{UsbGadgetRndis, Host, World, IsTimely, with_outside}
use wifi_stick_usb_switcher.Usb.Rndis.Modes.{Outcome, enable}
use wifi_stick_usb_switcher.Usb.Rndis.Modes.Ends.{Enables, enable-Enables}

-- A run of the program: calls of `enable` in legal submodes, and anything that does not touch the
-- resolver's files between them.
pub data Session {W : Type 0} (host : Host W) (original : Files) : World W → Type 0 where
  starts : (w : World W) → w.files ≡ original → Session host original w
  passes :
      (w : World W) (out : W) → Session host original w → Session host original (with_outside w out)
  enables :
      (w : World W) (d : UsbGadgetRndis) (o : Outcome W)
      → Session host original w
      → d.submode ≤ 1
      → enable host d w ≡ some o
      → Session host original o.2

module _ {W : Type 0} (host : Host W) (timely : IsTimely host) (original : Files)
    (readable : IsRestorable original) (fresh : original.backup ≡ none) where
  IsRecoverable-restore_dns :
      (fs : Files) → IsRecoverable original fs → IsRecoverable original (restore_dns fs)
  IsRecoverable-restore_dns fs h = inl (restore_dns-IsSame original fs readable h)

  Enables-IsRecoverable :
      (d : UsbGadgetRndis) (fs : Files) (o : Outcome W)
      → Enables host d fs o
      → IsRecoverable original fs
      → IsRecoverable original o.2.files
  Enables-IsRecoverable d fs (e, d', w') (inl (err, sub, files)) h =
      rw files (IsRecoverable-restore_dns fs h)
  Enables-IsRecoverable d fs (e, d', w') (inr (inl (err, s0, s1, (dns, gateway, files)))) h =
      rw files (apply_dns-IsRecoverable original fs dns gateway readable h)
  Enables-IsRecoverable d fs (e, d', w') (inr (inr (inl (name, err, same, files)))) h = rw files h
  Enables-IsRecoverable d fs (e, d', w') (inr (inr (inr (err, s0, s1, files, why)))) h = rw files h

  step :
      (w : World W) (d : UsbGadgetRndis) (o : Outcome W)
      → d.submode ≤ 1
      → enable host d w ≡ some o
      → IsRecoverable original w.files
      → IsRecoverable original o.2.files
  step w d o le e h =
      let (o', e', ends) = enable-Enables host timely d w le in
      let same : o' ≡ o = cc in Enables-IsRecoverable d w.files o (rw⁻¹ same ends) h

  restored :
      (d : UsbGadgetRndis) (fs : Files) (o : Outcome W)
      → Enables host d fs o
      → o.0 ≡ none
      → o.1.submode ≡ 0
      → IsRecoverable original fs
      → IsSame original o.2.files × (o.2.files.backup ≡ none)
  restored d fs (e, d', w') (inl (err, sub, files)) none_ zero_ h =
      rw files (restore_dns-IsSame original fs readable h)
  restored d fs (e, d', w') (inr (inl (err, s0, s1, joined))) none_ zero_ h = absurd (omega arith)
  restored d fs (e, d', w') (inr (inr (inl (name, err, same, files)))) none_ zero_ h = absurd cc
  restored d fs (e, d', w') (inr (inr (inr (err, s0, s1, files, why)))) none_ zero_ h = absurd cc

  Session-IsRecoverable : (w : World W) → Session host original w → IsRecoverable original w.files
  Session-IsRecoverable w (starts _ e) = inl (
    (ap (λ fs. fs.conf) (sym e), λ p. ap (λ fs. fs.contents p) (sym e)),
    ap (λ fs. fs.backup) e ∙ fresh,
  )
  Session-IsRecoverable w' (passes w out run) = Session-IsRecoverable w run
  Session-IsRecoverable w' (enables w d o run le e) = step w d o le e (Session-IsRecoverable w run)

  -- On a system whose clock goes on, in every run that starts with no backup and with a resolv.conf
  -- that is a regular file whose first line does not begin with `LINK:`, or a link, without a line
  -- feed in its target, to a file that can be read: each later `enable` of a function in a legal
  -- submode returns or panics, and if it ends in submode 0 with no error then the original
  -- resolv.conf, link or file, is in place again, with the original content of every file and no
  -- backup left.
  pub enable-IsSame :
      (w : World W) (d : UsbGadgetRndis)
      → Session host original w
      → d.submode ≤ 1
      → (o : Outcome W) × (enable host d w ≡ some o)
        × (o.0 ≡ none → o.1.submode ≡ 0 → IsSame original o.2.files × (o.2.files.backup ≡ none))
  enable-IsSame w d run le =
      let (o, e, ends) = enable-Enables host timely d w le in
      (o, e, λ err sub. restored d w.files o ends err sub (Session-IsRecoverable w run))
