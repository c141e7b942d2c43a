-- ===== src/Daemon/Invariant/Requests.antt =====
-- Gadget requests keep the invariant.
use wifi_stick_usb_switcher.Prelude.{
  ℕ, ◌≤◌, ◌<◌, List, [], ◌∷◌, Option, none, some, ◌≡◌, refl, inl, inr, arith, length, Option-cases,
  Bool-cases, not, ◌==◌, ltb,
}
use mathlib.Core.Path.{subst}
use wifi_stick_usb_switcher.Usb.Function.{UsbGadgetFunction, get_name}
use wifi_stick_usb_switcher.Usb.Controller.Shape.{Shape}
use wifi_stick_usb_switcher.Daemon.State.{Daemon, mode_at, modes, set_current_mode}
use wifi_stick_usb_switcher.Daemon.Requests.{
  select, find_mode, select_checked, select_parsed, is_query, handle_gadget_request,
  handle_requests,
}
use wifi_stick_usb_switcher.Daemon.Spec.{SpecError, parse_gadget_spec}
use wifi_stick_usb_switcher.Prelude.Text.{Bytes, trim_space, bytes_eq}
use wifi_stick_usb_switcher.Prelude.Result.{Result, ok, err}
use wifi_stick_usb_switcher.Daemon.Invariant.{shape_at, core, Inv, mode_at-shape}
use wifi_stick_usb_switcher.Daemon.Invariant.Writes.{
  length-shapes, set_current_mode-Inv, set_submode_at-Inv, if_Inv,
}

-- A mode that is found is one of the modes.
find_mode-Bounded :
    (name : Bytes) (ms : List UsbGadgetFunction) (i : ℕ)
    → find_mode name ms ≡ some i
    → i < length ms
unfolding find_mode
find_mode-Bounded name [] i e = cc
find_mode-Bounded name (m ∷ ms) i e = elim (Bool-cases (bytes_eq (get_name m) name)) [
  | inl b ↦ ground arith
  | inr b ↦ elim (Option-cases (find_mode name ms)) [
    | inl r ↦ ground arith
    | inr (j, r) ↦ let below = find_mode-Bounded name ms j r in ground arith
  ]
]

module _ {W : Type 0} {sh : List Shape} where
  select-Inv :
      (index submode : ℕ) (d : Daemon W)
      → index < length sh
      → submode ≤ (shape_at sh index).1
      → Inv sh (core d)
      → Inv sh (core (select index submode d))
  unfolding select
  select-Inv index submode d i s h =
      if_Inv (not (index == d.current_mode)) _ _
        (λ _.
          set_submode_at-Inv index submode (set_current_mode index d) s
            (set_current_mode-Inv index d i h))
        (λ _.
          if_Inv (not ((mode_at index d).submode == submode)) _ d
            (λ _. set_submode_at-Inv index submode d s h) (λ _. h))

  select_checked-Inv :
      (name : Bytes) (submode : ℕ) (found : Option ℕ) (d : Daemon W)
      → ((i : ℕ) → found ≡ some i → i < length sh)
      → Inv sh (core d)
      → Inv sh (core (select_checked name submode found d).0)
  unfolding select_checked
  select_checked-Inv name submode none d b h = h
  select_checked-Inv name submode (some i) d b h =
      elim (Bool-cases (ltb (mode_at i d).max_submode submode)) [
        | inl e ↦ rw e h
        | inr e ↦ rw e (
            select-Inv i submode d (b i refl)
              (subst (λ s. submode ≤ s.1) (mode_at-shape i d h.shape) (ground arith)) h)
      ]

  select_parsed-Inv :
      (parsed : Result SpecError (Bytes × ℕ)) (d : Daemon W)
      → Inv sh (core d)
      → Inv sh (core (select_parsed parsed d).0)
  unfolding select_parsed
  select_parsed-Inv (err e) d h = h
  select_parsed-Inv (ok (name, submode)) d h =
      select_checked-Inv name submode (find_mode name (modes d)) d
        (λ i e.
          subst (λ l. i < l) (length-shapes (modes d) h.shape.same)
            (find_mode-Bounded name (modes d) i e))
        h

  pub handle_gadget_request-Inv :
      (raw : Bytes) (d : Daemon W) → Inv sh (core d) → Inv sh (core (handle_gadget_request raw d).0)
  unfolding handle_gadget_request
  handle_gadget_request-Inv raw d h = elim (Bool-cases (is_query (trim_space raw))) [
    | inl e ↦ rw e h
    | inr e ↦ rw e (select_parsed-Inv (parse_gadget_spec (trim_space raw)) d h)
  ]

  pub handle_requests-Inv :
      (raws : List Bytes) (d : Daemon W)
      → Inv sh (core d)
      → Inv sh (core (handle_requests raws d).0)
  unfolding handle_requests
  handle_requests-Inv [] d h = h
  handle_requests-Inv (raw ∷ raws) d h =
      handle_requests-Inv raws _ (handle_gadget_request-Inv raw d h)
