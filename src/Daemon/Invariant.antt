-- ===== src/Daemon/Invariant.antt =====
-- What holds of the daemon's modes between any two steps: the current mode, the last good mode and
-- the pending target are modes with legal submodes, and every function is in one of its submodes.
-- `sh` is the kind and the number of submodes of each mode, which never change.
pub mod Writes
pub mod Requests
pub mod Events
pub mod Apply
use mathlib.Core.Path.{subst}
use wifi_stick_usb_switcher.Prelude.{
  ℕ, zero, suc, ◌≤◌, ◌<◌, Bool, true, false, List, [], ◌∷◌, Option, none, some, ◌≡◌, refl, sym, ap,
  ◌∙◌, ◌⊎◌, inl, inr, arith, All, map, set, get_elem?, length, Option-cases,
}
use wifi_stick_usb_switcher.Usb.Function.{
  Kind, adb, rndis, UsbGadgetFunction, new_usb_gadget_adb, set_submode,
}
use wifi_stick_usb_switcher.Usb.Controller.Shape.{
  Shape, shape_of, IsLegal, HasShape, All-get, set-HasShape,
}
use wifi_stick_usb_switcher.Daemon.State.{
  Daemon, ApplyTarget, is_rndis, mode_at, modes, set_submode_at,
}
use wifi_stick_usb_switcher.Daemon.Leds.{set_current_led, turn_off_all_leds, display_mode_state}

abbrev pub shape_at : List Shape → ℕ → Shape
shape_at sh i = elim (get_elem? sh i) [ none ↦ (adb, 0) | some s ↦ s ]

-- A target is a mode with one of its submodes.
pub record IsTarget (sh : List Shape) (mode submode : ℕ) : Type 0 where
  pub in_range : mode < length sh
  pub has_submode : submode ≤ (shape_at sh mode).1

-- The fields that the invariant reads.
pub record Core : Type 0 where
  pub functions : List UsbGadgetFunction
  pub current_mode : ℕ
  pub current_mode_rndis : Bool
  pub last_good_mode : ℕ
  pub last_good_submode : ℕ
  pub pending_apply : ApplyTarget

abbrev pub core : {W : Type 0} → Daemon W → Core
core d = record {
  functions = d.rig.functions;
  current_mode = d.current_mode;
  current_mode_rndis = d.current_mode_rndis;
  last_good_mode = d.last_good_mode;
  last_good_submode = d.last_good_submode;
  pending_apply = d.pending_apply;
}

pub record Inv (sh : List Shape) (c : Core) : Type 0 where
  pub shape : HasShape sh c.functions
  pub current_in : c.current_mode < length sh
  pub good : IsTarget sh c.last_good_mode c.last_good_submode
  pub pending : IsTarget sh c.pending_apply.mode c.pending_apply.submode
  pub flag : c.current_mode_rndis ≡ is_rndis (shape_at sh c.current_mode).0

abbrev function_at : List UsbGadgetFunction → ℕ → UsbGadgetFunction
function_at fs i = elim (get_elem? fs i) [ none ↦ new_usb_gadget_adb | some f ↦ f ]

function_at-shape :
    (sh : List Shape) (fs : List UsbGadgetFunction) (i : ℕ)
    → map shape_of fs ≡ sh
    → shape_of (function_at fs i) ≡ shape_at sh i
unfolding new_usb_gadget_adb
function_at-shape sh [] i e = rw (← e) refl
function_at-shape sh (f ∷ fs) zero e = rw (← e) refl
function_at-shape sh (f ∷ fs) (suc i) e = rw (← e) (function_at-shape (map shape_of fs) fs i refl)

function_at-IsLegal :
    (fs : List UsbGadgetFunction) (i : ℕ) → All IsLegal fs → IsLegal (function_at fs i)
unfolding new_usb_gadget_adb
function_at-IsLegal [] i h = omega arith
function_at-IsLegal (f ∷ fs) zero h = h.0
function_at-IsLegal (f ∷ fs) (suc i) h = function_at-IsLegal fs i h.1

set_out :
    (fs : List UsbGadgetFunction) (i : ℕ) (f : UsbGadgetFunction)
    → get_elem? fs i ≡ none
    → set fs i f ≡ fs
set_out [] i f e = refl
set_out (x ∷ fs) zero f e = cc
set_out (x ∷ fs) (suc i) f e = ap (λ l. x ∷ l) (set_out fs i f e)

module _ {W : Type 0} {sh : List Shape} where
  pub mode_at-shape :
      (i : ℕ) (d : Daemon W) → HasShape sh (modes d) → shape_of (mode_at i d) ≡ shape_at sh i
  mode_at-shape i d h = function_at-shape sh (modes d) i h.same

  pub mode_at-IsLegal : (i : ℕ) (d : Daemon W) → HasShape sh (modes d) → IsLegal (mode_at i d)
  mode_at-IsLegal i d h = function_at-IsLegal (modes d) i h.legal

  pub set_submode_at-HasShape :
      (i n : ℕ) (d : Daemon W)
      → n ≤ (shape_at sh i).1
      → HasShape sh (modes d)
      → HasShape sh (modes (set_submode_at i n d))
  set_submode_at-HasShape i n d l h = elim (Option-cases (get_elem? d.rig.functions i)) [
    | inl e ↦
        subst (λ fs. HasShape sh fs)
          (sym (set_out d.rig.functions i (set_submode n (mode_at i d)) e)) h
    | inr (f, e) ↦
        set-HasShape d.rig.functions i f (set_submode n (mode_at i d)) e
          (ap (λ o. shape_of (elim o [ none ↦ new_usb_gadget_adb | some g ↦ g ])) e)
          (subst (λ s. n ≤ s.1) (sym (mode_at-shape i d h)) l) h
  ]
