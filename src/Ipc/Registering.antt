-- ===== src/Ipc/Registering.antt =====
-- core/daemonipc/core.go: what a registration leaves in the registry.
use mathlib.Core.Path.{subst}
use wifi_stick_usb_switcher.Prelude.{
  Bool, true, false, List, Option, none, some, ◌≡◌, refl, ap, arith, if◌then◌else◌,
}
use wifi_stick_usb_switcher.Prelude.Int.{ℤ, pos, negsuc, ltb_ℤ}
use wifi_stick_usb_switcher.Prelude.Result.{Result, ok, err}
use wifi_stick_usb_switcher.Ipc.Core.{
  Kind, Handler, RegisterError, bad_type, already_registered, put, same_type, is_present, Registry,
  get_payload_struct_by_handler, add_struct, register_handler_replace, register_handler,
  remove_handler,
}

pub same_type_refl : (t : ℤ) → same_type t t ≡ true
same_type_refl (pos n) = ground arith
same_type_refl (negsuc n) = ground arith

pub same_type_eq : (t k : ℤ) → same_type t k ≡ true → t ≡ k
same_type_eq (pos n) (pos m) h = ground arith
same_type_eq (negsuc n) (negsuc m) h = ground arith
same_type_eq (pos n) (negsuc m) h = ground arith
same_type_eq (negsuc n) (pos m) h = ground arith

module _ {W : Type 0} where
  abbrev pub IsRegistered : ℤ → Handler W → Registry W → Registry W → Type 0
  IsRegistered t h before after =
      (before.handlers t ≡ none)
      × (after.handlers t ≡ some h)
      × ((metas : List Kind) × (get_payload_struct_by_handler h ≡ ok metas)
          × (after.structs t ≡ some metas))
      × ((k : ℤ)
          → same_type t k ≡ false
          → (after.handlers k ≡ before.handlers k) × (after.structs k ≡ before.structs k))
      × ((again : Handler W) → register_handler t again after ≡ (some already_registered, after))
      × ((remove_handler t after).1.handlers t ≡ none)

  abbrev added : ℤ → Handler W → List Kind → Registry W → Registry W
  added t h metas r = record { handlers = put t h r.handlers; structs = put t metas r.structs }

  register_parts :
      (t : ℤ) (h : Handler W) (r after : Registry W) (positive : Bool) (o : Option (Handler W))
      (x : Result RegisterError (List Kind))
      → ((if positive
            then if is_present o
              then (some already_registered, r)
              else if positive
              then add_struct t (record { handlers = put t h r.handlers; structs = r.structs }) x
              else (some bad_type, r)
            else (some bad_type, r))
          ≡ (none, after))
      → (positive ≡ true)
        × (o ≡ none)
        × ((metas : List Kind) × (x ≡ ok metas) × (added t h metas r ≡ after))
  register_parts t h r after true none (ok metas) e = (refl, refl, (metas, refl, ap (λ p. p.1) e))
  register_parts t h r after true none (err x) e = absurd cc
  register_parts t h r after true (some o) x e = absurd cc
  register_parts t h r after false o x e = absurd cc

  added-IsRegistered :
      (t : ℤ) (h : Handler W) (metas : List Kind) (r : Registry W)
      → ltb_ℤ (pos 0) t ≡ true
      → r.handlers t ≡ none
      → get_payload_struct_by_handler h ≡ ok metas
      → IsRegistered t h r (added t h metas r)
  unfolding register_handler remove_handler
  added-IsRegistered t h metas r positive absent described =
      let same = same_type_refl t in
      (
        absent,
        rw same refl,
        (metas, described, rw same refl),
        (λ k other. (rw other refl, rw other refl)),
        (λ again. rw (positive, same) refl),
        rw (positive, same) refl,
      )

  -- A registration without an error was of a type without a handler and with a handler that can be
  -- described; then the type has the handler and its description, the other types are as before, a
  -- second registration is an error and changes nothing, and the removal leaves no handler.
  pub register_handler-IsRegistered :
      (t : ℤ) (h : Handler W) (before after : Registry W)
      → register_handler t h before ≡ (none, after)
      → IsRegistered t h before after
  unfolding register_handler register_handler_replace
  register_handler-IsRegistered t h before after e =
      let (positive, absent, (metas, described, is_after)) =
        register_parts t h before after (ltb_ℤ (pos 0) t) (before.handlers t)
          (get_payload_struct_by_handler h) e in
      subst (λ r. IsRegistered t h before r) is_after
        (added-IsRegistered t h metas before positive absent described)
