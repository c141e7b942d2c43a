-- ===== src/Daemon/System/Requests.antt =====
-- What a gadget request does, on every branch.
use wifi_stick_usb_switcher.Prelude.{
  ℕ, zero, suc, ◌≤◌, Bool, true, false, not, List, [], ◌∷◌, Option, none, some, ◌≡◌, refl, sym, ◌∙◌,
  ap, ◌⊎◌, inl, inr, arith, Bool-cases, if◌then◌else◌, ltb, ◌==◌, get_elem?, set,
}
use mathlib.Core.Path.{subst}
use wifi_stick_usb_switcher.Prelude.Text.{Bytes, bytes_eq, bytes_eq_iff, trim_space}
use wifi_stick_usb_switcher.Prelude.Result.{Result, ok, err}
use wifi_stick_usb_switcher.Usb.Function.{
  UsbGadgetFunction, get_name, set_submode, new_usb_gadget_adb,
}
use wifi_stick_usb_switcher.Daemon.Spec.{SpecError, parse_gadget_spec}
use wifi_stick_usb_switcher.Daemon.State.{Daemon, modes, mode_at, set_submode_at, set_current_mode}
use wifi_stick_usb_switcher.Daemon.Requests.{
  RequestError, find_mode, current_gadget_spec, select, select_checked, select_parsed, is_query,
  handle_gadget_request,
}

found_at :
    (b : Bool) (rest : Option ℕ) (i : ℕ)
    → (if b then some 0 else elim rest [ none ↦ none | some k ↦ some (suc k) ]) ≡ some i
    → ((b ≡ true) × (0 ≡ i)) ⊎ ((j : ℕ) × (rest ≡ some j) × (suc j ≡ i))
found_at true rest i e = inl (refl, ground arith)
found_at false none i e = cc
found_at false (some k) i e = inr (k, refl, ground arith)

-- A mode that is found has the name that was asked for.
find_mode-finds :
    (name : Bytes) (ms : List UsbGadgetFunction) (i : ℕ)
    → find_mode name ms ≡ some i
    → (m : UsbGadgetFunction) × (get_elem? ms i ≡ some m) × (get_name m ≡ name)
unfolding find_mode
find_mode-finds name [] i e = cc
find_mode-finds name (m ∷ ms) i e =
    elim (found_at (bytes_eq (get_name m) name) (find_mode name ms) i e) [
      | inl (b, z) ↦
          (m, ap (λ k. get_elem? (m ∷ ms) k) (sym z), (bytes_eq_iff (get_name m) name).0 b)
      | inr (k, r, z) ↦
          let (x, g, n) = find_mode-finds name ms k r in
          (x, ap (λ k'. get_elem? (m ∷ ms) k') (sym z) ∙ g, n)
    ]

current_index : (i c : ℕ) → not (i == c) ≡ false → c ≡ i
current_index i c e = ground arith

get-set :
    (fs : List UsbGadgetFunction) (i : ℕ) (f m : UsbGadgetFunction)
    → get_elem? fs i ≡ some m
    → get_elem? (set fs i f) i ≡ some f
get-set [] i f m e = cc
get-set (x ∷ fs) zero f m e = refl
get-set (x ∷ fs) (suc i) f m e = get-set fs i f m e

-- Of the modes `ms` the one at `current` has the name `name`, and it is in its submode `submode`.
pub record Selection (name : Bytes) (submode : ℕ) (ms : List UsbGadgetFunction) (current : ℕ)
    : Type 0 where
  pub mode : UsbGadgetFunction
  pub found : get_elem? ms current ≡ some mode
  pub same_name : get_name mode ≡ name
  pub same_submode : mode.submode ≡ submode
  pub in_bounds : submode ≤ mode.max_submode

module _ {W : Type 0} where
  abbrev pub Selects : Bytes → ℕ → Daemon W → Type 0
  Selects name submode d = Selection name submode (modes d) d.current_mode

  -- A function as the heap's slot has it.
  mode_at-found :
      (i : ℕ) (d : Daemon W) (m : UsbGadgetFunction)
      → get_elem? (modes d) i ≡ some m
      → mode_at i d ≡ m
  mode_at-found i d m g = ap (λ o. elim o [ none ↦ new_usb_gadget_adb | some f ↦ f ]) g

  if_Selects :
      (name : Bytes) (n : ℕ) (b : Bool) (x y : Daemon W)
      → (b ≡ true → Selects name n x)
      → (b ≡ false → Selects name n y)
      → Selects name n (if b then x else y)
  if_Selects name n true x y hx hy = hx refl
  if_Selects name n false x y hx hy = hy refl

  written-Selects :
      (name : Bytes) (i n : ℕ) (d : Daemon W) (m : UsbGadgetFunction)
      → get_elem? (modes d) i ≡ some m
      → get_name m ≡ name
      → n ≤ m.max_submode
      → d.current_mode ≡ i
      → Selects name n (set_submode_at i n d)
  written-Selects name i n d m g s b c =
      let same = mode_at-found i d m g in
      record {
        mode = set_submode n (mode_at i d);
        found = ap (λ k. get_elem? (modes (set_submode_at i n d)) k) c ∙ get-set (modes d) i _ m g;
        same_name = ap get_name same ∙ s;
        same_submode = refl;
        in_bounds = subst (λ x. n ≤ x.max_submode) (sym same) b;
      }

  select-Selects :
      (name : Bytes) (i n : ℕ) (d : Daemon W) (m : UsbGadgetFunction)
      → get_elem? (modes d) i ≡ some m
      → get_name m ≡ name
      → n ≤ m.max_submode
      → Selects name n (select i n d)
  unfolding select set_current_mode
  select-Selects name i n d m g s b =
      if_Selects name n (not (i == d.current_mode)) _ _
        (λ _. (written-Selects name i n (set_current_mode i d) m g s b refl))
        (λ e.
          if_Selects name n (not ((mode_at i d).submode == n)) _ d
            (λ _. (written-Selects name i n d m g s b (current_index i d.current_mode e)))
            (λ k. record {
              mode = m;
              found = (ap (λ k'. get_elem? (modes d) k') (current_index i d.current_mode e) ∙ g);
              same_name = s;
              same_submode =
                  (ap (λ x. x.submode) (sym (mode_at-found i d m g)) ∙ sym (current_index _ _ k));
              in_bounds = b;
            }))

  -- What an answer says about the daemon `d'` that gave it, asked on `d`.
  pub Answers : Bytes → Daemon W → Daemon W × Result RequestError Bytes → Type 0
  Answers raw d (d', err e) = d' ≡ d
  Answers raw d (d', ok spec) =
      (spec ≡ current_gadget_spec d')
      × (((is_query (trim_space raw) ≡ true) × (d' ≡ d))
          ⊎ ((name : Bytes) × (submode : ℕ) × (parse_gadget_spec (trim_space raw)
                ≡ ok (name, submode))
              × Selects name submode d'))

  checked :
      (name : Bytes) (n : ℕ) (found : Option ℕ) (d : Daemon W) (raw : Bytes)
      → parse_gadget_spec (trim_space raw) ≡ ok (name, n)
      → ((i : ℕ)
          → found ≡ some i
          → (m : UsbGadgetFunction) × (get_elem? (modes d) i ≡ some m) × (get_name m ≡ name))
      → Answers raw d (select_checked name n found d)
  unfolding select_checked Answers
  checked name n none d raw p h = refl
  checked name n (some i) d raw p h = elim (Bool-cases (ltb (mode_at i d).max_submode n)) [
    | inl e ↦ rw e refl
    | inr e ↦
        let (m, g, s) = h i refl in
        let same = mode_at-found i d m g in
        rw e (
          refl,
          inr (
            name,
            n,
            p,
            select-Selects name i n d m g s (subst (λ x. n ≤ x.max_submode) same (ground arith)),
          ),
        )
  ]

  parsed :
      (r : Result SpecError (Bytes × ℕ)) (d : Daemon W) (raw : Bytes)
      → parse_gadget_spec (trim_space raw) ≡ r
      → Answers raw d (select_parsed r d)
  unfolding select_parsed Answers
  parsed (err e) d raw p = refl
  parsed (ok (name, n)) d raw p =
      checked name n (find_mode name (modes d)) d raw p (λ i e. find_mode-finds name (modes d) i e)

  -- A request that is refused changes nothing. One that is answered gets the description of the
  -- mode that is current then, and either it was empty and changed nothing, or it named a mode and one
  -- of its submodes, and they are selected.
  pub handle_gadget_request-Answers :
      (raw : Bytes) (d : Daemon W) → Answers raw d (handle_gadget_request raw d)
  unfolding handle_gadget_request Answers
  handle_gadget_request-Answers raw d = elim (Bool-cases (is_query (trim_space raw))) [
    | inl e ↦ rw e (refl, inl (e, refl))
    | inr e ↦ rw e (parsed (parse_gadget_spec (trim_space raw)) d raw refl)
  ]
