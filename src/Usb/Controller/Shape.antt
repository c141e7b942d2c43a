-- ===== src/Usb/Controller/Shape.antt =====
-- What the controller leaves of every function: its kind, its number of submodes, and a submode that
-- the function has.
use wifi_stick_usb_switcher.Prelude.{
  ℕ, zero, suc, ◌≤◌, Bool, true, false, List, [], ◌∷◌, some, ◌≡◌, refl, ap, ◌∙◌, inl, inr, arith,
  All, map, set, get_elem?, Option-cases, Bool-cases, if◌then◌else◌,
}
use wifi_stick_usb_switcher.Prelude.Text.{Bytes}
use wifi_stick_usb_switcher.Usb.Function.{Kind, UsbGadgetFunction, set_effected}
use wifi_stick_usb_switcher.Usb.Controller.{
  Outcome, succeeds, fails, panics, Method, Driver, Rig, UsbGadgetController, Applied,
  FunctionError, clean_all_error, create_gadget_error, enable_gadget_error, with_world, guarded,
  continue_enable, call, mark_effected, add_loop, safe_remove, effect_one, effect_loop,
  rebuild_functions, create_functions, apply_functions, enable_loop, enable, reconfigure_function,
  is_effected, succeeded, wait_gadget_removed, enable_gadget,
}

abbrev pub Shape : Type 0
Shape = Kind × ℕ

abbrev pub shape_of : UsbGadgetFunction → Shape
shape_of f = (f.kind, f.max_submode)

abbrev pub IsLegal : UsbGadgetFunction → Type 0
IsLegal f = f.submode ≤ f.max_submode

-- The functions have the kinds and bounds of `sh`, and each is in one of its submodes.
pub record HasShape (sh : List Shape) (fs : List UsbGadgetFunction) : Type 0 where
  pub same : map shape_of fs ≡ sh
  pub legal : All IsLegal fs

map-set :
    (fs : List UsbGadgetFunction) (i : ℕ) (f f' : UsbGadgetFunction)
    → get_elem? fs i ≡ some f
    → shape_of f' ≡ shape_of f
    → map shape_of (set fs i f') ≡ map shape_of fs
map-set [] i f f' g e = cc
map-set (x ∷ fs) zero f f' g e = ground arith
map-set (x ∷ fs) (suc i) f f' g e = ap (λ l. shape_of x ∷ l) (map-set fs i f f' g e)

All-set :
    (fs : List UsbGadgetFunction) (i : ℕ) (f' : UsbGadgetFunction)
    → IsLegal f'
    → All IsLegal fs
    → All IsLegal (set fs i f')
All-set [] i f' l a = tt
All-set (x ∷ fs) zero f' l a = (l, a.1)
All-set (x ∷ fs) (suc i) f' l a = (a.0, All-set fs i f' l a.1)

pub All-get :
    (fs : List UsbGadgetFunction) (i : ℕ) (f : UsbGadgetFunction)
    → get_elem? fs i ≡ some f
    → All IsLegal fs
    → IsLegal f
All-get [] i f g a = cc
All-get (x ∷ fs) zero f g a = ground arith
All-get (x ∷ fs) (suc i) f g a = All-get fs i f g a.1

-- Writing a function of the same shape in one of its submodes keeps the shape of the heap.
pub set-HasShape :
    {sh : List Shape} (fs : List UsbGadgetFunction) (i : ℕ) (f f' : UsbGadgetFunction)
    → get_elem? fs i ≡ some f
    → shape_of f' ≡ shape_of f
    → IsLegal f'
    → HasShape sh fs
    → HasShape sh (set fs i f')
set-HasShape fs i f f' g e l h = record {
  same = map-set fs i f f' g e ∙ h.same;
  legal = All-set fs i f' l h.legal;
}

-- A method leaves the kind and the bound of its function alone, and sets no illegal submode.
pub record Respects {W : Type 0} (m : Method W) : Type 0 where
  pub keeps_shape : (f : UsbGadgetFunction) (w : W) → shape_of (m f w).1 ≡ shape_of f
  pub keeps_legal : (f : UsbGadgetFunction) (w : W) → IsLegal f → IsLegal (m f w).1

pub record DriverRespects {W : Type 0} (driver : Driver W) : Type 0 where
  pub add_respects : Respects driver.add
  pub effect_respects : Respects driver.effect
  pub remove_respects : Respects driver.remove
  pub enable_respects : Respects driver.enable

module _ {W : Type 0} {sh : List Shape} where
  pub call-HasShape :
      (m : Method W) (r : Respects m) (p : ℕ) (rig : Rig W)
      → HasShape sh rig.functions
      → HasShape sh (call m p rig).0.functions
  unfolding call
  call-HasShape m r p rig h = elim (Option-cases (get_elem? rig.functions p)) [
    | inl e ↦ rw (e, call) h
    | inr (f, e) ↦
        rw (e, call)
          (set-HasShape rig.functions p f (m f rig.world).1 e (r.keeps_shape f rig.world)
            (r.keeps_legal f rig.world (All-get rig.functions p f e h.legal)) h)
  ]

  pub mark_effected-HasShape :
      (b : Bool) (p : ℕ) (rig : Rig W)
      → HasShape sh rig.functions
      → HasShape sh (mark_effected b p rig).functions
  unfolding mark_effected
  mark_effected-HasShape b p rig h = elim (Option-cases (get_elem? rig.functions p)) [
    | inl e ↦ rw (e, mark_effected) h
    | inr (f, e) ↦
        rw (e, mark_effected)
          (set-HasShape rig.functions p f (set_effected b f) e refl
            (All-get rig.functions p f e h.legal) h)
  ]

  guarded-HasShape :
      (o : Outcome) (e : FunctionError) (rig : Rig W) (next : Rig W × Applied)
      → HasShape sh rig.functions
      → HasShape sh next.0.functions
      → HasShape sh (guarded o e rig next).0.functions
  guarded-HasShape succeeds e rig next h k = k
  guarded-HasShape fails e rig next h k = h
  guarded-HasShape panics e rig next h k = h

  continue-HasShape :
      (o : Outcome) (path : Bytes) (rig : Rig W) (next : Rig W × Applied)
      → HasShape sh rig.functions
      → HasShape sh next.0.functions
      → HasShape sh (continue_enable o path rig next).0.functions
  continue-HasShape succeeds path rig next h k = k
  continue-HasShape fails path rig next h k = k
  continue-HasShape panics path rig next h k = h

  if_HasShape :
      (b : Bool) (x y : Rig W)
      → HasShape sh x.functions
      → HasShape sh y.functions
      → HasShape sh (if b then x else y).functions
  if_HasShape true x y hx hy = hx
  if_HasShape false x y hx hy = hy

  module _ (driver : Driver W) (r : DriverRespects driver) where
    add_loop-HasShape :
        (ps : List ℕ) (rig : Rig W)
        → HasShape sh rig.functions
        → HasShape sh (add_loop driver ps rig).0.functions
    unfolding add_loop
    add_loop-HasShape [] rig h = h
    add_loop-HasShape (p ∷ ps) rig h =
        add_loop-HasShape ps _ (
          if_HasShape (is_effected p rig) rig _ h (call-HasShape driver.add r.add_respects p rig h))

    safe_remove-HasShape :
        (p : ℕ) (rig : Rig W)
        → HasShape sh rig.functions
        → HasShape sh (safe_remove driver p rig).0.functions
    unfolding safe_remove
    safe_remove-HasShape p rig h = call-HasShape driver.remove r.remove_respects p rig h

    effect_one-HasShape :
        (p : ℕ) (rig : Rig W)
        → HasShape sh rig.functions
        → HasShape sh (effect_one driver p rig).0.functions
    unfolding effect_one
    effect_one-HasShape p rig h =
        let effected = call-HasShape driver.effect r.effect_respects p rig h in
        elim (Bool-cases (succeeded (call driver.effect p rig).1)) [
          | inl done ↦ rw done (mark_effected-HasShape true p _ effected)
          | inr failed ↦ rw failed (safe_remove-HasShape p _ effected)
        ]

    effect_loop-HasShape :
        (ps : List ℕ) (statuses : List Bool) (rig : Rig W)
        → HasShape sh rig.functions
        → HasShape sh (effect_loop driver ps statuses rig).0.functions
    unfolding effect_loop
    effect_loop-HasShape [] statuses rig h = h
    effect_loop-HasShape (p ∷ ps) [] rig h = h
    effect_loop-HasShape (p ∷ ps) (true ∷ statuses) rig h =
        effect_loop-HasShape ps statuses _ (effect_one-HasShape p rig h)
    effect_loop-HasShape (p ∷ ps) (false ∷ statuses) rig h =
        effect_loop-HasShape ps statuses _ (safe_remove-HasShape p rig h)

    enable_loop-HasShape :
        (ps : List (Bytes × ℕ)) (rig : Rig W)
        → HasShape sh rig.functions
        → HasShape sh (enable_loop driver ps rig).0.functions
    unfolding enable_loop
    enable_loop-HasShape [] rig h = h
    enable_loop-HasShape ((path, p) ∷ ps) rig h =
        let one = call-HasShape driver.enable r.enable_respects p rig h in
        continue-HasShape (call driver.enable p rig).1 path _ _ one (enable_loop-HasShape ps _ one)

    rebuild_functions-HasShape :
        (c : UsbGadgetController) (rig : Rig W)
        → HasShape sh rig.functions
        → HasShape sh (rebuild_functions driver c rig).0.functions
    unfolding rebuild_functions
    rebuild_functions-HasShape c rig h = effect_loop-HasShape _ _ _ (add_loop-HasShape _ rig h)

    create_functions-HasShape :
        (c : UsbGadgetController) (rig : Rig W)
        → HasShape sh rig.functions
        → HasShape sh (create_functions driver c rig).0.functions
    unfolding create_functions
    create_functions-HasShape c rig h =
        let (w, created) = driver.create_gadget rig.world in
        let rig' = with_world rig w in
        guarded-HasShape created create_gadget_error rig' (rebuild_functions driver c rig') h
          (rebuild_functions-HasShape c rig' h)

    pub apply_functions-HasShape :
        (c : UsbGadgetController) (rig : Rig W)
        → HasShape sh rig.functions
        → HasShape sh (apply_functions driver c rig).0.functions
    unfolding apply_functions
    apply_functions-HasShape c rig h =
        let (w, cleaned) = driver.clean_all rig.world in
        let rig' = with_world rig (wait_gadget_removed driver 100 w) in
        guarded-HasShape cleaned clean_all_error (with_world rig w) (create_functions driver c rig')
          h (create_functions-HasShape c rig' h)

    pub enable-HasShape :
        (c : UsbGadgetController) (rig : Rig W)
        → HasShape sh rig.functions
        → HasShape sh (enable driver c rig).0.functions
    unfolding enable
    enable-HasShape c rig h =
        let (w, bound) = enable_gadget driver rig.world in
        let rig' = with_world rig w in
        let paths = driver.range_enable c.target_functions in
        guarded-HasShape bound enable_gadget_error rig' (enable_loop driver paths rig') h
          (enable_loop-HasShape paths rig' h)

    pub reconfigure_function-HasShape :
        (p : ℕ) (rig : Rig W)
        → HasShape sh rig.functions
        → HasShape sh (reconfigure_function driver p rig).0.functions
    unfolding reconfigure_function
    reconfigure_function-HasShape p rig h = call-HasShape driver.enable r.enable_respects p rig h
