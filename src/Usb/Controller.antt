-- ===== src/Usb/Controller.antt =====
-- core/usb/controller.go: rebuilding the gadget and enabling it.
-- The functions are shared objects: a pointer is an index into the heap of functions. Everything
-- that touches configfs, the UDC or the network is a parameter, the `Driver`.
pub mod Shape
use wifi_stick_usb_switcher.Prelude.{
  ℕ, zero, suc, Bool, true, false, List, [], ◌∷◌, ◌++◌, Option, none, some, get_elem?, set,
  if◌then◌else◌, map,
}
use wifi_stick_usb_switcher.Prelude.Text.{Bytes, bytes_eq}
use wifi_stick_usb_switcher.Usb.Function.{UsbGadgetFunction, set_effected, get_path}

-- How a call ends: with a nil error, with an error, or with a panic.
pub data Outcome : Type 0 where
  succeeds fails panics : Outcome

-- A method of a function: it may change the function object and the state `W` of the system.
abbrev pub Method : Type 0 → Type 0
Method W = UsbGadgetFunction → W → W × UsbGadgetFunction × Outcome

-- What the controller calls: the methods of `*gadget.Ctx`, the file system, the clock, and the
-- methods behind the interface `UsbGadgetFunction`. `range_add` and `range_effect` are the orders
-- in which Go's two `range` loops over the map of target functions visit its values.
pub record Driver (W : Type 0) : Type 0 where
  pub clean_all : W → W × Outcome
  pub create_gadget : W → W × Outcome
  pub stat_gadget : W → W × Bool
  pub sleep_poll : W → W
  pub find_udc : W → W × Option Bytes
  pub bind_udc : Bytes → W → W × Outcome
  pub add : Method W
  pub effect : Method W
  pub remove : Method W
  pub enable : Method W
  pub range_add : List ℕ → List ℕ
  pub range_effect : List ℕ → List ℕ
  pub range_enable : List (Bytes × ℕ) → List (Bytes × ℕ)

-- The system and the heap of functions.
pub record Rig (W : Type 0) : Type 0 where
  pub world : W
  pub functions : List UsbGadgetFunction

-- The maps from paths to functions; `current_functions` is reset and never read.
pub record UsbGadgetController : Type 0 where
  pub current_functions : List (Bytes × ℕ)
  pub target_functions : List (Bytes × ℕ)

-- The keys of the error map.
pub data FunctionError : Type 0 where
  clean_all_error create_gadget_error enable_gadget_error : FunctionError
  add_panic call_add effect_panic call_effect : Bytes → FunctionError
  remove_panic call_remove call_enable : Bytes → FunctionError

-- An error map (empty for nil), or a panic that the controller does not recover.
pub data Applied : Type 0 where
  returned : List FunctionError → Applied
  panicked : Applied

unfoldable pub reset_functions : Bool → UsbGadgetController → UsbGadgetController
reset_functions targets c = record {
  current_functions = [];
  target_functions = if targets then [] else c.target_functions;
}

unfoldable pub clear_functions : UsbGadgetController → UsbGadgetController
clear_functions c = reset_functions true c

-- Map assignment.
unfoldable pub assign : Bytes → ℕ → List (Bytes × ℕ) → List (Bytes × ℕ)
assign k v [] = (k, v) ∷ []
assign k v ((j, w) ∷ m) = if bytes_eq j k then (k, v) ∷ m else (j, w) ∷ assign k v m

abbrev pub pointers : List (Bytes × ℕ) → List ℕ
pointers = map (λ e. e.1)

-- The error of a call that is recovered: none, the error's key or the panic's.
abbrev pub recovered : Outcome → FunctionError → FunctionError → List FunctionError
recovered succeeds on_error on_panic = []
recovered fails on_error on_panic = on_error ∷ []
recovered panics on_error on_panic = on_panic ∷ []

abbrev pub succeeded : Outcome → Bool
succeeded succeeds = true
succeeded _ = false

abbrev pub append_error : List FunctionError → Applied → Applied
append_error e (returned es) = returned (e ++ es)
append_error e panicked = panicked

abbrev pub with_world : {W : Type 0} → Rig W → W → Rig W
with_world rig w = record rig { world = w }

module _ {W : Type 0} where
  -- The rest of a sequence behind a call that may fail with the error `e`.
  abbrev pub guarded : Outcome → FunctionError → Rig W → Rig W × Applied → Rig W × Applied
  guarded succeeds e rig next = next
  guarded fails e rig next = (rig, returned (e ∷ []))
  guarded panics e rig next = (rig, panicked)

  -- The rest of `Enable`'s loop behind one function.
  abbrev pub continue_enable : Outcome → Bytes → Rig W → Rig W × Applied → Rig W × Applied
  continue_enable succeeds path rig next = next
  continue_enable fails path rig (rig', rest) = (rig', append_error (call_enable path ∷ []) rest)
  continue_enable panics path rig next = (rig, panicked)

  -- Go dereferences a nil pointer where the model's pointer is dangling.
  unfoldable pub call : Method W → ℕ → Rig W → Rig W × Outcome
  call method p rig = elim (get_elem? rig.functions p) [
    | none ↦ (rig, panics)
    | some f ↦
        let (w, f', outcome) = method f rig.world in
        (record { world = w; functions = set rig.functions p f' }, outcome)
  ]

  abbrev pub path_at : ℕ → Rig W → Bytes
  path_at p rig = elim (get_elem? rig.functions p) [ none ↦ [] | some f ↦ get_path f ]

  abbrev pub is_effected : ℕ → Rig W → Bool
  is_effected p rig = elim (get_elem? rig.functions p) [ none ↦ false | some f ↦ f.effected ]

  unfoldable pub mark_effected : Bool → ℕ → Rig W → Rig W
  mark_effected b p rig = elim (get_elem? rig.functions p) [
    | none ↦ rig
    | some f ↦ record rig { functions = set rig.functions p (set_effected b f) }
  ]

  unfoldable pub add_function : ℕ → Rig W → UsbGadgetController → Rig W × UsbGadgetController
  add_function p rig c =
      let rig' = mark_effected false p rig in
      (rig', record c { target_functions = assign (path_at p rig') p c.target_functions })

  module _ (driver : Driver W) where
    -- The loop that adds: the statuses in the order of the visits.
    unfoldable pub add_loop : List ℕ → Rig W → Rig W × List Bool × List FunctionError
    add_loop [] rig = (rig, [], [])
    add_loop (p ∷ ps) rig =
        let (called, outcome) = call driver.add p rig in
        let skip = is_effected p rig in
        let rig' = if skip then rig else called in
        let path = path_at p rig' in
        let errors = if skip then [] else recovered outcome (call_add path) (add_panic path) in
        let (rig'', statuses, rest) = add_loop ps rig' in
        (rig'', (if skip then true else succeeded outcome) ∷ statuses, errors ++ rest)

    unfoldable pub safe_remove : ℕ → Rig W → Rig W × List FunctionError
    safe_remove p rig =
        let (rig', outcome) = call driver.remove p rig in
        (rig', recovered outcome (call_remove (path_at p rig')) (remove_panic (path_at p rig')))

    unfoldable pub effect_one : ℕ → Rig W → Rig W × List FunctionError
    effect_one p rig =
        let (rig', outcome) = call driver.effect p rig in
        let errors =
          recovered outcome (call_effect (path_at p rig')) (effect_panic (path_at p rig')) in
        if succeeded outcome
        then (mark_effected true p rig', errors)
        else let (rig'', more) = safe_remove p rig' in (rig'', errors ++ more)

    -- The loop that effects; the `n`-th visit reads the `n`-th status.
    unfoldable pub effect_loop : List ℕ → List Bool → Rig W → Rig W × List FunctionError
    effect_loop [] statuses rig = (rig, [])
    effect_loop (p ∷ ps) [] rig = (rig, [])
    effect_loop (p ∷ ps) (added ∷ statuses) rig =
        let (rig', errors) = if added then effect_one p rig else safe_remove p rig in
        let (rig'', rest) = effect_loop ps statuses rig' in (rig'', errors ++ rest)

    -- Polls until the gadget's directory is gone. A poll takes 20 ms at least, so two seconds hold
    -- a hundred of them at most.
    unfoldable pub wait_gadget_removed : ℕ → W → W
    wait_gadget_removed zero w = w
    wait_gadget_removed (suc polls) w =
        let (w', exists) = driver.stat_gadget w in
        let again = wait_gadget_removed polls (driver.sleep_poll w') in if exists then again else w'

    unfoldable pub rebuild_functions : UsbGadgetController → Rig W → Rig W × Applied
    rebuild_functions c rig =
        let targets = pointers c.target_functions in
        let (rig', statuses, add_errors) = add_loop (driver.range_add targets) rig in
        let (rig'', effect_errors) = effect_loop (driver.range_effect targets) statuses rig' in
        (rig'', returned (add_errors ++ effect_errors))

    unfoldable pub create_functions : UsbGadgetController → Rig W → Rig W × Applied
    create_functions c rig =
        let (w, created) = driver.create_gadget rig.world in
        let rig' = with_world rig w in
        guarded created create_gadget_error rig' (rebuild_functions c rig')

    unfoldable pub apply_functions : UsbGadgetController → Rig W → Rig W × Applied
    apply_functions c rig =
        let (w, cleaned) = driver.clean_all rig.world in
        guarded cleaned clean_all_error (with_world rig w)
          (create_functions c (with_world rig (wait_gadget_removed 100 w)))

    -- The loop of `Enable`; a panic of a function's `enable` ends it.
    unfoldable pub enable_loop : List (Bytes × ℕ) → Rig W → Rig W × Applied
    enable_loop [] rig = (rig, returned [])
    enable_loop ((path, p) ∷ ps) rig =
        let (rig', outcome) = call driver.enable p rig in
        let (rig'', rest) = enable_loop ps rig' in continue_enable outcome path rig' (rig'', rest)

    unfoldable pub bind_gadget : Option Bytes → W → W × Outcome
    bind_gadget none w = (w, fails)
    bind_gadget (some udc) w = driver.bind_udc udc w

    unfoldable pub enable_gadget : W → W × Outcome
    enable_gadget w = let (w', udc) = driver.find_udc w in bind_gadget udc w'

    unfoldable pub enable : UsbGadgetController → Rig W → Rig W × Applied
    enable c rig =
        let (w, bound) = enable_gadget rig.world in
        let rig' = with_world rig w in
        guarded bound enable_gadget_error rig'
          (enable_loop (driver.range_enable c.target_functions) rig')

    unfoldable pub reconfigure_function : ℕ → Rig W → Rig W × Outcome
    reconfigure_function p rig = call driver.enable p rig

unfoldable pub new_usb_gadget_controller : UsbGadgetController
new_usb_gadget_controller = record { current_functions = []; target_functions = [] }
