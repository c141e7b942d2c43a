-- ===== src/Ipc/Core.antt =====
-- core/daemonipc/core.go: the registry of handlers, the dispatch of a request and its answer. Reflection on a handler and the reading of JSON are parameters; `W` is the state of the
-- daemon that the handlers change.
use wifi_stick_usb_switcher.Prelude.{
  ℕ, ◌==◌, Bool, true, false, List, Option, none, some, if◌then◌else◌,
}
use wifi_stick_usb_switcher.Prelude.Int.{ℤ, pos, negsuc, ltb_ℤ}
use wifi_stick_usb_switcher.Prelude.Result.{Result, ok, err}
use wifi_stick_usb_switcher.Prelude.Text.{Bytes}

-- The types of the handlers' arguments in this program: uint8, int, string and bool.
pub data Kind : Type 0 where
  uint8 int string bool : Kind

pub data Value : Type 0 where
  number : ℕ → Value
  integer : ℤ → Value
  text : Bytes → Value
  flag : Bool → Value

pub record Package : Type 0 where
  pub package_type : ℤ
  pub payload : List Value

pub data IpcHandlerStatus : Type 0 where
  payload_struct_not_found invalid_payload invalid_handler invalid_handler_result : IpcHandlerStatus

-- What a call by reflection ends in: a panic, no results, a package and an error, or another number
-- of results.
pub data Called : Type 0 where
  panicked no_results bad_results : Called
  results : Option Package → Option Bytes → Called

-- The first parameter of a function.
pub data First : Type 0 where
  no_parameter framework other : First

-- `metas` are the other parameters, if typeinject can describe them.
pub record Function (W : Type 0) : Type 0 where
  pub first : First
  pub metas : Option (List Kind)
  pub call : List Value → W → Called × W

pub data Handler (W : Type 0) : Type 0 where
  nil no_function : Handler W
  function : Function W → Handler W

pub data RegisterError : Type 0 where
  bad_type already_registered bad_handler panics : RegisterError

abbrev pub same_type : ℤ → ℤ → Bool
same_type (pos a) (pos b) = a == b
same_type (negsuc a) (negsuc b) = a == b
same_type _ _ = false

module _ {A : Type 0} where
  abbrev pub put : ℤ → A → (ℤ → Option A) → ℤ → Option A
  put t a m k = if same_type t k then some a else m k

  abbrev pub delete : ℤ → (ℤ → Option A) → ℤ → Option A
  delete t m k = if same_type t k then none else m k

  abbrev pub is_present : Option A → Bool
  is_present none = false
  is_present (some a) = true

  abbrev pub or_else : Option A → Option A → Option A
  or_else none b = b
  or_else (some a) b = some a

-- The structs are shared by the frameworks of a process.
pub record Registry (W : Type 0) : Type 0 where
  pub handlers : ℤ → Option (Handler W)
  pub structs : ℤ → Option (List Kind)

abbrev pub described : Option (List Kind) → Result RegisterError (List Kind)
described none = err bad_handler
described (some metas) = ok metas

module _ {W : Type 0} where
  unfoldable pub get_payload_struct_by_handler : Handler W → Result RegisterError (List Kind)
  get_payload_struct_by_handler nil = err bad_handler
  get_payload_struct_by_handler no_function = err bad_handler
  get_payload_struct_by_handler (function f) = elim f.first [
    | no_parameter ↦ err panics
    | other ↦ err bad_handler
    | framework ↦ described f.metas
  ]

  -- The handler stands in the registry before it is tested.
  abbrev pub add_struct :
      ℤ → Registry W → Result RegisterError (List Kind) → Option RegisterError × Registry W
  add_struct t r (err e) = (some e, r)
  add_struct t r (ok metas) =
      (none, record { handlers = r.handlers; structs = put t metas r.structs })

  unfoldable pub register_handler_replace :
      ℤ → Handler W → Registry W → Option RegisterError × Registry W
  register_handler_replace t h r =
      if ltb_ℤ (pos 0) t
      then add_struct t (record { handlers = put t h r.handlers; structs = r.structs })
          (get_payload_struct_by_handler h)
      else (some bad_type, r)

  unfoldable pub register_handler : ℤ → Handler W → Registry W → Option RegisterError × Registry W
  register_handler t h r =
      if ltb_ℤ (pos 0) t
      then if is_present (r.handlers t)
        then (some already_registered, r)
        else register_handler_replace t h r
      else (some bad_type, r)

  unfoldable pub remove_handler : ℤ → Registry W → Option RegisterError × Registry W
  remove_handler t r =
      if ltb_ℤ (pos 0) t
      then (none, record { handlers = delete t r.handlers; structs = delete t r.structs })
      else (some bad_type, r)

pub data HandleError : Type 0 where
  no_payload_struct no_handler wrong_results : HandleError
  unparsable : Bytes → HandleError
  handler_error : Bytes → HandleError

abbrev pub Response : Type 0
Response = Result HandleError (Option Package)

-- The three hooks of a framework, each of which may be unset. A hook returns Go's pair of a value
-- and an error.
pub record Hooks : Type 0 where
  pub fallback :
      Option (IpcHandlerStatus → Option Bytes → ℤ → Bytes → Option Package × Option Bytes)
  pub pre_package : Option (ℤ → List Value → Option (List Value) × Option Bytes)
  pub post_package : Option (Option Package → Option Bytes → Option Package × Option Bytes)

abbrev pub conclude : Option Package × Option Bytes → Response
conclude (p, none) = ok p
conclude (p, some e) = err (handler_error e)

-- The fallback's package, or `e` where it fails or is unset.
abbrev pub of_fallback : HandleError → Option Package × Option Bytes → Response
of_fallback e (p, none) = ok p
of_fallback e (p, some _) = err e

unfoldable pub fall_back :
    Hooks → HandleError → IpcHandlerStatus → Option Bytes → ℤ → Bytes → Response
fall_back hooks e status cause t data_ = elim hooks.fallback [
  | none ↦ err e
  | some f ↦ of_fallback e (f status cause t data_)
]

abbrev pub overwrite :
    Option Package → Option Bytes → Option Package × Option Bytes → Option Package × Option Bytes
overwrite p e (q, d) = (or_else q p, or_else d e)

unfoldable pub after_handler : Hooks → Option Package → Option Bytes → Response
after_handler hooks p e = elim hooks.post_package [
  | none ↦ conclude (p, e)
  | some post ↦ conclude (overwrite p e (post p e))
]

-- A panic of the handler is recovered, and both results are then nil.
unfoldable pub settle : Hooks → ℤ → Bytes → Called → Response
settle hooks t data_ panicked = ok none
settle hooks t data_ no_results = after_handler hooks none none
settle hooks t data_ (results p e) = after_handler hooks p e
settle hooks t data_ bad_results = fall_back hooks wrong_results invalid_handler_result none t data_

-- The payload that the first hook leaves, or its error.
abbrev pub pre_payload : List Value → Option (List Value) × Option Bytes → Result Bytes (List Value)
pre_payload payload (_, some e) = err e
pre_payload payload (none, none) = ok payload
pre_payload payload (some new, none) = ok new

abbrev pub prepare : Hooks → ℤ → List Value → Result Bytes (List Value)
prepare hooks t payload = elim hooks.pre_package [
  | none ↦ ok payload
  | some pre ↦ pre_payload payload (pre t payload)
]

module _ {W : Type 0} where
  abbrev pub call_handler : Hooks → Function W → ℤ → Bytes → List Value → W → Response × W
  call_handler hooks f t data_ payload w =
      let (called, after) = f.call payload w in (settle hooks t data_ called, after)

  abbrev pub run : Hooks → Function W → ℤ → Bytes → Result Bytes (List Value) → W → Response × W
  run hooks f t data_ (err e) w = (err (handler_error e), w)
  run hooks f t data_ (ok payload) w = call_handler hooks f t data_ payload w

  abbrev pub dispatch : Hooks → Option (Handler W) → ℤ → Bytes → List Value → W → Response × W
  dispatch hooks (some (function f)) t data_ payload w =
      run hooks f t data_ (prepare hooks t payload) w
  dispatch hooks _ t data_ payload w = (fall_back hooks no_handler invalid_handler none t data_, w)

  abbrev pub dispatch_parsed :
      Hooks → Option (Handler W) → ℤ → Bytes → Result Bytes (List Value) → W → Response × W
  dispatch_parsed hooks h t data_ (err e) w =
      (fall_back hooks (unparsable e) invalid_payload (some e) t data_, w)
  dispatch_parsed hooks h t data_ (ok payload) w = dispatch hooks h t data_ payload w

module _ {W : Type 0} (parse_data : List Kind → Bytes → Result Bytes (List Value)) where
  unfoldable pub handle_request : Hooks → Registry W → ℤ → Bytes → W → Response × W
  handle_request hooks r t data_ w = elim (r.structs t) [
    | none ↦ (fall_back hooks no_payload_struct payload_struct_not_found none t data_, w)
    | some metas ↦ dispatch_parsed hooks (r.handlers t) t data_ (parse_data metas data_) w
  ]
