-- ===== src/Ipc/Answers.antt =====
-- core/daemonipc: every request to the daemon is answered by one package.
use mathlib.Core.Path.{subst}
use wifi_stick_usb_switcher.Prelude.{
  ℕ, Bool, true, false, List, [], ◌∷◌, Option, none, some, ◌≡◌, inl, inr, refl, sym, Option-cases,
  ap, if◌then◌else◌,
}
use wifi_stick_usb_switcher.Prelude.Int.{ℤ}
use wifi_stick_usb_switcher.Prelude.Result.{Result, ok, err}
use wifi_stick_usb_switcher.Prelude.Text.{Bytes}
use wifi_stick_usb_switcher.Ipc.Core.{
  Kind, uint8, int, string, bool, Value, number, integer, text, flag, Package, IpcHandlerStatus,
  payload_struct_not_found, invalid_payload, invalid_handler, invalid_handler_result, Called,
  results, Handler, nil, no_function, function, Registry, same_type, put, register_handler,
  register_handler_replace, get_payload_struct_by_handler, fall_back, settle, after_handler,
  handle_request, HandleError, dispatch_parsed, dispatch,
}
use wifi_stick_usb_switcher.Ipc.Server.{
  DaemonInterface, server_fallback, server_hooks, toggle_led, gadget, status, simulate_button,
  init_server, handler_of, package_simulate_button, package_status, package_gadget,
  package_toggle_led,
}

-- The values are of the kinds.
abbrev pub fits_kinds : List Kind → List Value → Bool
fits_kinds [] [] = true
fits_kinds (uint8 ∷ ks) (number n ∷ vs) = fits_kinds ks vs
fits_kinds (int ∷ ks) (integer n ∷ vs) = fits_kinds ks vs
fits_kinds (string ∷ ks) (text n ∷ vs) = fits_kinds ks vs
fits_kinds (bool ∷ ks) (flag n ∷ vs) = fits_kinds ks vs
fits_kinds _ _ = false

abbrev pub IsAnswer : Called → Type 0
IsAnswer c = (p : Package) × (c ≡ results (some p) none)

-- The handler answers every payload of its kinds.
abbrev pub AreAnswered : {W : Type 0} → List Kind → Option (Handler W) → Type 0
AreAnswered {W} metas (some (function f)) =
    (payload : List Value) (w : W)
    → fits_kinds metas payload ≡ true
    → IsAnswer ((f.call payload w).0)
AreAnswered metas _ = Unit

abbrev pub IsServing : {W : Type 0} → Registry W → Type 0
IsServing r =
    (t : ℤ) (metas : List Kind) → r.structs t ≡ some metas → AreAnswered metas (r.handlers t)

fall_back-IsAnswered :
    (e : HandleError) (s : IpcHandlerStatus) (cause : Option Bytes) (t : ℤ) (d : Bytes)
    → (p : Package) × (fall_back server_hooks e s cause t d ≡ ok (some p))
unfolding fall_back server_fallback
fall_back-IsAnswered e payload_struct_not_found cause t d = (_, refl)
fall_back-IsAnswered e invalid_payload cause t d = (_, refl)
fall_back-IsAnswered e invalid_handler cause t d = (_, refl)
fall_back-IsAnswered e invalid_handler_result cause t d = (_, refl)

module _ {W : Type 0} (parse_data : List Kind → Bytes → Result Bytes (List Value))
    (parse_data-fits_kinds : (metas : List Kind) (d : Bytes) (values : List Value)
      → parse_data metas d ≡ ok values
      → fits_kinds metas values ≡ true) where
  dispatch-IsAnswered :
      (h : Option (Handler W)) (metas : List Kind) (t : ℤ) (d : Bytes) (values : List Value) (w : W)
      → AreAnswered metas h
      → fits_kinds metas values ≡ true
      → (p : Package) × ((dispatch server_hooks h t d values w).0 ≡ ok (some p))
  unfolding settle after_handler
  dispatch-IsAnswered none metas t d values w a f = fall_back-IsAnswered _ _ _ t d
  dispatch-IsAnswered (some nil) metas t d values w a f = fall_back-IsAnswered _ _ _ t d
  dispatch-IsAnswered (some no_function) metas t d values w a f = fall_back-IsAnswered _ _ _ t d
  dispatch-IsAnswered (some (function g)) metas t d values w a f =
      let (p, e) = a values w f in (p, ap (settle server_hooks t d) e)

  parsed-IsAnswered :
      (h : Option (Handler W)) (metas : List Kind) (t : ℤ) (d : Bytes)
      (parsed : Result Bytes (List Value)) (w : W)
      → AreAnswered metas h
      → ((values : List Value) → parsed ≡ ok values → fits_kinds metas values ≡ true)
      → (p : Package) × ((dispatch_parsed server_hooks h t d parsed w).0 ≡ ok (some p))
  parsed-IsAnswered h metas t d (err e) w a f = fall_back-IsAnswered _ _ _ t d
  parsed-IsAnswered h metas t d (ok values) w a f =
      dispatch-IsAnswered h metas t d values w a (f values refl)

  serving-IsAnswered :
      (r : Registry W)
      → IsServing r
      → (t : ℤ) (d : Bytes) (w : W)
      → (p : Package) × ((handle_request parse_data server_hooks r t d w).0 ≡ ok (some p))
  unfolding handle_request
  serving-IsAnswered r serving t d w = elim (Option-cases (r.structs t)) [
    | inl e ↦ rw (handle_request, e) (fall_back-IsAnswered _ _ _ t d)
    | inr (metas, e) ↦
        rw (handle_request, e)
          (parsed-IsAnswered (r.handlers t) metas t d (parse_data metas d) w (serving t metas e)
            (parse_data-fits_kinds metas d))
  ]

-- A payload of one or of two kinds, as the handlers read it.
number_cases :
    (payload : List Value)
    → fits_kinds (uint8 ∷ []) payload ≡ true
    → (n : ℕ) × (payload ≡ number n ∷ [])
number_cases [] e = absurd cc
number_cases (number n ∷ []) e = (n, refl)
number_cases (number n ∷ v ∷ vs) e = absurd cc
number_cases (integer n ∷ vs) e = absurd cc
number_cases (text n ∷ vs) e = absurd cc
number_cases (flag n ∷ vs) e = absurd cc

text_cases :
    (payload : List Value)
    → fits_kinds (string ∷ []) payload ≡ true
    → (n : Bytes) × (payload ≡ text n ∷ [])
text_cases [] e = absurd cc
text_cases (text n ∷ []) e = (n, refl)
text_cases (text n ∷ v ∷ vs) e = absurd cc
text_cases (integer n ∷ vs) e = absurd cc
text_cases (number n ∷ vs) e = absurd cc
text_cases (flag n ∷ vs) e = absurd cc

integer_cases :
    (payload : List Value)
    → fits_kinds (int ∷ []) payload ≡ true
    → (n : ℤ) × (payload ≡ integer n ∷ [])
integer_cases [] e = absurd cc
integer_cases (integer n ∷ []) e = (n, refl)
integer_cases (integer n ∷ v ∷ vs) e = absurd cc
integer_cases (text n ∷ vs) e = absurd cc
integer_cases (number n ∷ vs) e = absurd cc
integer_cases (flag n ∷ vs) e = absurd cc

pair_cases :
    (payload : List Value)
    → fits_kinds (uint8 ∷ int ∷ []) payload ≡ true
    → (n : ℕ) × (k : ℤ) × (payload ≡ number n ∷ integer k ∷ [])
pair_cases [] e = absurd cc
pair_cases (number n ∷ vs) e =
    let (k, same) = integer_cases vs e in (n, k, ap (λ rest. number n ∷ rest) same)
pair_cases (integer n ∷ vs) e = absurd cc
pair_cases (text n ∷ vs) e = absurd cc
pair_cases (flag n ∷ vs) e = absurd cc

module _ {W : Type 0} (daemon : DaemonInterface W) where
  toggle_led-IsAnswer :
      (payload : List Value) (w : W)
      → fits_kinds (uint8 ∷ []) payload ≡ true
      → IsAnswer ((toggle_led daemon payload w).0)
  unfolding toggle_led
  toggle_led-IsAnswer payload w f =
      subst (λ l. IsAnswer ((toggle_led daemon l w).0)) (sym ((number_cases payload f).1)) (_, refl)

  gadget-IsAnswer :
      (payload : List Value) (w : W)
      → fits_kinds (string ∷ []) payload ≡ true
      → IsAnswer ((gadget daemon payload w).0)
  unfolding gadget
  gadget-IsAnswer payload w f =
      subst (λ l. IsAnswer ((gadget daemon l w).0)) (sym ((text_cases payload f).1)) (_, refl)

  status-IsAnswer :
      (payload : List Value) (w : W)
      → fits_kinds (string ∷ []) payload ≡ true
      → IsAnswer ((status daemon payload w).0)
  unfolding status
  status-IsAnswer payload w f =
      subst (λ l. IsAnswer ((status daemon l w).0)) (sym ((text_cases payload f).1)) (_, refl)

  simulate_button-IsAnswer :
      (payload : List Value) (w : W)
      → fits_kinds (uint8 ∷ int ∷ []) payload ≡ true
      → IsAnswer ((simulate_button daemon payload w).0)
  unfolding simulate_button
  simulate_button-IsAnswer payload w f =
      subst (λ l. IsAnswer ((simulate_button daemon l w).0)) (sym ((pair_cases payload f).2))
        (_, refl)

module _ {W : Type 0} where
  at_type :
      (same : Bool) (h : Handler W) (o : Option (Handler W)) (kinds : List Kind)
      (s : Option (List Kind))
      → AreAnswered kinds (some h)
      → ((metas : List Kind) → s ≡ some metas → AreAnswered metas o)
      → (metas : List Kind) → (if same then some kinds else s) ≡ some metas
      → AreAnswered metas (if same then some h else o)
  at_type true h o kinds s new old metas e =
      subst (λ k. AreAnswered k (some h)) (ap (λ o. elim o [ none ↦ kinds | some k ↦ k ]) e) new
  at_type false h o kinds s new old metas e = old metas e

  added-IsServing :
      (u : ℤ) (h : Handler W) (kinds : List Kind) (r : Registry W)
      → AreAnswered kinds (some h)
      → IsServing r
      → IsServing (record { handlers = put u h r.handlers; structs = put u kinds r.structs })
  added-IsServing u h kinds r new old t metas e =
      at_type (same_type u t) h (r.handlers t) kinds (r.structs t) new (old t) metas e

  -- The registry that the four registrations leave.
  init_server-IsServing :
      (daemon : DaemonInterface W) (structs_ : ℤ → Option (List Kind))
      → IsServing (init_server daemon structs_)
  unfolding init_server register_handler register_handler_replace get_payload_struct_by_handler
  init_server-IsServing daemon structs_ =
      added-IsServing package_simulate_button
        (handler_of (uint8 ∷ int ∷ []) (simulate_button daemon)) (uint8 ∷ int ∷ []) _
        (simulate_button-IsAnswer daemon)
        (added-IsServing package_status (handler_of (string ∷ []) (status daemon)) (string ∷ []) _
          (status-IsAnswer daemon)
          (added-IsServing package_gadget (handler_of (string ∷ []) (gadget daemon)) (string ∷ []) _
            (gadget-IsAnswer daemon)
            (added-IsServing package_toggle_led (handler_of (uint8 ∷ []) (toggle_led daemon))
              (uint8 ∷ []) (record { handlers = λ t. none; structs = structs_ })
              (toggle_led-IsAnswer daemon) (λ t metas e. tt))))

  -- Whatever the type and the data of a request, the daemon's framework returns one package and no
  -- error, if the values that are read from JSON are of the kinds that the handler declares and the
  -- daemon's own methods, here functions, return.
  pub handle_request-IsAnswered :
      (daemon : DaemonInterface W) (structs_ : ℤ → Option (List Kind))
      (parse_data : List Kind → Bytes → Result Bytes (List Value))
      → ((metas : List Kind) (d : Bytes) (values : List Value)
          → parse_data metas d ≡ ok values
          → fits_kinds metas values ≡ true)
      → (t : ℤ) (d : Bytes) (w : W)
      → (p : Package) × ((handle_request parse_data server_hooks
            (init_server daemon structs_)
            t
            d
            w).0
          ≡ ok (some p))
  handle_request-IsAnswered daemon structs_ parse_data fits t d w =
      serving-IsAnswered parse_data fits (init_server daemon structs_)
        (init_server-IsServing daemon structs_) t d w
