-- ===== src/Led/Device/Triggers.antt =====
-- core/led/led.go, parse_triggers: reading back what the kernel prints.
use mathlib.Core.List.{append-nil, append_assoc}
use wifi_stick_usb_switcher.Prelude.{
  false, List, [], ◌∷◌, ◌++◌, ◌≡◌, ◌≢◌, sym, ap, ◌∙◌, arith, All, ◌==◌,
}
use wifi_stick_usb_switcher.Prelude.Result.{ok}
use wifi_stick_usb_switcher.Prelude.Text.{Bytes, bytes_eq}
use wifi_stick_usb_switcher.Led.Device.{parse_loop, parse_triggers}

-- A trigger's name: not empty, and without the bytes that the file uses for its own.
abbrev pub IsName : Bytes → Type 0
IsName name = (bytes_eq name [] ≡ false) × All (λ c. (c ≢ b'[') × (c ≢ b']') × (c ≢ b' ')) name

abbrev pub AreNames : List Bytes → Type 0
AreNames names = All IsName names

-- The file's text: the names with blanks between them, the active one in brackets.
abbrev pub print_before : List Bytes → Bytes → Bytes
print_before [] rest = rest
print_before (name ∷ names) rest = name ++ (b' ' ∷ print_before names rest)

abbrev pub print_after : List Bytes → Bytes
print_after [] = []
print_after (name ∷ names) = b' ' ∷ (name ++ print_after names)

abbrev pub print_triggers : List Bytes → Bytes → List Bytes → Bytes
print_triggers before active after =
    print_before before (b'[' ∷ (active ++ (b']' ∷ print_after after)))

parse_loop-append :
    (active : Bytes) (available : List Bytes) (word name cs : Bytes)
    → All (λ c. (c ≢ b'[') × (c ≢ b']') × (c ≢ b' ')) name
    → parse_loop active available word (name ++ cs) ≡ parse_loop active available (word ++ name) cs
unfolding parse_loop
parse_loop-append active available word [] cs h =
    ap (λ w. parse_loop active available w cs) (sym (append-nil word))
parse_loop-append active available word (c ∷ name) cs h =
    let one : (c == b'[') ≡ false = ground arith in
    let two : (c == b']') ≡ false = ground arith in
    let three : (c == b' ') ≡ false = ground arith in
    rw (parse_loop, one, two, three)
      (parse_loop-append active available (word ++ (c ∷ [])) name cs h.1
        ∙ ap (λ w. parse_loop active available w cs) (append_assoc word (c ∷ []) name))

parse_loop-print_before :
    (active : Bytes) (names available : List Bytes) (rest : Bytes)
    → AreNames names
    → parse_loop active available [] (print_before names rest)
      ≡ parse_loop active (available ++ names) [] rest
unfolding parse_loop
parse_loop-print_before active [] available rest h =
    ap (λ l. parse_loop active l [] rest) (sym (append-nil available))
parse_loop-print_before active (name ∷ names) available rest ((some_, clean), h) =
    parse_loop-append active available [] name (b' ' ∷ print_before names rest) clean
    ∙ rw some_ (parse_loop-print_before active names (available ++ (name ∷ [])) rest h)
    ∙ ap (λ l. parse_loop active l [] rest) (append_assoc available (name ∷ []) names)

parse_loop-print_after :
    (active : Bytes) (names available : List Bytes) (word : Bytes)
    → bytes_eq word [] ≡ false
    → AreNames names
    → parse_loop active available word (print_after names)
      ≡ ok (active, (available ++ (word ∷ [])) ++ names)
unfolding parse_loop
parse_loop-print_after active [] available word some_ h =
    rw some_ (ap (λ l. ok (active, l)) (sym (append-nil (available ++ (word ∷ [])))))
parse_loop-print_after active (name ∷ names) available word some_ ((full, clean), h) = rw some_ (
    parse_loop-append active (available ++ (word ∷ [])) [] name (print_after names) clean
    ∙ parse_loop-print_after active names (available ++ (word ∷ [])) name full h
    ∙ ap (λ l. ok (active, l)) (append_assoc (available ++ (word ∷ [])) (name ∷ []) names))

parse_loop_rest :
    (active : Bytes) (names available : List Bytes)
    → AreNames names
    → parse_loop active available [] (print_after names) ≡ ok (active, available ++ names)
unfolding parse_loop bytes_eq
parse_loop_rest active [] available h = ap (λ l. ok (active, l)) (sym (append-nil available))
parse_loop_rest active (name ∷ names) available ((full, clean), h) =
    parse_loop-append active available [] name (print_after names) clean
    ∙ parse_loop-print_after active names available name full h
    ∙ ap (λ l. ok (active, l)) (append_assoc available (name ∷ []) names)

-- The text in which the kernel lists the triggers, the active one in brackets, is read back as the
-- active trigger and all triggers in their order, for names that are not empty and hold no blank and
-- no bracket.
pub parse_triggers-print_triggers :
    (before : List Bytes) (active : Bytes) (after : List Bytes)
    → AreNames before
    → IsName active
    → AreNames after
    → parse_triggers (print_triggers before active after) ≡ ok (active, before ++ (active ∷ after))
unfolding parse_triggers parse_loop bytes_eq
parse_triggers-print_triggers before active after hb (full, clean) ha =
    parse_loop-print_before [] before [] (b'[' ∷ (active ++ (b']' ∷ print_after after))) hb
    ∙ parse_loop-append [] before [] active (b']' ∷ print_after after) clean
    ∙ rw full (parse_loop_rest active after (before ++ (active ∷ [])) ha)
    ∙ ap (λ l. ok (active, l)) (append_assoc before (active ∷ []) after)
