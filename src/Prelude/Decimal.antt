-- ===== src/Prelude/Decimal.antt =====
-- Go's `strconv.Atoi`, `%d` for numbers that are not negative, and `strings.Cut` at one byte.
use wifi_stick_usb_switcher.Prelude.{
  ℕ, zero, suc, ◌+◌, ◌-◌, ◌*◌, ◌/◌, ◌%◌, ◌^◌, ◌≤◌, ◌<◌, Bool, true, false, ◌&&◌, [], ◌∷◌, ◌++◌,
  Option, none, some, ◌≡◌, ◌≢◌, refl, sym, ap, ◌∙◌, inl, inr, arith, ◌==◌, leb, if◌then◌else◌,
  Bool-cases, All,
}
use wifi_stick_usb_switcher.Prelude.Int.{ℤ, pos, sub_ℕ}
use wifi_stick_usb_switcher.Prelude.Text.{Bytes}

abbrev pub is_digit : ℕ → Bool
is_digit c = leb b'0' c && leb c b'9'

unfoldable pub digits_value : ℕ → Bytes → Option ℕ
digits_value acc [] = some acc
digits_value acc (c ∷ cs) =
    let rest = digits_value (acc * 10 + (c - b'0')) cs in if is_digit c then rest else none

-- The digits behind the sign, within the range of a 64-bit int.
unfoldable pub unsigned_value : ℕ → Bytes → Option ℕ
unfolding digits_value
unsigned_value limit [] = none
unsigned_value limit (c ∷ cs) = elim (digits_value 0 (c ∷ cs)) [
  | none ↦ none
  | some n ↦ if leb n limit then some n else none
]

abbrev positive : Option ℕ → Option ℤ
positive none = none
positive (some n) = some (pos n)

abbrev negative : Option ℕ → Option ℤ
negative none = none
negative (some n) = some (sub_ℕ 0 n)

abbrev pub max_int : ℕ
max_int = 2 ^ 63 - 1

unfoldable pub atoi : Bytes → Option ℤ
unfolding unsigned_value
atoi [] = none
atoi (c ∷ cs) =
    if c == b'-'
    then negative (unsigned_value (2 ^ 63) cs)
    else if c == b'+'
    then positive (unsigned_value max_int cs)
    else positive (unsigned_value max_int (c ∷ cs))

-- The digits of `n` in front of `acc`; `n + 1` rounds are more than it has digits.
unfoldable pub format_digits : ℕ → ℕ → Bytes → Bytes
format_digits zero n acc = acc
format_digits (suc f) n acc =
    let digit = b'0' + n % 10 in
    let rest = format_digits f (n / 10) (digit ∷ acc) in if n / 10 == 0 then digit ∷ acc else rest

unfoldable pub itoa : ℕ → Bytes
unfolding format_digits
itoa n = format_digits (suc n) n []

unfoldable pub cut : ℕ → Bytes → Bytes × Bytes × Bool
cut sep [] = ([], [], false)
cut sep (c ∷ cs) =
    let (before, after, found) = cut sep cs in
    if c == sep then ([], cs, true) else (c ∷ before, after, found)

digits_value_cons :
    (a n : ℕ) (acc : Bytes)
    → a ≡ n / 10
    → digits_value a ((b'0' + n % 10) ∷ acc) ≡ digits_value n acc
unfolding digits_value
digits_value_cons a n acc e =
    let digit : is_digit (b'0' + n % 10) ≡ true = ground arith in
    let value : a * 10 + (b'0' + n % 10 - b'0') ≡ n = omega arith in rw (digit, value)

digits_value-format :
    (f n : ℕ) (acc : Bytes) → n < f → digits_value 0 (format_digits f n acc) ≡ digits_value n acc
unfolding digits_value format_digits
digits_value-format zero n acc h = absurd (omega arith)
digits_value-format (suc f) n acc h = elim (Bool-cases (n / 10 == 0)) [
  | inl one ↦ rw (one, format_digits) (last_digit one)
  | inr more ↦
      rw (more, format_digits)
        (digits_value-format f (n / 10) _ (ground arith) ∙ digits_value_cons (n / 10) n acc refl)
]
  where
    last_digit : (n / 10 == 0) ≡ true → digits_value 0 ((b'0' + n % 10) ∷ acc) ≡ digits_value n acc
    last_digit e = digits_value_cons 0 n acc (ground arith)

format_digits_head :
    (f n : ℕ) (acc : Bytes)
    → n < f
    → (d : ℕ) × (rest : Bytes) × (format_digits f n acc ≡ d ∷ rest) × (is_digit d ≡ true)
unfolding format_digits
format_digits_head zero n acc h = absurd (omega arith)
format_digits_head (suc f) n acc h = elim (Bool-cases (n / 10 == 0)) [
  | inl one ↦ (b'0' + n % 10, acc, rw one, ground arith)
  | inr more ↦ rw more (format_digits_head f (n / 10) ((b'0' + n % 10) ∷ acc) (ground arith))
]

-- `Atoi` reads back what `%d` prints, for every number that an int holds.
pub atoi-itoa : (n : ℕ) → n ≤ max_int → atoi (itoa n) ≡ some (pos n)
unfolding itoa atoi
atoi-itoa n h =
    let (d, rest, e, digit) = format_digits_head (suc n) n [] (omega arith) in
    let value : digits_value 0 (d ∷ rest) ≡ some n =
      ap (digits_value 0) (sym e)
      ∙ digits_value-format (suc n) n [] (omega arith)
      ∙ (unfold digits_value in refl) in
    rw e (ground (arith, value))

pub cut-append :
    (sep : ℕ) (a b : Bytes) → All (λ c. c ≢ sep) a → cut sep (a ++ (sep ∷ b)) ≡ (a, b, true)
unfolding cut
cut-append sep [] b h = ground arith
cut-append sep (x ∷ a) b h = ground (arith, cut-append sep a b h.1)
