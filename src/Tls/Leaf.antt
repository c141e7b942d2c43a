-- ===== src/Tls/Leaf.antt =====
-- core/daemon/tls_service.go: the key, the validity and the cache of leaf certificates. Instants and
-- durations are integers in nanoseconds.
pub mod Validity
pub mod Keys
use wifi_stick_usb_switcher.Prelude.{
  ℕ, zero, suc, ◌+◌, ◌-◌, ◌*◌, ◌^◌, ◌%◌, Bool, true, false, not, ◌&&◌, ◌||◌, List, [], ◌∷◌, ◌++◌,
  Option, none, some, ◌==◌, leb, ltb, if◌then◌else◌,
}
use wifi_stick_usb_switcher.Prelude.Int.{ℤ, pos, negsuc, ◌+ℤ◌, ◌-ℤ◌, ltb_ℤ}
use wifi_stick_usb_switcher.Prelude.Result.{Result, ok, err}
use wifi_stick_usb_switcher.Prelude.Text.{Bytes, codes, bytes_eq, trim_space}
use wifi_stick_usb_switcher.Prelude.Decimal.{atoi}
use wifi_stick_usb_switcher.Prelude.Search.{cut_prefix, split}

pub data Curve : Type 0 where
  p256 p384 p521 : Curve

pub data Key : Type 0 where
  ecdsa : Curve → Key
  rsa : ℕ → Key

pub data LeafError : Type 0 where
  bad_rsa_size no_rsa_scheme unsupported no_curve_scheme expired not_valid_yet failed : LeafError

-- The constructor's check of the size behind `rsa`.
abbrev pub is_rsa_size : Option ℤ → Bool
is_rsa_size none = false
is_rsa_size (some (negsuc n)) = false
is_rsa_size (some (pos n)) = leb 4096 n && n % 1024 == 0

abbrev pub is_rsa : Option Bytes → Bool
is_rsa none = false
is_rsa (some text) = is_rsa_size (atoi text)

-- The generator's own check of it: `none` is the error.
abbrev pub rsa_bits : Option ℤ → Option ℕ
rsa_bits none = none
rsa_bits (some (negsuc n)) = none
rsa_bits (some (pos n)) = if ltb n 4096 || not (n % 1024 == 0) then none else some n

unfoldable pub supported_tls_algorithm : Bytes → Bool
supported_tls_algorithm algorithm =
    bytes_eq algorithm (codes "ecdsa-p256")
    || (bytes_eq algorithm (codes "ecdsa-p384")
        || (bytes_eq algorithm (codes "ecdsa-p521") || is_rsa (cut_prefix (codes "rsa") algorithm)))

abbrev pub hex_digit : ℕ → Option ℕ
hex_digit c =
    if leb b'0' c && leb c b'9'
    then some (c - b'0')
    else if leb b'a' c && leb c b'f'
    then some (c - b'a' + 10)
    else if leb b'A' c && leb c b'F'
    then some (c - b'A' + 10)
    else none

unfoldable pub hex_value : ℕ → Bytes → Option ℕ
hex_value acc [] = some acc
hex_value acc (c ∷ cs) = elim (hex_digit c) [ none ↦ none | some d ↦ hex_value (acc * 16 + d) cs ]

-- `strconv.ParseUint(value, 16, 16)`.
unfoldable pub parse_hex16 : Bytes → Option ℕ
parse_hex16 [] = none
parse_hex16 (c ∷ cs) = elim (hex_value 0 (c ∷ cs)) [
  | none ↦ none
  | some n ↦ if leb n (2 ^ 16 - 1) then some n else none
]

abbrev without_0x : Option Bytes → Bytes → Bytes
without_0x none value = value
without_0x (some rest) value = rest

unfoldable pub parse_schemes : List Bytes → List ℕ
parse_schemes [] = []
parse_schemes (value ∷ rest) =
    elim (parse_hex16 (trim_space (without_0x (cut_prefix (codes "0x") value) value))) [
      | none ↦ parse_schemes rest
      | some scheme ↦ scheme ∷ parse_schemes rest
    ]

abbrev pub is_rsa_scheme : ℕ → Bool
is_rsa_scheme s =
    s == 0x0401 || (s == 0x0501 || (s == 0x0601 || (s == 0x0804 || (s == 0x0805 || s == 0x0806))))

unfoldable pub has_rsa_signature_scheme : List ℕ → Bool
has_rsa_signature_scheme [] = false
has_rsa_signature_scheme (s ∷ rest) = is_rsa_scheme s || has_rsa_signature_scheme rest

unfoldable pub has_scheme : ℕ → List ℕ → Bool
has_scheme compatible [] = false
has_scheme compatible (s ∷ rest) = s == compatible || has_scheme compatible rest

abbrev pub is_empty : List ℕ → Bool
is_empty [] = true
is_empty (s ∷ rest) = false

unfoldable pub curve_key : Curve → ℕ → List ℕ → Result LeafError Key
curve_key curve compatible schemes =
    if is_empty schemes || has_scheme compatible schemes
    then ok (ecdsa curve)
    else err no_curve_scheme

abbrev pub rsa_key : List ℕ → Option ℕ → Result LeafError Key
rsa_key schemes none = err bad_rsa_size
rsa_key schemes (some n) =
    if is_empty schemes || has_rsa_signature_scheme schemes then ok (rsa n) else err no_rsa_scheme

unfoldable pub key_for : Bytes → List ℕ → Result LeafError Key
key_for algorithm schemes = elim (cut_prefix (codes "rsa") algorithm) [
  | some text ↦ rsa_key schemes (rsa_bits (atoi text))
  | none ↦
      if bytes_eq algorithm (codes "ecdsa-p256")
      then curve_key p256 0x0403 schemes
      else if bytes_eq algorithm (codes "ecdsa-p384")
      then curve_key p384 0x0503 schemes
      else if bytes_eq algorithm (codes "ecdsa-p521")
      then curve_key p521 0x0603 schemes
      else err unsupported
]

-- The kind of key that is generated.
unfoldable pub generate_leaf_key : Bytes → Bytes → Result LeafError Key
generate_leaf_key algorithm signature_schemes =
    key_for algorithm (parse_schemes (split b',' signature_schemes))

abbrev pub minute : ℤ
minute = pos 60_000_000_000

-- `b` if it is before `a`.
unfoldable pub min_time : ℤ → ℤ → ℤ
min_time a b = if ltb_ℤ b a then b else a

pub record Root : Type 0 where
  pub not_before : ℤ
  pub not_after : ℤ

-- The validity of a leaf. The clock is read twice, and the key is generated in between.
unfoldable pub leaf_validity : Root → ℤ → ℤ → ℤ → Result LeafError Key → Result LeafError (ℤ × ℤ)
leaf_validity root duration first now (err e) =
    if ltb_ℤ root.not_after first then err expired else err e
leaf_validity root duration first now (ok key) =
    let ends = now +ℤ duration in
    let starts = now -ℤ minute in
    if ltb_ℤ root.not_after first
    then err expired
    else if ltb_ℤ now root.not_before
    then err not_valid_yet
    else ok (
      (if ltb_ℤ starts root.not_before then root.not_before else starts),
      (if ltb_ℤ root.not_after ends then root.not_after else ends),
    )

-- `cert` is the certificate with its key.
pub record Cached (C : Type 0) : Type 0 where
  pub cert : C
  pub expires_at : ℤ

abbrev pub cache_key : Bytes → Bytes → Bytes
cache_key server_name signature_schemes = server_name ++ (0 ∷ signature_schemes)

abbrev pub Cache : Type 0 → Type 0
Cache C = List (Bytes × Cached C)

module _ {C : Type 0} where
  unfoldable pub lookup : Bytes → Cache C → Option (Cached C)
  lookup key [] = none
  lookup key ((k, c) ∷ rest) = if bytes_eq k key then some c else lookup key rest

  -- A cached certificate that lasts for more than a minute.
  abbrev pub fresh : ℤ → Option (Cached C) → Option C
  fresh now none = none
  fresh now (some c) = if ltb_ℤ minute (c.expires_at -ℤ now) then some c.cert else none

  abbrev pub store :
      Root → ℤ → ℤ → Bytes → Cache C → Result LeafError C → Result LeafError C × Cache C
  store root duration after key cache (err e) = (err e, cache)
  store root duration after key cache (ok cert) = (
    ok cert,
    (key, record { cert = cert; expires_at = min_time (after +ℤ duration) root.not_after }) ∷ cache,
  )

  -- `now` is the clock before, `after` behind the generation.
  unfoldable pub get_or_generate :
      Root → ℤ → ℤ → ℤ → Bytes → Bytes → Cache C → Result LeafError C → Result LeafError C × Cache C
  get_or_generate root duration now after server_name signature_schemes cache generated =
      let key = cache_key server_name signature_schemes in
      elim (fresh now (lookup key cache)) [
        | some cert ↦ (ok cert, cache)
        | none ↦ store root duration after key cache generated
      ]
