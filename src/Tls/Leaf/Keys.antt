-- ===== src/Tls/Leaf/Keys.antt =====
-- core/daemon/tls_service.go: the algorithms that the constructor accepts are those that a key can be
-- generated for.
use wifi_stick_usb_switcher.Prelude.{
  Bool, true, false, ◌||◌, [], ◌∷◌, Option, none, some, ◌≡◌, refl, arith, inl, inr, Option-cases,
  if◌then◌else◌,
}
use wifi_stick_usb_switcher.Prelude.Int.{ℤ, pos, negsuc}
use wifi_stick_usb_switcher.Prelude.Decimal.{atoi}
use wifi_stick_usb_switcher.Prelude.Result.{Result, ok, err}
use wifi_stick_usb_switcher.Prelude.Text.{Bytes, codes, bytes_eq}
use wifi_stick_usb_switcher.Prelude.Search.{cut_prefix}
use wifi_stick_usb_switcher.Tls.Leaf.{
  supported_tls_algorithm, is_rsa_size, rsa_bits, curve_key, rsa_key, key_for, p256, p384, p521,
  unsupported,
}

abbrev pub is_ok : {E A : Type 0} → Result E A → Bool
is_ok (ok a) = true
is_ok (err e) = false

rsa_head :
    (algorithm text rest : Bytes)
    → cut_prefix (codes "rsa") algorithm ≡ some text
    → bytes_eq algorithm (b'e' ∷ rest) ≡ false
unfolding cut_prefix bytes_eq
rsa_head [] text rest e = refl
rsa_head (c ∷ cs) text rest e = ground arith

-- The two checks of the size agree.
rsa_key_lem : (o : Option ℤ) → is_ok (rsa_key [] (rsa_bits o)) ≡ is_rsa_size o
rsa_key_lem none = refl
rsa_key_lem (some (negsuc n)) = refl
rsa_key_lem (some (pos n)) = ground arith

curves_lem :
    (a b c : Bool)
    → is_ok (
        if a
        then curve_key p256 0x0403 []
        else if b
        then curve_key p384 0x0503 []
        else if c
        then curve_key p521 0x0603 []
        else err unsupported)
      ≡ a || (b || (c || false))
unfolding curve_key
curves_lem a b c = ground arith

-- Where the client names no signature scheme, a key is generated for exactly the algorithms that the
-- constructor accepts, so that an accepted algorithm never fails for its name or its size.
pub key_for-supported_tls_algorithm :
    (algorithm : Bytes) → is_ok (key_for algorithm []) ≡ supported_tls_algorithm algorithm
unfolding key_for supported_tls_algorithm
key_for-supported_tls_algorithm algorithm =
    elim (Option-cases (cut_prefix (codes "rsa") algorithm)) [
      | inl e ↦
          rw (key_for, supported_tls_algorithm, e)
            (curves_lem (bytes_eq algorithm (codes "ecdsa-p256"))
              (bytes_eq algorithm (codes "ecdsa-p384")) (bytes_eq algorithm (codes "ecdsa-p521")))
      | inr (text, e) ↦
          rw
            (
              key_for,
              supported_tls_algorithm,
              e,
              rsa_head algorithm text (codes "cdsa-p256") e,
              rsa_head algorithm text (codes "cdsa-p384") e,
              rsa_head algorithm text (codes "cdsa-p521") e,
            )
            (rsa_key_lem (atoi text))
    ]
