-- ===== src/Tls/Names.antt =====
-- core/daemon/tls_service.go, valid_certificate_name, with `net/netip` as a parameter. Names are
-- ASCII text.
use wifi_stick_usb_switcher.Prelude.{
  ℕ, ◌+◌, Bool, true, false, not, ◌&&◌, ◌||◌, List, [], ◌∷◌, Option, none, some, ◌==◌, leb, ltb,
  if◌then◌else◌, length,
}
use wifi_stick_usb_switcher.Prelude.Text.{Bytes, bytes_eq}
use wifi_stick_usb_switcher.Prelude.Search.{split}

-- Addresses and prefixes; `is_plain` is `IsValid` with an empty `Zone`.
pub record Netip (A P : Type 0) : Type 0 where
  pub parse_addr : Bytes → Option A
  pub is_plain : A → Bool
  pub show_addr : A → Bytes
  pub parse_prefix : Bytes → Option P
  pub masked : P → P
  pub contains : P → A → Bool

-- `strings.ToLower`.
abbrev pub lower_byte : ℕ → ℕ
lower_byte c = if leb b'A' c && leb c b'Z' then c + 32 else c

unfoldable pub to_lower : Bytes → Bytes
to_lower [] = []
to_lower (c ∷ cs) = lower_byte c ∷ to_lower cs

-- `strings.ContainsAny`.
unfoldable pub is_any : ℕ → Bytes → Bool
is_any c [] = false
is_any c (d ∷ ds) = c == d || is_any c ds

unfoldable pub contains_any : Bytes → Bytes → Bool
contains_any [] chars = false
contains_any (c ∷ cs) chars = is_any c chars || contains_any cs chars

abbrev pub is_name_byte : ℕ → Bool
is_name_byte c =
    leb b'a' c && leb c b'z'
    || (leb b'A' c && leb c b'Z' || (leb b'0' c && leb c b'9' || c == b'-'))

unfoldable pub are_name_bytes : Bytes → Bool
are_name_bytes [] = true
are_name_bytes (c ∷ cs) = is_name_byte c && are_name_bytes cs

unfoldable pub ends_in_dash : Bytes → Bool
ends_in_dash [] = false
ends_in_dash (c ∷ []) = c == b'-'
ends_in_dash (c ∷ d ∷ cs) = ends_in_dash (d ∷ cs)

abbrev pub starts_with_dash : Bytes → Bool
starts_with_dash [] = false
starts_with_dash (c ∷ cs) = c == b'-'

unfoldable pub is_label : Bytes → Bool
is_label label =
    not (bytes_eq label [])
    && (leb (length label) 63
        && (not (starts_with_dash label) && (not (ends_in_dash label) && are_name_bytes label)))

unfoldable pub are_labels : List Bytes → Bool
are_labels [] = true
are_labels (label ∷ rest) = is_label label && are_labels rest

-- The bytes that a name must not hold: blank, slash, backslash, tab, return and newline.
abbrev pub separators : Bytes
separators = b' ' ∷ b'/' ∷ 92 ∷ 9 ∷ 13 ∷ 10 ∷ []

module _ {A P : Type 0} (net : Netip A P) where
  unfoldable pub valid_certificate_name : Bytes → Bool
  valid_certificate_name name = elim (net.parse_addr name) [
    | some ip ↦ net.is_plain ip
    | none ↦
        not (bytes_eq name [])
        && (leb (length name) 253
            && (not (contains_any name separators) && are_labels (split b'.' name)))
  ]

  unfoldable pub valid_dns_name : Bytes → Bool
  valid_dns_name name =
      let valid = valid_certificate_name name in
      if bytes_eq name [] || ltb 253 (length name)
      then false
      else elim (net.parse_addr name) [ some ip ↦ false | none ↦ valid ]
