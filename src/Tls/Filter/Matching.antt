-- ===== src/Tls/Filter/Matching.antt =====
-- core/daemon/domain_filter.go, allows: the names that a rule is for.
use wifi_stick_usb_switcher.Prelude.{
  ℕ, true, false, [], ◌∷◌, ◌++◌, Option, none, some, ◌==◌, ◌≡◌, ◌⊎◌, ◌↔◌, inl, inr, refl, sym, ap,
  ◌∙◌, arith, length, length-append, Bool-cases,
}
use wifi_stick_usb_switcher.Prelude.Text.{Bytes, bytes_eq, bytes_eq_iff}
use wifi_stick_usb_switcher.Tls.Filter.{
  RuleKind, exact, subdomain, punycode_label, deep_subdomain, domain_and_subdomains, single_label,
  prepend, cut_suffix, is_punycode, prefix_allowed, name_allowed,
}

-- The names of a rule, without reference to how the code finds them.
abbrev pub Matches : RuleKind → Bytes → Bytes → Type 0
Matches exact rule name = name ≡ rule
Matches subdomain rule name = (prefix : Bytes) × (name ≡ prefix ++ (b'.' ∷ rule))
Matches deep_subdomain rule name = (prefix : Bytes) × (name ≡ prefix ++ (b'.' ∷ rule))
Matches domain_and_subdomains rule name =
    (name ≡ rule) ⊎ ((prefix : Bytes) × (name ≡ prefix ++ (b'.' ∷ rule)))
Matches punycode_label rule name =
    (prefix : Bytes) × (name ≡ prefix ++ (b'.' ∷ rule)) × (is_punycode prefix ≡ true)
Matches single_label rule name = (c : ℕ) × (name ≡ c ∷ b'.' ∷ rule)

abbrev IsPrefix : Bytes → Bytes → Option Bytes → Type 0
IsPrefix suffix s none = Unit
IsPrefix suffix s (some before) = s ≡ before ++ suffix

prepend-IsPrefix :
    (suffix s : Bytes) (c : ℕ) (o : Option Bytes)
    → IsPrefix suffix s o
    → IsPrefix suffix (c ∷ s) (prepend c o)
prepend-IsPrefix suffix s c none h = tt
prepend-IsPrefix suffix s c (some before) h = ap (λ t. c ∷ t) h

cut_suffix-IsPrefix : (suffix s : Bytes) → IsPrefix suffix s (cut_suffix suffix s)
unfolding cut_suffix
cut_suffix-IsPrefix suffix [] = elim (Bool-cases (bytes_eq suffix [])) [
  | inl e ↦ rw e (sym ((bytes_eq_iff suffix []).0 e))
  | inr e ↦ rw e tt
]
cut_suffix-IsPrefix suffix (c ∷ cs) = elim (Bool-cases (bytes_eq suffix (c ∷ cs))) [
  | inl e ↦ rw e (sym ((bytes_eq_iff suffix (c ∷ cs)).0 e))
  | inr e ↦
      rw e (prepend-IsPrefix suffix cs c (cut_suffix suffix cs) (cut_suffix-IsPrefix suffix cs))
]

bytes_eq_refl : (s : Bytes) → bytes_eq s s ≡ true
bytes_eq_refl s = (bytes_eq_iff s s).1 refl

longer : (x : ℕ) (p s : Bytes) → bytes_eq s (x ∷ (p ++ s)) ≡ false
longer x p s = elim (Bool-cases (bytes_eq s (x ∷ (p ++ s)))) [
  | inr e ↦ e
  | inl e ↦
      let same : length s ≡ length (x ∷ (p ++ s)) =
        ap length ((bytes_eq_iff s (x ∷ (p ++ s))).0 e) in
      absurd (omega (arith, length-append p s))
]

cut_suffix-append : (suffix p : Bytes) → cut_suffix suffix (p ++ suffix) ≡ some p
unfolding cut_suffix
cut_suffix-append [] [] = (unfold bytes_eq in refl)
cut_suffix-append (c ∷ suffix) [] = rw (bytes_eq_refl (c ∷ suffix)) refl
cut_suffix-append suffix (x ∷ p) =
    rw (cut_suffix, longer x p suffix, cut_suffix-append suffix p) refl

-- A name that ends in the suffix and a dot before it is another name than the suffix.
different : (prefix rule : Bytes) → bytes_eq (prefix ++ (b'.' ∷ rule)) rule ≡ false
different prefix rule = elim (Bool-cases (bytes_eq (prefix ++ (b'.' ∷ rule)) rule)) [
  | inr e ↦ e
  | inl e ↦
      let same : length (prefix ++ (b'.' ∷ rule)) ≡ length rule =
        ap length ((bytes_eq_iff (prefix ++ (b'.' ∷ rule)) rule).0 e) in
      absurd (omega (arith, length-append prefix (b'.' ∷ rule)))
]

one_byte : (s : Bytes) → (length s == 1) ≡ true → (c : ℕ) × (s ≡ c ∷ [])
one_byte [] h = absurd cc
one_byte (c ∷ []) h = (c, refl)
one_byte (c ∷ d ∷ s) h = absurd (ground arith)

-- What the test finds is a match.
found_Matches :
    (kind : RuleKind) (rule name : Bytes) (before : Option Bytes)
    → IsPrefix (b'.' ∷ rule) name before
    → prefix_allowed kind (bytes_eq name rule) before ≡ true
    → Matches kind rule name
found_Matches exact rule name before h e = (bytes_eq_iff name rule).0 e
found_Matches subdomain rule name none h e = absurd (ground arith)
found_Matches subdomain rule name (some p) h e = (p, h)
found_Matches deep_subdomain rule name none h e = absurd (ground arith)
found_Matches deep_subdomain rule name (some p) h e = (p, h)
found_Matches domain_and_subdomains rule name none h e =
    inl (ground (arith, bytes_eq_iff name rule))
found_Matches domain_and_subdomains rule name (some p) h e = inr (p, h)
found_Matches punycode_label rule name none h e = absurd cc
found_Matches punycode_label rule name (some p) h e = (p, h, e)
found_Matches single_label rule name none h e = absurd cc
found_Matches single_label rule name (some p) h e =
    let (c, one) = one_byte p e in (c, h ∙ ap (λ s. s ++ (b'.' ∷ rule)) one)

allowed_suffix :
    (kind : RuleKind) (rule prefix name : Bytes)
    → name ≡ prefix ++ (b'.' ∷ rule)
    → prefix_allowed kind false (some prefix) ≡ true
    → name_allowed kind rule name ≡ true
unfolding name_allowed
allowed_suffix kind rule prefix name e h =
    rw (e, different prefix rule, cut_suffix-append (b'.' ∷ rule) prefix) h

-- A rule allows exactly its names: the name itself; the names below it, at any depth (the same for
-- the two kinds of subdomain rules); both; those with one label below it that is an internationalised
-- one; or those with one byte below it.
pub name_allowed-Matches :
    (kind : RuleKind) (rule name : Bytes)
    → (name_allowed kind rule name ≡ true) ↔ Matches kind rule name
unfolding name_allowed
name_allowed-Matches kind rule name = (
  found_Matches kind rule name (cut_suffix (b'.' ∷ rule) name)
      (cut_suffix-IsPrefix (b'.' ∷ rule) name),
  back kind,
)
  where
    back : (kind : RuleKind) → Matches kind rule name → name_allowed kind rule name ≡ true
    back exact e = rw e (bytes_eq_refl rule)
    back subdomain (p, e) = allowed_suffix subdomain rule p name e refl
    back deep_subdomain (p, e) = allowed_suffix deep_subdomain rule p name e refl
    back domain_and_subdomains (inl e) = rw (e, bytes_eq_refl rule) refl
    back domain_and_subdomains (inr (p, e)) =
        allowed_suffix domain_and_subdomains rule p name e refl
    back punycode_label (p, e, h) = allowed_suffix punycode_label rule p name e h
    back single_label (c, e) = allowed_suffix single_label rule (c ∷ []) name e refl
