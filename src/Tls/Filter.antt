-- ===== src/Tls/Filter.antt =====
-- core/daemon/domain_filter.go.
pub mod Matching
pub mod Parsing
use wifi_stick_usb_switcher.Prelude.{
  ℕ, suc, zero, ◌<◌, Bool, true, false, not, ◌&&◌, ◌||◌, List, [], ◌∷◌, ◌++◌, Option, none, some,
  ◌==◌, ltb, if◌then◌else◌, length,
}
use wifi_stick_usb_switcher.Prelude.Result.{Result, ok, err}
use wifi_stick_usb_switcher.Prelude.Text.{Bytes, codes, bytes_eq, trim_space}
use wifi_stick_usb_switcher.Prelude.Search.{cut_prefix, has_prefix, contains}
use wifi_stick_usb_switcher.Tls.Names.{Netip, to_lower, contains_any, valid_dns_name}

pub data RuleKind : Type 0 where
  exact subdomain punycode_label deep_subdomain domain_and_subdomains single_label : RuleKind

-- A rule of addresses, or one of names.
pub data Rule (P : Type 0) : Type 0 where
  cidr : P → Rule P
  named : RuleKind → Bytes → Rule P

pub data FilterError : Type 0 where
  empty_rule : FilterError
  ip_requires_cidr invalid_pattern : Bytes → FilterError

abbrev pub prepend : ℕ → Option Bytes → Option Bytes
prepend c none = none
prepend c (some s) = some (c ∷ s)

-- What stands before the suffix, where the text ends in it.
unfoldable pub cut_suffix : Bytes → Bytes → Option Bytes
cut_suffix suffix [] = if bytes_eq suffix [] then some [] else none
cut_suffix suffix (c ∷ cs) =
    let rest = cut_suffix suffix cs in if bytes_eq suffix (c ∷ cs) then some [] else prepend c rest

-- The switch on the prefix of a rule's text.
unfoldable pub rule_of : Bytes → RuleKind × Bytes
rule_of value = elim (cut_prefix (codes "+*.") value) [
  | some name ↦ (punycode_label, name)
  | none ↦ elim (cut_prefix (codes "**.") value) [
    | some name ↦ (deep_subdomain, name)
    | none ↦ elim (cut_prefix (codes "+.") value) [
      | some name ↦ (subdomain, name)
      | none ↦ elim (cut_prefix (codes "*.") value) [
        | some name ↦ (domain_and_subdomains, name)
        | none ↦ elim (cut_prefix (codes "?.") value) [
          | some name ↦ (single_label, name)
          | none ↦ (exact, value)
        ]
      ]
    ]
  ]
]

abbrev is_some : Option Bytes → Bool
is_some none = false
is_some (some s) = true

abbrev pub is_punycode : Bytes → Bool
is_punycode prefix =
    not (contains (codes ".") prefix) && (has_prefix (codes "xn--") prefix && ltb 4 (length prefix))

-- The cases of a rule of names; `none` is a name that does not end in the rule's.
abbrev pub prefix_allowed : RuleKind → Bool → Option Bytes → Bool
prefix_allowed exact same before = same
prefix_allowed subdomain same before = not same && is_some before
prefix_allowed deep_subdomain same before = not same && is_some before
prefix_allowed domain_and_subdomains same before = same || is_some before
prefix_allowed punycode_label same none = false
prefix_allowed punycode_label same (some prefix) = is_punycode prefix
prefix_allowed single_label same none = false
prefix_allowed single_label same (some prefix) = length prefix == 1

unfoldable pub name_allowed : RuleKind → Bytes → Bytes → Bool
name_allowed kind rule name =
    prefix_allowed kind (bytes_eq name rule) (cut_suffix (b'.' ∷ rule) name)

module _ {A P : Type 0} (net : Netip A P) where
  unfoldable pub parse_rule : Bytes → Result FilterError (Rule P)
  parse_rule raw =
      let value = to_lower (trim_space raw) in
      let (kind, name) = rule_of value in
      if bytes_eq value [] then err empty_rule else elim (net.parse_prefix value) [
        | some prefix ↦ ok (cidr (net.masked prefix))
        | none ↦ elim (net.parse_addr value) [
          | some ip ↦ err (ip_requires_cidr raw)
          | none ↦
              if contains_any name (codes "*+?") || not (valid_dns_name net name)
              then err (invalid_pattern raw)
              else ok (named kind name)
        ]
      ]

  abbrev pub add_rule :
      Rule P → Result FilterError (List (Rule P)) → Result FilterError (List (Rule P))
  add_rule rule (ok rules) = ok (rule ∷ rules)
  add_rule rule (err e) = err e

  unfoldable pub parse_domain_filter : List Bytes → Result FilterError (List (Rule P))
  parse_domain_filter [] = ok []
  parse_domain_filter (raw ∷ values) = elim (parse_rule raw) [
    | err e ↦ err e
    | ok rule ↦ add_rule rule (parse_domain_filter values)
  ]

  abbrev pub configured : List (Rule P) → Bool
  configured [] = false
  configured (rule ∷ rules) = true

  unfoldable pub allows_ip : List (Rule P) → A → Bool
  allows_ip [] ip = false
  allows_ip (cidr prefix ∷ rules) ip = net.contains prefix ip || allows_ip rules ip
  allows_ip (named kind name ∷ rules) ip = allows_ip rules ip

  unfoldable pub allows_name : List (Rule P) → Bytes → Bool
  allows_name [] name = false
  allows_name (cidr prefix ∷ rules) name = allows_name rules name
  allows_name (named kind rule ∷ rules) name = name_allowed kind rule name || allows_name rules name

  unfoldable pub allows : List (Rule P) → Bytes → Bool
  allows rules name =
      let by_name = allows_name rules (to_lower name) in
      if configured rules
      then elim (net.parse_addr name) [ some ip ↦ allows_ip rules ip | none ↦ by_name ]
      else true
