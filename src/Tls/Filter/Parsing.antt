-- ===== src/Tls/Filter/Parsing.antt =====
-- core/daemon/domain_filter.go, parse_domain_filter: what an accepted filter consists of.
use wifi_stick_usb_switcher.Prelude.{
  suc, Bool, true, false, not, ◌||◌, List, [], ◌∷◌, ◌≡◌, inl, inr, refl, ap, arith, length,
  Option-cases, if◌then◌else◌, All,
}
use wifi_stick_usb_switcher.Prelude.Result.{Result, ok, err}
use wifi_stick_usb_switcher.Prelude.Text.{Bytes, codes, bytes_eq, trim_space}
use wifi_stick_usb_switcher.Tls.Names.{Netip, to_lower, contains_any, valid_dns_name}
use wifi_stick_usb_switcher.Tls.Filter.{
  Rule, cidr, named, FilterError, empty_rule, invalid_pattern, rule_of, parse_rule, add_rule,
  parse_domain_filter,
}

abbrev pub Holds : {E A : Type 0} → (A → Type 0) → Result E A → Type 0
Holds P (ok a) = P a
Holds P (err e) = Unit

module _ {A P : Type 0} (net : Netip A P) where
  -- A rule of names has a proper DNS name without any wildcard left in it.
  abbrev pub IsProper : Rule P → Type 0
  IsProper (cidr prefix) = Unit
  IsProper (named kind name) =
      (valid_dns_name net name ≡ true) × (contains_any name (codes "*+?") ≡ false)

  -- A rule for each value.
  abbrev pub IsComplete : List Bytes → List (Rule P) → Type 0
  IsComplete values rules = (length rules ≡ length values) × All IsProper rules

  if_Holds :
      {E B : Type 0} (Q : B → Type 0) (b : Bool) (x y : Result E B)
      → (b ≡ true → Holds Q x)
      → (b ≡ false → Holds Q y)
      → Holds Q (if b then x else y)
  if_Holds Q true x y hx hy = hx refl
  if_Holds Q false x y hx hy = hy refl

  parse_rule-IsProper : (raw : Bytes) → Holds IsProper (parse_rule net raw)
  unfolding parse_rule
  parse_rule-IsProper raw =
      let value = to_lower (trim_space raw) in
      let name = (rule_of value).1 in
      if_Holds IsProper (bytes_eq value []) (err empty_rule) _ (λ e. tt)
        (λ e. elim (Option-cases (net.parse_prefix value)) [
          | inr (prefix, p) ↦ rw p tt
          | inl p ↦ elim (Option-cases (net.parse_addr value)) [
            | inr (ip, q) ↦ rw (p, q) tt
            | inl q ↦
                rw (p, q)
                  (if_Holds IsProper
                    (contains_any name (codes "*+?") || not (valid_dns_name net name))
                    (err (invalid_pattern raw)) (ok (named (rule_of value).0 name)) (λ h. tt)
                    (λ h. ground (arith, h)))
          ]
        ])

  add_rule-IsComplete :
      (raw : Bytes) (values : List Bytes) (rule : Rule P)
      (rest : Result FilterError (List (Rule P)))
      → IsProper rule
      → Holds (IsComplete values) rest
      → Holds (IsComplete (raw ∷ values)) (add_rule net rule rest)
  add_rule-IsComplete raw values rule (err e) h hs = tt
  add_rule-IsComplete raw values rule (ok rules) h (same, hs) = (ap suc same, (h, hs))

  parse_Holds : (values : List Bytes) → Holds (IsComplete values) (parse_domain_filter net values)
  unfolding parse_domain_filter
  parse_Holds [] = (refl, tt)
  parse_Holds (raw ∷ values) =
      of_rule (parse_rule net raw) refl (parse_rule-IsProper raw) (parse_Holds values)
    where
      of_rule :
          (r : Result FilterError (Rule P))
          → parse_rule net raw ≡ r
          → Holds IsProper r
          → Holds (IsComplete values) (parse_domain_filter net values)
          → Holds (IsComplete (raw ∷ values)) (parse_domain_filter net (raw ∷ values))
      of_rule (err e) p h hs = rw (parse_domain_filter, p) tt
      of_rule (ok rule) p h hs =
          rw (parse_domain_filter, p)
            (add_rule-IsComplete raw values rule (parse_domain_filter net values) h hs)

  -- An accepted list of values gives one rule for each of them, so that a filter with values is never
  -- taken for one that is not configured, which would allow every name; and every rule of names has a
  -- valid DNS name without a wildcard.
  pub parse_domain_filter-IsComplete :
      (values : List Bytes) (rules : List (Rule P))
      → parse_domain_filter net values ≡ ok rules
      → IsComplete values rules
  parse_domain_filter-IsComplete values rules e =
      let holds : Holds (IsComplete values) (parse_domain_filter net values) = parse_Holds values in
      rw e at holds
