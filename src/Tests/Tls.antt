-- ===== src/Tests/Tls.antt =====
-- The theorems on the TLS service, with one address and its prefix.
use wifi_stick_usb_switcher.Prelude.{
  ℕ, true, List, [], ◌∷◌, none, some, ◌≡◌, ◌↔◌, refl, ◌==◌, if◌then◌else◌,
}
use wifi_stick_usb_switcher.Prelude.Int.{pos, ◌+ℤ◌, ◌-ℤ◌}
use wifi_stick_usb_switcher.Prelude.Result.{Result, ok}
use wifi_stick_usb_switcher.Prelude.Text.{Bytes, codes, bytes_eq, trim_space, trim_left}
use wifi_stick_usb_switcher.Prelude.Search.{cut_prefix, split}
use wifi_stick_usb_switcher.Tls.Names.{
  Netip, to_lower, contains_any, is_any, are_name_bytes, ends_in_dash, is_label, are_labels,
  valid_certificate_name, valid_dns_name,
}
use wifi_stick_usb_switcher.Tls.Filter.{
  domain_and_subdomains, Rule, named, rule_of, name_allowed, parse_rule, parse_domain_filter,
}
use wifi_stick_usb_switcher.Tls.Filter.Matching.{Matches, name_allowed-Matches}
use wifi_stick_usb_switcher.Tls.Filter.Parsing.{IsComplete, parse_domain_filter-IsComplete}
use wifi_stick_usb_switcher.Tls.Service.{
  Gate, Request, status_ok, check_generate, handle_ask, handle_generate,
}
use wifi_stick_usb_switcher.Tls.Service.Gates.{
  IsAsked, handle_ask-IsAsked, IsIssued, handle_generate-IsIssued,
}
use wifi_stick_usb_switcher.Tls.Service.{requested}
use wifi_stick_usb_switcher.Tls.Leaf.{
  ecdsa, p384, supported_tls_algorithm, key_for, Root, leaf_validity, LeafError, Cache, cache_key,
  get_or_generate,
}
use wifi_stick_usb_switcher.Tls.Leaf.Keys.{is_ok, key_for-supported_tls_algorithm}
use wifi_stick_usb_switcher.Tls.Leaf.Validity.{
  IsWithin, leaf_validity-IsWithin, AreBounded, IsServed, get_or_generate-IsServed,
}

abbrev net : Netip ℕ ℕ
net = record {
  parse_addr = λ s. if bytes_eq s (codes "10.22.33.1") then some 1 else none;
  is_plain = λ a. true;
  show_addr = λ a. codes "10.22.33.1";
  parse_prefix = λ s. none;
  masked = λ p. p;
  contains = λ p a. p == a;
}

abbrev gate : Gate ℕ
gate = record { is_current_rndis_mode = true; rndis_owns_ip = λ a. a == 1 }

abbrev request : Request
request = record {
  is_get = true;
  domain = codes "10.22.33.1";
  local_ip = codes "10.22.33.1";
  server_name = [];
  signature_schemes = [];
}

name_allowed-Matches_example :
    (name_allowed domain_and_subdomains (codes "lan") (codes "stick.lan") ≡ true)
    ↔ Matches domain_and_subdomains (codes "lan") (codes "stick.lan")
name_allowed-Matches_example =
    name_allowed-Matches domain_and_subdomains (codes "lan") (codes "stick.lan")

abbrev values : List Bytes
values = codes "*.Lan" ∷ []

abbrev rules : List (Rule ℕ)
rules = named domain_and_subdomains (codes "lan") ∷ []

parsed : parse_domain_filter net values ≡ ok rules
unfolding parse_domain_filter parse_rule rule_of to_lower contains_any is_any valid_dns_name
    valid_certificate_name are_labels is_label are_name_bytes ends_in_dash split cut_prefix
    trim_space trim_left bytes_eq
parsed = refl

parse_domain_filter-IsComplete_example : IsComplete net values rules
parse_domain_filter-IsComplete_example = parse_domain_filter-IsComplete net values rules parsed

handle_ask-IsAsked_example :
    (handle_ask net gate [] request ≡ status_ok) ↔ IsAsked net gate [] request
handle_ask-IsAsked_example = handle_ask-IsAsked net gate [] request

generated : handle_generate net gate [] request ≡ ok (codes "10.22.33.1")
unfolding handle_generate check_generate valid_certificate_name trim_space trim_left bytes_eq
generated = refl

handle_generate-IsIssued_example :
    (true ≡ true)
    × ((local_ip : ℕ) × (net.parse_addr (trim_space (codes "10.22.33.1")) ≡ some local_ip)
        × (requested net gate [] local_ip [] ≡ codes "10.22.33.1")
        × IsIssued net gate [] local_ip (codes "10.22.33.1"))
handle_generate-IsIssued_example =
    handle_generate-IsIssued net gate [] request (codes "10.22.33.1") generated

key_for-supported_tls_algorithm_example :
    is_ok (key_for (codes "rsa4096") []) ≡ supported_tls_algorithm (codes "rsa4096")
key_for-supported_tls_algorithm_example = key_for-supported_tls_algorithm (codes "rsa4096")

abbrev root : Root
root = record { not_before = pos 1000; not_after = pos 2000 }

issued :
    leaf_validity root (pos 500) (pos 1600) (pos 1700) (ok (ecdsa p384)) ≡ ok (pos 1000, pos 2000)
unfolding leaf_validity ◌+ℤ◌ ◌-ℤ◌
issued = refl

leaf_validity-IsWithin_example : IsWithin root (pos 500) (pos 1700) (pos 1000, pos 2000)
leaf_validity-IsWithin_example =
    leaf_validity-IsWithin root (pos 500) (pos 1600) (pos 1700) (ok (ecdsa p384))
      (pos 1000, pos 2000) issued

abbrev made : Result LeafError ℕ
made = ok 7

abbrev no_cache : Cache ℕ
no_cache = []

get_or_generate-IsServed_example :
    IsServed
      (pos 1700)
      (cache_key (codes "stick.lan") [])
      no_cache
      made
      (get_or_generate root (pos 500) (pos 1700) (pos 1701) (codes "stick.lan") [] no_cache made)
    × AreBounded root
        (get_or_generate root
          (pos 500)
          (pos 1700)
          (pos 1701)
          (codes "stick.lan")
          []
          no_cache
          made).1
get_or_generate-IsServed_example =
    get_or_generate-IsServed root (pos 500) (pos 1700) (pos 1701) (codes "stick.lan") [] no_cache
      made tt
