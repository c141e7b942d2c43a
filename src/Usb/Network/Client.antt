-- ===== src/Usb/Network/Client.antt =====
-- core/usb/rndis.go, calc_client_ip: the address that the client submode takes in the upstream
-- subnet.
use native.Mathlib.Nat.{
  mul-div_cancel, pow-le-pow_right, mul-add-mod_self_right, mod-lt, mod-eq_of_lt,
}
use wifi_stick_usb_switcher.Prelude.{
  ℕ, zero, suc, ◌+◌, ◌-◌, ◌*◌, ◌/◌, ◌%◌, ◌^◌, ◌≤◌, ◌<◌, ◌≡◌, ◌≢◌, ◌⊎◌, inl, inr, refl, ap, ◌∙◌,
  arith, some, ◌==◌, Bool-cases,
}
use wifi_stick_usb_switcher.Usb.Network.{
  Addr, v4, masked, subnet_last, two_before, calc_client_ip, copy_from, as4, from4,
}
use wifi_stick_usb_switcher.Usb.Network.Masks.{subnet_last_lem, subnet_lem}

-- The whole-byte prefixes below /30.
merged_lem :
    (p : ℕ) (router client : Addr)
    → p % 8 ≡ 0
    → p < 30
    → router < 2 ^ 32
    → client < 2 ^ 32
    → from4 (copy_from (p / 8) (as4 (masked router p)) (as4 client))
      ≡ masked router p + client % 2 ^ (32 - p)
merged_lem p router client whole small hr hc = elim (four p whole small) [
  | inl e ↦ rw e (omega arith)
  | inr (inl e) ↦ rw e (omega arith)
  | inr (inr (inl e)) ↦ rw e (omega arith)
  | inr (inr (inr e)) ↦ rw e (omega arith)
]
  where
    four : (p : ℕ) → p % 8 ≡ 0 → p < 30 → (p ≡ 0) ⊎ (p ≡ 8) ⊎ (p ≡ 16) ⊎ (p ≡ 24)
    four p whole small = omega arith

-- The prefixes of at most /29 that are not whole bytes.
before_last :
    (p : ℕ) (router : Addr)
    → p < 30
    → two_before (subnet_last (v4 (masked router p) p))
      ≡ some (masked router p + (2 ^ (32 - p) - 3))
before_last p router small =
    let size : 2 ^ 3 ≤ 2 ^ (32 - p) =
      pow-le-pow_right {n = 2} (omega arith) {i = 3} (omega arith) in
    let again : masked (masked router p) p ≡ masked router p =
      ap (λ (q : ℕ). q * 2 ^ (32 - p)) (mul-div_cancel (router / 2 ^ (32 - p)) (omega arith)) in
    rw (subnet_last_lem (masked router p) p (omega arith), again)
      (two_before_lem _ (masked router p) (2 ^ (32 - p)) (omega arith) refl)
  where
    two_before_lem :
        (x n s : ℕ) → 8 ≤ s → x ≡ n + (s - 1) → two_before (some x) ≡ some (n + (s - 3))
    two_before_lem zero n s big e = absurd (omega arith)
    two_before_lem (suc zero) n s big e = absurd (omega arith)
    two_before_lem (suc (suc x)) n s big e = ap some (omega arith)

-- For every upstream prefix below /30 the client submode's address exists and lies in the router's
-- subnet: with a prefix of whole bytes its host part is that of the configured address, and with any
-- other prefix it is the second address before the broadcast address.
pub calc_client_ip_subnet :
    (router client : Addr) (p : ℕ)
    → p < 30
    → router < 2 ^ 32
    → client < 2 ^ 32
    → (ip : Addr) × (calc_client_ip (masked router p) p client ≡ some ip)
      × (ip / 2 ^ (32 - p) ≡ router / 2 ^ (32 - p))
      × ((p % 8 ≡ 0) → ip % 2 ^ (32 - p) ≡ client % 2 ^ (32 - p))
      × (p % 8 ≢ 0 → ip + 2 ≡ masked router p + (2 ^ (32 - p) - 1))
unfolding calc_client_ip
calc_client_ip_subnet router client p small hr hc =
    let size : 2 ^ 3 ≤ 2 ^ (32 - p) =
      pow-le-pow_right {n = 2} (omega arith) {i = 3} (omega arith) in
    let low : client % 2 ^ (32 - p) < 2 ^ (32 - p) = mod-lt client (omega arith) in
    let mod_small : client % 2 ^ (32 - p) % 2 ^ (32 - p) ≡ client % 2 ^ (32 - p) =
      mod-eq_of_lt low in
    elim (Bool-cases (p % 8 == 0)) [
      | inl e ↦
          let whole : p % 8 ≡ 0 = ground arith in
          (
            masked router p + client % 2 ^ (32 - p),
            rw e (ap some (merged_lem p router client whole small hr hc)),
            subnet_lem router _ (2 ^ (32 - p)) (omega arith) (omega arith),
            λ _.
                mul-add-mod_self_right (router / 2 ^ (32 - p)) (2 ^ (32 - p))
                  (client % 2 ^ (32 - p))
                ∙ mod_small,
            λ n. absurd (n whole),
          )
      | inr e ↦
          let part : p % 8 ≢ 0 = ground arith in
          (
            masked router p + (2 ^ (32 - p) - 3),
            rw e (before_last p router small),
            subnet_lem router _ (2 ^ (32 - p)) (omega arith) (omega arith),
            λ w. absurd (part w),
            λ _. omega arith,
          )
    ]
