-- ===== src/Usb/Network/Masks.antt =====
-- core/usb/rndis.go: masks and prefix lengths, and the last address of a subnet.
use native.Mathlib.Nat.{
  one-le-pow, div-eq_of_lt-le, pow-le-pow_right, div-lt_iff_lt-mul, mul-le-mul_right,
}
use wifi_stick_usb_switcher.Prelude.{
  ℕ, zero, suc, ◌+◌, ◌-◌, ◌*◌, ◌+◌, ◌/◌, ◌^◌, ◌≤◌, ◌<◌, true, ◌≡◌, ◌↔◌, refl, arith, some, ◌==◌,
  ==_iff, leb, false,
}
use wifi_stick_usb_switcher.Prelude.Words.{
  complement, ones_count, holds_below, holds_below-true, bit_or_fill,
}
use wifi_stick_usb_switcher.Usb.Network.{v4, masked, prefix_mask, mask_to_prefix, subnet_last}

mask_table : holds_below (λ p. ones_count 32 (prefix_mask p) == p) 33 ≡ true
unfolding holds_below ones_count
mask_table = refl

value_table : holds_below (λ p. prefix_mask p == 2 ^ 32 - 2 ^ (32 - p)) 33 ≡ true
unfolding holds_below
value_table = refl

prefix_mask_value : (p : ℕ) → p ≤ 32 → prefix_mask p ≡ 2 ^ 32 - 2 ^ (32 - p)
prefix_mask_value p h =
    (==_iff _ (2 ^ 32 - 2 ^ (32 - p))).0 (holds_below-true _ 33 p (omega arith) value_table)

ones_count-prefix_mask : (p : ℕ) → p ≤ 32 → ones_count 32 (prefix_mask p) ≡ p
ones_count-prefix_mask p h = (==_iff _ p).0 (holds_below-true _ 33 p (omega arith) mask_table)

ones_count-le : (n m : ℕ) → ones_count n m ≤ n
unfolding ones_count
ones_count-le zero m = omega arith
ones_count-le (suc n) m = omega (arith, ones_count-le n (m / 2))

-- `mask_to_prefix` accepts a mask exactly when it is the mask of a prefix length up to 32, and then
-- it gives that length: a mask whose ones are not contiguous is refused.
pub mask_to_prefix-prefix_mask :
    (mask p : ℕ) → (mask_to_prefix mask ≡ some p) ↔ ((p ≤ 32) × (prefix_mask p ≡ mask))
unfolding mask_to_prefix
mask_to_prefix-prefix_mask mask p = ground (arith, ones_count-le 32 mask, ones_count-prefix_mask p)

power_fits : (p : ℕ) → 2 ^ (32 - p) ≤ 2 ^ 32
power_fits p = pow-le-pow_right {n = 2} (omega arith) {j = 32} (omega arith)

-- `network | ^mask` is the network address with all host bits set.
pub subnet_last_lem :
    (a p : ℕ) → p < 32 → subnet_last (v4 a p) ≡ some (masked a p + (2 ^ (32 - p) - 1))
unfolding subnet_last
subnet_last_lem a p h =
    let mask : prefix_mask p ≡ 2 ^ 32 - 2 ^ (32 - p) = prefix_mask_value p (omega arith) in
    let host : complement (prefix_mask p) ≡ 2 ^ (32 - p) - 1 =
      omega (arith, mask, power_fits p, one-le-pow (32 - p) 2) in
    let small : leb 32 p ≡ false = ground arith in
    rw (small, host, bit_or_fill (32 - p) (a / 2 ^ (32 - p))) refl

-- The addresses from the network's to the broadcast address are those of the subnet.
pub subnet_lem : (a x s : ℕ) → a / s * s ≤ x → x < a / s * s + s → x / s ≡ a / s
subnet_lem a x s lo hi = div-eq_of_lt-le s lo (grind arith)

whole_table : holds_below (λ p. 2 ^ p * 2 ^ (32 - p) == 2 ^ 32) 33 ≡ true
unfolding holds_below
whole_table = refl

-- The broadcast address of an address is an address.
pub broadcast_fits : (a p : ℕ) → p < 32 → a < 2 ^ 32 → masked a p + (2 ^ (32 - p) - 1) < 2 ^ 32
broadcast_fits a p h ha =
    let size : 0 < 2 ^ (32 - p) = one-le-pow (32 - p) 2 (omega arith) in
    let whole : 2 ^ p * 2 ^ (32 - p) ≡ 2 ^ 32 =
      (==_iff _ (2 ^ 32)).0 (holds_below-true _ 33 p (omega arith) whole_table) in
    let quotient : a / 2 ^ (32 - p) < 2 ^ p = (div-lt_iff_lt-mul size).1 (omega (arith, whole)) in
    let top : suc (a / 2 ^ (32 - p)) * 2 ^ (32 - p) ≤ 2 ^ p * 2 ^ (32 - p) =
      mul-le-mul_right (2 ^ (32 - p)) quotient in
    grind arith
