-- ===== src/Prelude/Words.antt =====
-- 32-bit words as native numbers: what the program's mask arithmetic needs of Go's `<<`, `|` and `^`.
use Prim.Native.Nat.{max, bit_or, digits, bit_or-bitwise}
use native.Mathlib.Nat.{pow-suc, one-le-pow}
use wifi_stick_usb_switcher.Prelude.{
  ℕ, zero, suc, ◌+◌, ◌-◌, ◌*◌, ◌/◌, ◌%◌, ◌^◌, ◌≤◌, ◌<◌, ◌≡◌, refl, ap, arith, Bool, true, ◌&&◌,
}

abbrev pub all_ones : ℕ
all_ones = 2 ^ 32 - 1

-- `^m` of a uint32.
abbrev pub complement : ℕ → ℕ
complement m = all_ones - m

-- `m << k` of a uint32; bits that leave the word are lost.
abbrev pub shift_left : ℕ → ℕ → ℕ
shift_left m k = m * 2 ^ k % 2 ^ 32

-- `bits.OnesCount32`.
unfoldable pub ones_count : ℕ → ℕ → ℕ
ones_count zero m = 0
ones_count (suc width) m = m % 2 + ones_count width (m / 2)

-- Whether a test holds of all numbers below a bound.
unfoldable pub holds_below : (ℕ → Bool) → ℕ → Bool
holds_below test zero = true
holds_below test (suc top) = holds_below test top && test top

pub holds_below-true :
    (test : ℕ → Bool) (top x : ℕ) → x < top → holds_below test top ≡ true → test x ≡ true
unfolding holds_below
holds_below-true test (suc top) x below h = ground (arith, holds_below-true test top x)
holds_below-true test zero x below h = absurd (omega arith)

-- The digits of `a | b`, lowest first, from that many rounds.
abbrev or_rounds : ℕ → ℕ → ℕ → ℕ
or_rounds rounds a b = digits (λ d. d) max rounds a b

-- With enough rounds, the free low bits of a multiple of 2 ^ k are filled.
or_rounds_fill :
    (rounds a b k q : ℕ) → a ≤ rounds → a ≡ q * 2 ^ k → b ≡ 2 ^ k - 1 → or_rounds rounds a b ≡ a + b
or_rounds_fill rounds zero b k q fits e low = nothing rounds
  where
    nothing : (r : ℕ) → or_rounds r 0 b ≡ 0 + b
    nothing zero = omega arith
    nothing (suc r) = omega arith
or_rounds_fill zero (suc a) b k q fits e low = absurd (omega arith)
or_rounds_fill (suc rounds) (suc a) b zero q fits e low = omega (
  arith,
  or_rounds_fill rounds (suc a / 2) (b / 2) 0 (suc a / 2) (omega arith) (omega arith) (omega arith),
)
or_rounds_fill (suc rounds) (suc a) b (suc k) q fits e low =
    let doubled : q * 2 ^ suc k ≡ 2 * (q * 2 ^ k) =
      omega (arith, ap (λ (t : ℕ). q * t) (pow-suc 2 k)) in
    let power : 2 ^ suc k ≡ 2 * 2 ^ k = omega (arith, pow-suc 2 k) in
    let one : 1 ≤ 2 ^ k = one-le-pow k 2 (omega arith) in
    omega (
      arith,
      or_rounds_fill rounds (suc a / 2) (b / 2) k q (omega arith) (omega arith) (omega arith),
    )

-- Filling the free low bits of a number with ones.
pub bit_or_fill : (k q : ℕ) → bit_or (q * 2 ^ k) (2 ^ k - 1) ≡ q * 2 ^ k + (2 ^ k - 1)
bit_or_fill k q = omega (
  arith,
  bit_or-bitwise (q * 2 ^ k) (2 ^ k - 1),
  or_rounds_fill (q * 2 ^ k) (q * 2 ^ k) (2 ^ k - 1) k q (omega arith) refl refl,
)
