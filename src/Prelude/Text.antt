-- ===== src/Prelude/Text.antt =====
-- Go strings as lists of bytes, with the functions of Go's `strings` and `strconv` that the program
-- calls on them.
use Prim.Native.Char.{code}
use mathlib.Core.List.{reverse}
use Prim.Native.String.{String}
use wifi_stick_usb_switcher.Prelude.{
  ℕ, Bool, true, false, ◌&&◌, ◌||◌, leb, if◌then◌else◌, List, [], ◌∷◌, ◌≡◌, ◌↔◌, arith, ◌==◌,
}

abbrev pub Bytes : Type 0
Bytes = List ℕ

-- The bytes of an ASCII literal.
abbrev pub codes : String → Bytes
codes String.[] = []
codes (String.◌∷◌ c s) = code c ∷ codes s

unfoldable pub bytes_eq : Bytes → Bytes → Bool
bytes_eq [] [] = true
bytes_eq (x ∷ xs) (y ∷ ys) = x == y && bytes_eq xs ys
bytes_eq _ _ = false

pub bytes_eq_iff : (a b : Bytes) → (bytes_eq a b ≡ true) ↔ (a ≡ b)
unfolding bytes_eq
bytes_eq_iff (x ∷ a) (y ∷ b) = ground (arith, bytes_eq_iff a b)
bytes_eq_iff _ _ = ground arith

-- `strings.TrimSpace` on ASCII text.
abbrev pub is_space : ℕ → Bool
is_space c = c == b' ' || (leb 9 c && leb c 13)

unfoldable pub trim_left : Bytes → Bytes
trim_left [] = []
trim_left (c ∷ cs) = let rest = trim_left cs in if is_space c then rest else c ∷ cs

unfoldable pub trim_space : Bytes → Bytes
unfolding trim_left
trim_space s = reverse (trim_left (reverse (trim_left s)))
