-- ===== src/Prelude/Search.antt =====
-- Go's `strings.CutPrefix`, `Contains`, `Split` at one byte and `Fields`, on lists of bytes.
use wifi_stick_usb_switcher.Prelude.{
  ℕ, Bool, true, false, ◌||◌, List, [], ◌∷◌, ◌++◌, Option, none, some, ◌==◌, if◌then◌else◌, ◌≡◌,
  refl, arith,
}
use wifi_stick_usb_switcher.Prelude.Text.{Bytes, is_space}

-- What follows the prefix; `none` where the text does not start with it.
unfoldable pub cut_prefix : Bytes → Bytes → Option Bytes
cut_prefix [] s = some s
cut_prefix (p ∷ ps) [] = none
cut_prefix (p ∷ ps) (c ∷ cs) = let rest = cut_prefix ps cs in if p == c then rest else none

abbrev pub is_some : Option Bytes → Bool
is_some none = false
is_some (some s) = true

abbrev pub has_prefix : Bytes → Bytes → Bool
has_prefix p s = is_some (cut_prefix p s)

unfoldable pub contains : Bytes → Bytes → Bool
contains p [] = has_prefix p []
contains p (c ∷ cs) = has_prefix p (c ∷ cs) || contains p cs

-- A separator ends a piece; there is always a last piece.
unfoldable pub split : ℕ → Bytes → List Bytes
split sep [] = [] ∷ []
split sep (c ∷ cs) = elim (split sep cs) [
  | [] ↦ []
  | piece ∷ pieces ↦ if c == sep then [] ∷ piece ∷ pieces else (c ∷ piece) ∷ pieces
]

abbrev word : Bytes → List Bytes → List Bytes
word [] rest = rest
word (c ∷ cs) rest = (c ∷ cs) ∷ rest

-- The first argument holds the word that is being read.
unfoldable pub fields_from : Bytes → Bytes → List Bytes
fields_from w [] = word w []
fields_from w (c ∷ cs) =
    let ended = fields_from [] cs in
    let longer = fields_from (w ++ (c ∷ [])) cs in if is_space c then word w ended else longer

pub cut_prefix-append : (p s : Bytes) → cut_prefix p (p ++ s) ≡ some s
unfolding cut_prefix
cut_prefix-append [] s = refl
cut_prefix-append (x ∷ p) s = ground (arith, cut_prefix-append p s)
