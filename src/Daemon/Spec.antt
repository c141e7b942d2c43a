-- ===== src/Daemon/Spec.antt =====
-- core/daemon/daemon.go: the gadget descriptions `name[.submode]`, parsed and printed.
use wifi_stick_usb_switcher.Prelude.{
  ℕ, ◌≤◌, Bool, true, false, [], ◌∷◌, ◌++◌, Option, none, some, ◌≡◌, ◌≢◌, refl, sym, ap, ◌∙◌, ◌⊎◌,
  inl, inr, arith, if◌then◌else◌, All,
}
use wifi_stick_usb_switcher.Prelude.Int.{ℤ, pos, negsuc}
use wifi_stick_usb_switcher.Prelude.Text.{Bytes}
use wifi_stick_usb_switcher.Prelude.Decimal.{atoi, itoa, cut, max_int, atoi-itoa, cut-append}
use wifi_stick_usb_switcher.Prelude.Result.{Result, ok, err}

pub data SpecError : Type 0 where
  empty_name invalid_submode : SpecError

-- An error of `Atoi` and a negative number are both refused.
unfoldable pub checked_submode : Bytes → Option ℤ → Result SpecError (Bytes × ℕ)
checked_submode name none = err invalid_submode
checked_submode name (some (negsuc n)) = err invalid_submode
checked_submode name (some (pos n)) = ok (name, n)

unfoldable pub split_spec : Bytes × Bytes × Bool → Result SpecError (Bytes × ℕ)
split_spec ([], submode_str, has_submode) = err empty_name
split_spec (c ∷ name, submode_str, false) = ok (c ∷ name, 0)
split_spec (c ∷ name, submode_str, true) = checked_submode (c ∷ name) (atoi submode_str)

unfoldable pub parse_gadget_spec : Bytes → Result SpecError (Bytes × ℕ)
unfolding split_spec checked_submode atoi cut
parse_gadget_spec spec = split_spec (cut b'.' spec)

-- `fmt.Sprintf("%s.%d", name, submode)`.
unfoldable pub format_gadget_spec : Bytes → ℕ → Bytes
unfolding itoa
format_gadget_spec name submode = name ++ (b'.' ∷ itoa submode)

parse_split : (spec : Bytes) → parse_gadget_spec spec ≡ split_spec (cut b'.' spec)
unfolding parse_gadget_spec
parse_split spec = refl

split_found :
    (c : ℕ) (name rest : Bytes)
    → split_spec (c ∷ name, rest, true) ≡ checked_submode (c ∷ name) (atoi rest)
unfolding split_spec
split_found c name rest = refl

format_parts : (name : Bytes) (n : ℕ) → format_gadget_spec name n ≡ name ++ (b'.' ∷ itoa n)
unfolding format_gadget_spec
format_parts name n = refl

-- A description that the daemon prints is read back as the same name and submode. The name is not
-- empty and holds no dot, and the submode is an int.
pub parse-format :
    (name : Bytes) (submode : ℕ)
    → name ≢ []
    → All (λ c. c ≢ b'.') name
    → submode ≤ max_int
    → parse_gadget_spec (format_gadget_spec name submode) ≡ ok (name, submode)
unfolding checked_submode
parse-format [] submode ne h k = absurd (ne refl)
parse-format (c ∷ name) submode ne h k =
    parse_split _
    ∙ ap (λ s. split_spec (cut b'.' s)) (format_parts (c ∷ name) submode)
    ∙ ap split_spec (cut-append b'.' (c ∷ name) (itoa submode) h)
    ∙ split_found c name (itoa submode)
    ∙ ap (checked_submode (c ∷ name)) (atoi-itoa submode k)

-- The branches of `split_spec` that succeed.
split_inv :
    (a b : Bytes) (found : Bool) (name : Bytes) (n : ℕ)
    → split_spec (a, b, found) ≡ ok (name, n)
    → (name ≡ a)
      × (name ≢ [])
      × (((found ≡ false) × (n ≡ 0)) ⊎ ((found ≡ true) × (atoi b ≡ some (pos n))))
unfolding split_spec checked_submode
split_inv [] b found name n h = cc
split_inv (c ∷ a) b false name n h = ground arith
split_inv (c ∷ a) b true name n h = ground arith

-- The part before the first dot holds no dot, and the parts make up the text.
cut_parts :
    (sep : ℕ) (s : Bytes)
    → let (before, after, found) = cut sep s in
      All (λ c. c ≢ sep) before × (s ≡ (if found then before ++ (sep ∷ after) else before))
unfolding cut
cut_parts sep [] = (tt, refl)
cut_parts sep (c ∷ cs) = ground (arith, cut_parts sep cs)

-- What `parse_gadget_spec` accepts: a name that is not empty and holds no dot, alone for submode 0
-- or followed by a dot and a text that `Atoi` reads as the submode.
pub record Describes (spec name : Bytes) (submode : ℕ) : Type 0 where
  pub name_ne_nil : name ≢ []
  pub no_dot : All (λ c. c ≢ b'.') name
  pub form :
      ((spec ≡ name) × (submode ≡ 0))
      ⊎ ((text : Bytes) × (spec ≡ name ++ (b'.' ∷ text)) × (atoi text ≡ some (pos submode)))

-- Every description that is accepted is a name with a submode that is not negative, and the
-- result is that name and submode.
pub parse-Describes :
    (spec name : Bytes) (submode : ℕ)
    → parse_gadget_spec spec ≡ ok (name, submode)
    → Describes spec name submode
parse-Describes spec name submode h =
    let (before, after, found) = cut b'.' spec in
    let (dotless, whole) = cut_parts b'.' spec in
    let (same, ne, how) = split_inv before after found name submode (sym (parse_split spec) ∙ h) in
    record {
      name_ne_nil = ne;
      no_dot = rw same dotless;
      form = elim how [
        | inl (missing, zero_submode) ↦ inl (rw same (whole ∙ rw missing), zero_submode)
        | inr (there, value) ↦ inr (after, rw same (whole ∙ rw there), value)
      ];
    }
