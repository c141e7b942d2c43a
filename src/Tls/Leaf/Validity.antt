-- ===== src/Tls/Leaf/Validity.antt =====
-- core/daemon/tls_service.go: the validity of a leaf against that of the root, and what the cache
-- hands out.
use wifi_stick_usb_switcher.Prelude.{
  Bool, true, false, Option, none, some, ◌≡◌, ◌⊎◌, inl, inr, refl, sym, ap, arith, All,
  if◌then◌else◌, Option-cases,
}
use wifi_stick_usb_switcher.Prelude.Int.{ℤ, ◌+ℤ◌, ◌-ℤ◌, ◌≤ℤ◌, ltb_ℤ}
use wifi_stick_usb_switcher.Prelude.Result.{Result, ok, err}
use wifi_stick_usb_switcher.Prelude.Text.{Bytes}
use wifi_stick_usb_switcher.Tls.Leaf.{
  Key, LeafError, expired, not_valid_yet, minute, min_time, Root, leaf_validity, Cached, Cache,
  cache_key, lookup, fresh, store, get_or_generate,
}

-- The two ends lie within the root's validity, and the leaf ends no later than its duration says.
abbrev pub IsWithin : Root → ℤ → ℤ → ℤ × ℤ → Type 0
IsWithin root duration now (starts, ends) =
    (root.not_before ≤ℤ starts)
    × (starts ≤ℤ now)
    × (ends ≤ℤ root.not_after)
    × (ends ≤ℤ now +ℤ duration)

abbrev pub Holds : {E A : Type 0} → (A → Type 0) → Result E A → Type 0
Holds P (ok a) = P a
Holds P (err e) = Unit

minute_before : (now : ℤ) → now -ℤ minute ≤ℤ now
unfolding ◌-ℤ◌
minute_before now = ground arith

start_lem :
    (root now : ℤ)
    → ltb_ℤ now root ≡ false
    → (root ≤ℤ (if ltb_ℤ (now -ℤ minute) root then root else now -ℤ minute))
      × ((if ltb_ℤ (now -ℤ minute) root then root else now -ℤ minute) ≤ℤ now)
start_lem root now h = ground (arith, minute_before now)

end_lem :
    (root ends : ℤ)
    → ((if ltb_ℤ root ends then root else ends) ≤ℤ root)
      × ((if ltb_ℤ root ends then root else ends) ≤ℤ ends)
end_lem root ends = ground arith

if_Holds :
    {E A : Type 0} (Q : A → Type 0) (b : Bool) (x y : Result E A)
    → Holds Q x
    → (b ≡ false → Holds Q y)
    → Holds Q (if b then x else y)
if_Holds Q true x y hx hy = hx
if_Holds Q false x y hx hy = hy refl

validity_Holds :
    (root : Root) (duration first now : ℤ) (key : Result LeafError Key)
    → Holds (IsWithin root duration now) (leaf_validity root duration first now key)
unfolding leaf_validity
validity_Holds root duration first now (err e) =
    if_Holds (IsWithin root duration now) (ltb_ℤ root.not_after first) (err expired) (err e) tt
      (λ h. tt)
validity_Holds root duration first now (ok key) =
    if_Holds (IsWithin root duration now) (ltb_ℤ root.not_after first) (err expired) _ tt (λ h.
      if_Holds (IsWithin root duration now) (ltb_ℤ now root.not_before) (err not_valid_yet) _ tt
        (λ early.
          let (lo, hi) = start_lem root.not_before now early in
          let (top, last) = end_lem root.not_after (now +ℤ duration) in (lo, hi, top, last)))

-- The validity of an issued leaf lies within the root's, has begun, and ends no later than the
-- configured duration after the clock's reading.
pub leaf_validity-IsWithin :
    (root : Root) (duration first now : ℤ) (key : Result LeafError Key) (span : ℤ × ℤ)
    → leaf_validity root duration first now key ≡ ok span
    → IsWithin root duration now span
leaf_validity-IsWithin root duration first now key span e =
    let holds : Holds (IsWithin root duration now) (leaf_validity root duration first now key) =
      validity_Holds root duration first now key in
    rw e at holds

min_time_le : (a b : ℤ) → min_time a b ≤ℤ b
unfolding min_time
min_time_le a b = ground arith

module _ {C : Type 0} where
  -- No entry outlasts the root.
  abbrev pub AreBounded : Root → Cache C → Type 0
  AreBounded root cache = All (λ (e : Bytes × Cached C). e.1.expires_at ≤ℤ root.not_after) cache

  -- An entry that lasts for more than a minute, and the cache as it was; or what was generated.
  abbrev pub IsServed :
      ℤ → Bytes → Cache C → Result LeafError C → Result LeafError C × Cache C → Type 0
  IsServed now key cache generated (r, cache') =
      ((c : Cached C) × (lookup key cache ≡ some c)
        × (r ≡ ok c.cert)
        × (ltb_ℤ minute (c.expires_at -ℤ now) ≡ true)
        × (cache' ≡ cache))
      ⊎ (r ≡ generated)

  fresh_lem :
      (now : ℤ) (found : Option (Cached C)) (cert : C)
      → fresh now found ≡ some cert
      → (c : Cached C) × (found ≡ some c)
        × (c.cert ≡ cert)
        × (ltb_ℤ minute (c.expires_at -ℤ now) ≡ true)
  fresh_lem now none cert e = absurd cc
  fresh_lem now (some c) cert e = lasting (ltb_ℤ minute (c.expires_at -ℤ now)) refl e
    where
      lasting :
          (b : Bool)
          → ltb_ℤ minute (c.expires_at -ℤ now) ≡ b
          → (if b then some c.cert else none) ≡ some cert
          → (c' : Cached C) × (some c ≡ some c')
            × (c'.cert ≡ cert)
            × (ltb_ℤ minute (c'.expires_at -ℤ now) ≡ true)
      lasting true p e = (c, refl, cc, p)
      lasting false p e = absurd cc

  -- A certificate comes from the cache only if it lasts for more than a minute, and then the cache
  -- stays; any other request gets what is generated for it; and no entry ever outlasts the root.
  pub get_or_generate-IsServed :
      (root : Root) (duration now after : ℤ) (name schemes : Bytes) (cache : Cache C)
      (generated : Result LeafError C)
      → AreBounded root cache
      → IsServed now
          (cache_key name schemes)
          cache
          generated
          (get_or_generate root duration now after name schemes cache generated)
        × AreBounded root (get_or_generate root duration now after name schemes cache generated).1
  unfolding get_or_generate
  get_or_generate-IsServed root duration now after name schemes cache generated h =
      elim (Option-cases (fresh now (lookup (cache_key name schemes) cache))) [
        | inr (cert, e) ↦
            let (c, found, same, lasts) =
              fresh_lem now (lookup (cache_key name schemes) cache) cert e in
            rw (get_or_generate, e) (inl (c, found, ap ok (sym same), lasts, refl), h)
        | inl e ↦ rw (get_or_generate, e) (stored generated)
      ]
    where
      stored :
          (g : Result LeafError C)
          → IsServed now
              (cache_key name schemes)
              cache
              g
              (store root duration after (cache_key name schemes) cache g)
            × AreBounded root (store root duration after (cache_key name schemes) cache g).1
      stored (err e) = (inr refl, h)
      stored (ok cert) = (inr refl, (min_time_le (after +ℤ duration) root.not_after, h))
