-- ===== src/Usb/Adb/Envs/Overlay.antt =====
-- core/usb/adb.go: what adbd reads from the environment that merge_envs makes.
use wifi_stick_usb_switcher.Prelude.{
  Bool, true, false, List, [], ◌∷◌, ◌++◌, Option, none, some, if◌then◌else◌, ◌≡◌, ◌≢◌, ◌⊎◌, refl,
  ap, ◌∙◌, arith, All, Option-cases, Bool-cases, inl, inr, map,
}
use wifi_stick_usb_switcher.Prelude.Text.{Bytes, bytes_eq, bytes_eq_iff}
use wifi_stick_usb_switcher.Prelude.Decimal.{cut-append}
use wifi_stick_usb_switcher.Prelude.Search.{cut_prefix}
use wifi_stick_usb_switcher.Usb.Adb.Envs.{key_of, replace_env, has_env, merge_env, merge_envs}

abbrev pub first_value : Option Bytes → Option Bytes → Option Bytes
first_value none rest = rest
first_value (some value) rest = some value

-- What a process reads: the value of the first entry with the key.
abbrev pub getenv : Bytes → List Bytes → Option Bytes
getenv key [] = none
getenv key (kv ∷ env) = first_value (cut_prefix (key ++ (b'=' ∷ [])) kv) (getenv key env)

abbrev pub entry : Bytes × Bytes → Bytes
entry (key, value) = key ++ (b'=' ∷ value)

-- The value of a key in a list of settings, of which later ones win.
abbrev pub overlay : Bytes → List (Bytes × Bytes) → Option Bytes → Option Bytes
overlay key [] old = old
overlay key ((k, value) ∷ rest) old = overlay key rest (if bytes_eq key k then some value else old)

abbrev pub IsKey : Bytes → Type 0
IsKey key = All (λ c. c ≢ b'=') key

cut_prefix_sound : (p s u : Bytes) → cut_prefix p s ≡ some u → s ≡ p ++ u
unfolding cut_prefix
cut_prefix_sound [] s u e = cc
cut_prefix_sound (x ∷ p) [] u e = absurd cc
cut_prefix_sound (x ∷ p) (c ∷ s) u e = ground (arith, cut_prefix_sound p s u)

-- Entries of different keys are told apart.
cut_prefix_other :
    (k key value : Bytes)
    → IsKey k
    → IsKey key
    → bytes_eq k key ≡ false
    → cut_prefix (k ++ (b'=' ∷ [])) (key ++ (b'=' ∷ value)) ≡ none
unfolding cut_prefix bytes_eq
cut_prefix_other [] [] value hk h e = absurd cc
cut_prefix_other [] (c ∷ key) value hk h e = ground arith
cut_prefix_other (x ∷ k) [] value hk h e = ground arith
cut_prefix_other (x ∷ k) (c ∷ key) value hk h e = ground (arith, cut_prefix_other k key value)

abbrev mark : Bytes → Bytes
mark key = key ++ (b'=' ∷ [])

has_prefix-cases :
    (key kv : Bytes)
    → (cut_prefix (mark key) kv ≡ none)
      ⊎ ((u : Bytes) × (cut_prefix (mark key) kv ≡ some u) × (kv ≡ entry (key, u)))
has_prefix-cases key kv = elim (Option-cases (cut_prefix (mark key) kv)) [
  | inl e ↦ inl e
  | inr (u, e) ↦ inr (u, e, cut_prefix_sound (mark key) kv u e ∙ mark_entry key u)
]
  where
    mark_entry : (key u : Bytes) → mark key ++ u ≡ entry (key, u)
    mark_entry [] u = refl
    mark_entry (c ∷ key) u = ap (λ s. c ∷ s) (mark_entry key u)

cut_prefix-entry : (key value : Bytes) → cut_prefix (mark key) (entry (key, value)) ≡ some value
unfolding cut_prefix
cut_prefix-entry [] value = refl
cut_prefix-entry (c ∷ key) value = ground (arith, cut_prefix-entry key value)

module _ (key value : Bytes) where
  getenv-replaced :
      (env : List Bytes)
      → has_env (mark key) env ≡ true
      → getenv key (replace_env (mark key) (entry (key, value)) env) ≡ some value
  unfolding replace_env has_env
  getenv-replaced [] h = absurd cc
  getenv-replaced (kv ∷ env) h = elim (has_prefix-cases key kv) [
    | inl none_ ↦
        let later : has_env (mark key) env ≡ true = rw (has_env, none_) at h in
        rw (getenv, replace_env, none_, none_) (getenv-replaced env later)
    | inr (u, found, e) ↦ rw (getenv, replace_env, found, cut_prefix-entry key value) refl
  ]

  getenv-appended :
      (env : List Bytes)
      → has_env (mark key) env ≡ false
      → getenv key (env ++ (entry (key, value) ∷ [])) ≡ some value
  unfolding has_env
  getenv-appended [] h = rw (getenv, cut_prefix-entry key value) refl
  getenv-appended (kv ∷ env) h = elim (has_prefix-cases key kv) [
    | inl none_ ↦
        let later : has_env (mark key) env ≡ false = rw (has_env, none_) at h in
        rw (getenv, none_) (getenv-appended env later)
    | inr (u, found, e) ↦ let bad : true ≡ false = rw (has_env, found) at h in absurd cc
  ]

  module _ (k : Bytes) (hk : IsKey k) (h : IsKey key) (ne : bytes_eq k key ≡ false) where
    getenv-replaced_other :
        (env : List Bytes)
        → getenv k (replace_env (mark key) (entry (key, value)) env) ≡ getenv k env
    unfolding replace_env
    getenv-replaced_other [] = refl
    getenv-replaced_other (kv ∷ env) = elim (has_prefix-cases key kv) [
      | inl none_ ↦
          rw (getenv, replace_env, none_)
            (ap (first_value (cut_prefix (mark k) kv)) (getenv-replaced_other env))
      | inr (u, found, e) ↦
          rw
            (
              getenv,
              replace_env,
              found,
              cut_prefix_other k key value hk h ne,
              e,
              cut_prefix_other k key u hk h ne,
            )
            (getenv-replaced_other env)
    ]

    getenv-appended_other :
        (env : List Bytes) → getenv k (env ++ (entry (key, value) ∷ [])) ≡ getenv k env
    getenv-appended_other [] = rw (getenv, cut_prefix_other k key value hk h ne) refl
    getenv-appended_other (kv ∷ env) = rw (getenv, getenv-appended_other env) refl

replace_env_absent :
    (key extra : Bytes) (env : List Bytes)
    → has_env (mark key) env ≡ false
    → replace_env (mark key) extra env ≡ env
unfolding replace_env has_env
replace_env_absent key extra [] h = refl
replace_env_absent key extra (kv ∷ env) h = ground (arith, replace_env_absent key extra env)

entry_lem : (key value : Bytes) → bytes_eq (entry (key, value)) [] ≡ false
unfolding bytes_eq
entry_lem [] value = refl
entry_lem (c ∷ key) value = refl

key_of-entry : (key value : Bytes) → IsKey key → key_of (entry (key, value)) ≡ mark key
unfolding key_of
key_of-entry key value h = ap (λ t. t.0 ++ (b'=' ∷ [])) (cut-append b'=' key value h)

merge_env_self :
    (key value : Bytes) (env : List Bytes)
    → IsKey key
    → getenv key (merge_env env (entry (key, value))) ≡ some value
unfolding merge_env
merge_env_self key value env h = elim (Bool-cases (has_env (mark key) env)) [
  | inl e ↦
      rw (merge_env, key_of-entry key value h, entry_lem key value, e)
        (getenv-replaced key value env e)
  | inr e ↦ rw (merge_env, key_of-entry key value h, entry_lem key value, e) (appended e)
]
  where
    appended :
        has_env (mark key) env ≡ false
        → getenv key (replace_env (mark key) (entry (key, value)) env ++ (entry (key, value) ∷ []))
          ≡ some value
    appended e =
        rw (replace_env_absent key (entry (key, value)) env e) (getenv-appended key value env e)

merge_env_other :
    (k key value : Bytes) (env : List Bytes)
    → IsKey k
    → IsKey key
    → bytes_eq k key ≡ false
    → getenv k (merge_env env (entry (key, value))) ≡ getenv k env
unfolding merge_env
merge_env_other k key value env hk h ne = elim (Bool-cases (has_env (mark key) env)) [
  | inl e ↦
      rw (merge_env, key_of-entry key value h, entry_lem key value, e)
        (getenv-replaced_other key value k hk h ne env)
  | inr e ↦
      rw
        (
          merge_env,
          key_of-entry key value h,
          entry_lem key value,
          e,
          replace_env_absent key (entry (key, value)) env e,
        )
        (getenv-appended_other key value k hk h ne env)
]

abbrev pub AreSettings : List (Bytes × Bytes) → Type 0
AreSettings settings = All (λ (s : Bytes × Bytes). IsKey s.0) settings

-- With settings of the form `KEY=VALUE`, whatever the inherited environment holds, adbd reads under
-- every key the value of the last setting for it, and under a key that is not set the inherited value.
pub getenv-merge_envs :
    (k : Bytes) (settings : List (Bytes × Bytes)) (inherited : List Bytes)
    → IsKey k
    → AreSettings settings
    → getenv k (merge_envs inherited (map entry settings)) ≡ overlay k settings (getenv k inherited)
unfolding merge_envs
getenv-merge_envs k [] inherited hk h = refl
getenv-merge_envs k ((key, value) ∷ settings) inherited hk (h, hs) =
    getenv-merge_envs k settings (merge_env inherited (entry (key, value))) hk hs
    ∙ ap (overlay k settings) (one (bytes_eq k key) refl)
  where
    one :
        (b : Bool)
        → bytes_eq k key ≡ b
        → getenv k (merge_env inherited (entry (key, value)))
          ≡ (if b then some value else getenv k inherited)
    one true e = rw ((bytes_eq_iff k key).0 e) (merge_env_self key value inherited h)
    one false e = merge_env_other k key value inherited hk h e
