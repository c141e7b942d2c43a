-- ===== src/Usb/Adb/Identity/Groups.antt =====
-- core/usb/adb.go: the groups that adbd gets.
use wifi_stick_usb_switcher.Prelude.{
  ℕ, Bool, true, false, ◌||◌, List, [], ◌∷◌, Option, none, some, ◌==◌, ◌≡◌, ◌⊎◌, refl, arith, All,
  Option-cases, Bool-cases, inl, inr,
}
use wifi_stick_usb_switcher.Prelude.Result.{Result, ok, err}
use wifi_stick_usb_switcher.Prelude.Text.{Bytes}
use wifi_stick_usb_switcher.Usb.Adb.Identity.{
  Account, Accounts, AdbdIdentity, bad_group_id, bad_uid, bad_gid, id_or, parse_uint32,
  append_group, add_groups, with_account, find_account, if_account, with_group, first_identity,
  resolve_adbd_identity,
}

abbrev pub is_member : ℕ → List ℕ → Bool
is_member g [] = false
is_member g (h ∷ hs) = g == h || is_member g hs

abbrev pub IsDistinct : List ℕ → Type 0
IsDistinct [] = Unit
IsDistinct (g ∷ gs) = (is_member g gs ≡ false) × IsDistinct gs

is_member-append_group_self : (gs : List ℕ) (g : ℕ) → is_member g (append_group gs g) ≡ true
unfolding append_group
is_member-append_group_self [] g = ground arith
is_member-append_group_self (h ∷ gs) g = ground (arith, is_member-append_group_self gs g)

is_member-append_group :
    (gs : List ℕ) (g h : ℕ) → is_member g gs ≡ true → is_member g (append_group gs h) ≡ true
unfolding append_group
is_member-append_group [] g h m = absurd cc
is_member-append_group (x ∷ gs) g h m = ground (arith, is_member-append_group gs g h)

not_member-append_group :
    (gs : List ℕ) (g h : ℕ)
    → is_member g gs ≡ false
    → (g == h) ≡ false
    → is_member g (append_group gs h) ≡ false
unfolding append_group
not_member-append_group [] g h m n = ground arith
not_member-append_group (x ∷ gs) g h m n = ground (arith, not_member-append_group gs g h)

append_group-IsDistinct : (gs : List ℕ) (g : ℕ) → IsDistinct gs → IsDistinct (append_group gs g)
unfolding append_group
append_group-IsDistinct [] g d = (refl, tt)
append_group-IsDistinct (x ∷ gs) g d = elim (Bool-cases (x == g)) [
  | inl e ↦ rw e d
  | inr e ↦ rw e (not_member-append_group gs x g d.0 e, append_group-IsDistinct gs g d.1)
]

-- Every listed group was read and is a member.
abbrev pub AreMembers : List Bytes → List ℕ → Type 0
AreMembers texts gs =
    All (λ (text : Bytes). (g : ℕ) × (parse_uint32 text ≡ some g) × (is_member g gs ≡ true)) texts

add_groups_lem :
    (name : Bytes) (texts : List Bytes) (gs out : List ℕ)
    → IsDistinct gs
    → add_groups name texts gs ≡ ok out
    → IsDistinct out
      × AreMembers texts out
      × ((g : ℕ) → is_member g gs ≡ true → is_member g out ≡ true)
unfolding add_groups
add_groups_lem name [] gs out d e =
    let same : gs ≡ out = cc in (rw⁻¹ same d, tt, λ g m. rw⁻¹ same m)
add_groups_lem name (text ∷ rest) gs out d e = elim (Option-cases (parse_uint32 text)) [
  | inl p ↦ let bad : err (bad_group_id text name) ≡ ok out = rw (add_groups, p) at e in absurd cc
  | inr (g, p) ↦
      let next : add_groups name rest (append_group gs g) ≡ ok out = rw (add_groups, p) at e in
      let (distinct, members, kept) =
        add_groups_lem name rest (append_group gs g) out (append_group-IsDistinct gs g d) next in
      (
        distinct,
        ((g, p, kept g (is_member-append_group_self gs g)), members),
        λ h m. kept h (is_member-append_group gs h g m),
      )
]

Result-cases : {E A : Type 0} (x : Result E A) → ((e : E) × (x ≡ err e)) ⊎ ((a : A) × (x ≡ ok a))
Result-cases (ok a) = inr (a, refl)
Result-cases (err e) = inl (e, refl)

-- What holds of a result that is no error.
abbrev pub Holds {ℓ} : {E A : Type 0} → (A → Type ℓ) → Result E A → Type ℓ
Holds P (ok a) = P a
Holds P (err e) = Unit

-- The groups are distinct, and those that the database lists for an account are among them.
abbrev pub HasGroups : Accounts → Option Account → List ℕ → Type 0
HasGroups sys none gs = IsDistinct gs
HasGroups sys (some account) gs =
    IsDistinct gs × ((ids : List Bytes) × (sys.group_ids account ≡ some ids) × AreMembers ids gs)

with_account-HasGroups :
    (sys : Accounts) (i : AdbdIdentity) (account : Account)
    → Holds (λ out. HasGroups sys (some account) out.groups) (with_account sys i account)
unfolding with_account
with_account-HasGroups sys i account =
    elim (Result-cases (id_or (bad_uid account.username) i.uid account.uid)) [
      | inl (x, e1) ↦ rw (with_account, e1) tt
      | inr (uid, e1) ↦ elim (Result-cases (id_or (bad_gid account.username) i.gid account.gid)) [
        | inl (x, e2) ↦ rw (with_account, e1, e2) tt
        | inr (gid, e2) ↦ elim (Option-cases (sys.group_ids account)) [
          | inl e3 ↦ rw (with_account, e1, e2, e3) tt
          | inr (ids, e3) ↦ elim (Result-cases (add_groups account.username ids [])) [
            | inl (x, e4) ↦ rw (with_account, e1, e2, e3, e4) tt
            | inr (groups, e4) ↦
                let (distinct, members, kept) =
                  add_groups_lem account.username ids [] groups tt e4 in
                rw (with_account, e1, e2, e3, e4) (distinct, (ids, refl, members))
          ]
        ]
      ]
    ]

AreMembers-append_group :
    (texts : List Bytes) (gs : List ℕ) (h : ℕ)
    → AreMembers texts gs
    → AreMembers texts (append_group gs h)
AreMembers-append_group [] gs h m = tt
AreMembers-append_group (text ∷ rest) gs h ((g, p, e), m) =
    ((g, p, is_member-append_group gs g h e), AreMembers-append_group rest gs h m)

HasGroups-append_group :
    (sys : Accounts) (account : Option Account) (gs : List ℕ) (h : ℕ)
    → HasGroups sys account gs
    → HasGroups sys account (append_group gs h)
HasGroups-append_group sys none gs h d = append_group-IsDistinct gs h d
HasGroups-append_group sys (some account) gs h (d, (ids, e, m)) =
    (append_group-IsDistinct gs h d, (ids, e, AreMembers-append_group ids gs h m))

if_account-HasGroups :
    (sys : Accounts) (i : AdbdIdentity) (account : Option Account)
    → i.groups ≡ []
    → Holds (λ out. HasGroups sys account out.groups) (if_account sys i account)
if_account-HasGroups sys i none e = rw e tt
if_account-HasGroups sys i (some account) e = with_account-HasGroups sys i account

-- What an identity has to be for the account that was found.
abbrev pub IsComplete : Accounts → Bytes → AdbdIdentity → Type 0
IsComplete sys user_name i =
    (account : Option Account) × (find_account sys user_name ≡ ok account)
    × HasGroups sys account i.groups
    × (is_member i.gid i.groups ≡ true)

resolve_Holds :
    (sys : Accounts) (user_name group_name : Bytes)
    → Holds (IsComplete sys user_name) (resolve_adbd_identity sys user_name group_name)
unfolding resolve_adbd_identity
resolve_Holds sys user_name group_name =
    let start : AdbdIdentity = first_identity sys user_name in
    elim (Result-cases (find_account sys user_name)) [
      | inl (x, e1) ↦ rw (resolve_adbd_identity, e1) tt
      | inr (account, e1) ↦
          let groups = if_account-HasGroups sys start account refl in
          elim (Result-cases (if_account sys start account)) [
            | inl (x, e2) ↦ rw (resolve_adbd_identity, e1, e2) tt
            | inr (i, e2) ↦ elim (Result-cases (with_group sys group_name i.gid)) [
              | inl (x, e3) ↦ rw (resolve_adbd_identity, e1, e2, e3) tt
              | inr (gid, e3) ↦
                  rw (resolve_adbd_identity, e1, e2, e3)
                    (
                      account,
                      e1,
                      HasGroups-append_group sys account i.groups gid (rw e2 at groups),
                      is_member-append_group_self i.groups gid,
                    )
            ]
          ]
    ]

-- An identity that is resolved has no group twice, has its primary group among its groups, and has
-- every supplementary group that the database lists for the account.
pub resolve_adbd_identity-IsComplete :
    (sys : Accounts) (user_name group_name : Bytes) (i : AdbdIdentity)
    → resolve_adbd_identity sys user_name group_name ≡ ok i
    → IsComplete sys user_name i
resolve_adbd_identity-IsComplete sys user_name group_name i e =
    let holds : Holds (IsComplete sys user_name) (resolve_adbd_identity sys user_name group_name) =
      resolve_Holds sys user_name group_name in
    rw e at holds
