-- ===== src/Referral/Codes.antt =====
-- `ensure_referral_code` and `attribute_referral` of services/referral_engine.py.
use text.Mathlib.Text.{◌==◌ as str_eq}
use telegram_bot_new_version.Models.{Db}
use telegram_bot_new_version.Session.{get_user_by_tg_id, write_user}
use telegram_bot_new_version.Referral.{
  has_referral_code, set_referral_code, first_unused, ensure_referral_code, strip_ref, set_referrer,
  attribute_referral, fresh_code,
}
use telegram_bot_new_version.Models.Users.{User}
use telegram_bot_new_version.Session.Ledger.{get_user-write_user}
use telegram_bot_new_version.Prelude.{
  Option-cases, ℕ, String, ◌≡◌, refl, ◌≢◌, ◌⊎◌, inl, inr, Bool, true, false, none, some, List, [],
  ◌∷◌, arith, Bool-cases, sym, subst, ◌==◌, ◌||◌,
}
use telegram_bot_new_version.Prelude.Table.{map_option, find_by}

find-passes : {A : Type 0} (p : A → Bool) (xs : List A) (a : A) → find_by p xs ≡ some a → p a ≡ true
unfolding find_by
find-passes p [] a e = cc
find-passes p (x ∷ xs) a e = ground (arith, find-passes p xs a)

-- For a known user, an attribution that succeeds sets the referrer to the id of another user, one whose
-- referral code is the given one without its prefix, and changes nothing else on the row; one that
-- fails changes nothing.
pub attribute_lem :
    (k : ℕ) (code : String) (d : Db) (u : User)
    → get_user_by_tg_id k d ≡ some u
    → let (d', done) = attribute_referral k code d in
      ((done ≡ false) × (d' ≡ d))
      ⊎ ((done ≡ true)
          × (owner : User) × (has_referral_code (strip_ref code) owner ≡ true)
          × (owner.tg_id ≢ k)
          × (get_user_by_tg_id k d' ≡ some (set_referrer owner.tg_id u)))
unfolding attribute_referral set_referrer
attribute_lem k code d u e =
    elim (Option-cases (find_by (has_referral_code (strip_ref code)) d.users)) [
      | inl n ↦ inl (ground arith, ground arith)
      | inr (owner, n) ↦ elim (Bool-cases (str_eq code "" || owner.tg_id == k)) [
        | inl refused ↦ inl (ground arith, ground arith)
        | inr fine ↦ inr (
          ground arith,
          owner,
          find-passes (has_referral_code (strip_ref code)) d.users owner n,
          ground arith,
          ground (arith, get_user-write_user k (set_referrer owner.tg_id) d (λ v. refl) k),
        )
      ]
    ]

first_unused-free :
    (codes : List String) (d : Db) (code : String)
    → first_unused codes d ≡ some code
    → find_by (has_referral_code code) d.users ≡ none
unfolding first_unused
first_unused-free [] d code e = cc
first_unused-free (c ∷ codes) d code e = ground (arith, first_unused-free codes d code)

fresh_code-free :
    (codes : List String) (fallback : String) (d : Db)
    → let fresh = fresh_code codes fallback d in
      (fresh ≡ fallback) ⊎ (find_by (has_referral_code fresh) d.users ≡ none)
unfolding fresh_code
fresh_code-free codes fallback d = elim (Option-cases (first_unused codes d)) [
  | inl n ↦ inl (ground arith)
  | inr (code, n) ↦ inr (rw (n, fresh_code) (first_unused-free codes d code n))
]

-- For a known user, the answer is the code that the row then has, it is the user's own from before, or
-- the fallback, or one that no user had; and asking again, with any other codes, gives the
-- same answer, if it is not the empty text, and changes nothing.
pub ensure_lem :
    (k : ℕ) (codes codes' : List String) (fallback fallback' : String) (d : Db) (u : User)
    → get_user_by_tg_id k d ≡ some u
    → let (d', code) = ensure_referral_code k codes fallback d in
      (map_option (λ v. v.referral_code) (get_user_by_tg_id k d') ≡ some (some code))
      × ((u.referral_code ≡ some code)
          ⊎ ((code ≡ fallback) ⊎ (find_by (has_referral_code code) d.users ≡ none)))
      × ((str_eq code "" ≡ true) ⊎ (ensure_referral_code k codes' fallback' d' ≡ (d', code)))
unfolding ensure_referral_code set_referral_code
ensure_lem k codes codes' fallback fallback' d u e = elim (Option-cases u.referral_code) [
  | inl n ↦ (ground (arith, w), inr (subst ok (sym (ground arith)) free), ground (arith, w))
  | inr (own, n) ↦ elim (Bool-cases (str_eq own "")) [
    | inl empty ↦ (ground (arith, w), inr (subst ok (sym (ground arith)) free), ground (arith, w))
    | inr kept ↦ (ground arith, inl (ground arith), inr (ground arith))
  ]
]
  where
    fresh : String
    fresh = fresh_code codes fallback d

    ok : String → Type 0
    ok x = (x ≡ fallback) ⊎ (find_by (has_referral_code x) d.users ≡ none)

    w :
        get_user_by_tg_id k (write_user k (set_referral_code fresh) d)
        ≡ some (set_referral_code fresh u)
    w = ground (arith, get_user-write_user k (set_referral_code fresh) d (λ v. refl) k)

    free : (fresh ≡ fallback) ⊎ (find_by (has_referral_code fresh) d.users ≡ none)
    free = fresh_code-free codes fallback d
