-- ===== src/Prelude/Table.antt =====
-- A database table as the list of its rows. `find` is SELECT … WHERE key = k (the first row, which
-- is the only one under the table's unique key), `update` is UPDATE … WHERE key = k.
use Prim.Native.Nat.{ℕ, ◌≤◌}
use mathlib.Core.Path.{◌≡◌, refl}
use mathlib.Core.Bool.{Bool, true}
use mathlib.Core.List.{List, [], ◌∷◌}
use mathlib.Core.Option.{Option, none, some}
use native.Mathlib.Omega.{arith}
use telegram_bot_new_version.Prelude.Tests.{if◌then◌else◌, ◌==◌, is_some}
use telegram_bot_new_version.Prelude.Lists.{count_if}

abbrev pub map_option {ℓ κ} : {A : Type ℓ} {B : Type κ} → (A → B) → Option A → Option B
map_option f none = none
map_option f (some a) = some (f a)

module _ {ℓ} {A : Type ℓ} where
  -- The first row that passes a test.
  unfoldable pub find_by : (A → Bool) → List A → Option A
  find_by p [] = none
  find_by p (x ∷ xs) = if p x then some x else find_by p xs

  -- Every row that passes a test is written.
  unfoldable pub update_by : (A → Bool) → (A → A) → List A → List A
  update_by p f [] = []
  update_by p f (x ∷ xs) = (if p x then f x else x) ∷ update_by p f xs

  -- The rows that a test does not select.
  unfoldable pub delete_by : (A → Bool) → List A → List A
  delete_by p [] = []
  delete_by p (x ∷ xs) = if p x then delete_by p xs else x ∷ delete_by p xs

  pub find_by-delete_by : (p : A → Bool) (xs : List A) → find_by p (delete_by p xs) ≡ none
  unfolding find_by delete_by
  find_by-delete_by p [] = refl
  find_by-delete_by p (x ∷ xs) = ground (arith, find_by-delete_by p xs)

module _ {ℓ} {A : Type ℓ} (key : A → ℕ) where
  unfoldable pub find : ℕ → List A → Option A
  find k [] = none
  find k (x ∷ xs) = if key x == k then some x else find k xs

  unfoldable pub update : ℕ → (A → A) → List A → List A
  update k f [] = []
  update k f (x ∷ xs) = (if key x == k then f x else x) ∷ update k f xs

  -- A write that leaves the key alone is seen at its key and nowhere else.
  pub find-update :
      (j k : ℕ) (f : A → A) (xs : List A)
      → ((a : A) → key (f a) ≡ key a)
      → find j (update k f xs) ≡ (if k == j then map_option f (find j xs) else find j xs)
  unfolding find update
  find-update j k f [] same = ground arith
  find-update j k f (x ∷ xs) same = ground (arith, same x, find-update j k f xs same)

  pub find-key : (k : ℕ) (xs : List A) (a : A) → find k xs ≡ some a → key a ≡ k
  unfolding find
  find-key k [] a e = cc
  find-key k (x ∷ xs) a e = ground (arith, find-key k xs a)

-- Counting the rows that a test selects, by the search for one and by a write that keeps the test.
module _ {ℓ} {A : Type ℓ} (p : A → Bool) where
  pub count-none : (xs : List A) → find_by p xs ≡ none → count_if p xs ≡ 0
  unfolding count_if find_by
  count-none [] e = refl
  count-none (x ∷ xs) e = ground (arith, count-none xs)

  pub count-found : (xs : List A) → is_some (find_by p xs) ≡ true → 1 ≤ count_if p xs
  unfolding count_if find_by
  count-found [] e = cc
  count-found (x ∷ xs) e = ground (arith, count-found xs)

  pub find-counted : (xs : List A) → 1 ≤ count_if p xs → is_some (find_by p xs) ≡ true
  unfolding count_if find_by
  find-counted [] e = ground (arith, e)
  find-counted (x ∷ xs) e = ground (arith, find-counted xs)

  pub count-update_by :
      (q : A → Bool) (f : A → A) (xs : List A)
      → ((x : A) → p (f x) ≡ p x)
      → count_if p (update_by q f xs) ≡ count_if p xs
  unfolding count_if update_by
  count-update_by q f [] same = refl
  count-update_by q f (x ∷ xs) same = ground (arith, same x, count-update_by q f xs same)

-- A function that is changed at one place.
abbrev pub at {ℓ} : {A : Type ℓ} → ℕ → A → (ℕ → A) → ℕ → A
at i a f j = if i == j then a else f j
