-- ===== src/Workers/Online/Rounds.antt =====
-- What a round of the online status worker writes (services/scheduler.py).
use telegram_bot_new_version.Models.Users.{User}
use telegram_bot_new_version.Workers.Online.{
  Seen, seen_key, touch, apply_chunk, flush_chunks, batch_flush_last_active,
}
use telegram_bot_new_version.Prelude.{
  Option-cases, length, take, drop, ℕ, zero, suc, ◌-◌, ◌≤◌, ◌≡◌, refl, sym, ap, subst, ◌∙◌, inl,
  inr, none, some, List, [], ◌∷◌, ◌++◌, arith,
}
use telegram_bot_new_version.Prelude.Table.{find}

-- Redis has one key for a user.
abbrev pub AreKeys : List Seen → Type 0
AreKeys [] = Unit
AreKeys (s ∷ ss) = (find seen_key s.tg_id ss ≡ none) × AreKeys ss

take-drop : (n : ℕ) (xs : List Seen) → take n xs ++ drop n xs ≡ xs
unfolding take drop
take-drop zero xs = refl
take-drop (suc n) [] = refl
take-drop (suc n) (x ∷ xs) = ap (λ (l : List Seen). x ∷ l) (take-drop n xs)

length-drop : (n : ℕ) (xs : List Seen) → length (drop n xs) ≡ length xs - n
unfolding drop
length-drop zero xs = omega arith
length-drop (suc n) [] = omega arith
length-drop (suc n) (x ∷ xs) = omega (arith, length-drop n xs)

drop-AreKeys : (n : ℕ) (xs : List Seen) → AreKeys xs → AreKeys (drop n xs)
unfolding drop
drop-AreKeys zero xs h = h
drop-AreKeys (suc n) [] h = h
drop-AreKeys (suc n) (x ∷ xs) h = drop-AreKeys n xs h.1

find-append :
    (k : ℕ) (xs ys : List Seen)
    → find seen_key k (xs ++ ys)
      ≡ elim (find seen_key k xs) [ none ↦ find seen_key k ys | some s ↦ some s ]
unfolding find
find-append k [] ys = refl
find-append k (x ∷ xs) ys = ground (arith, find-append k xs ys)

-- A key of the first part is none of the second.
find-second :
    (k : ℕ) (xs ys : List Seen) (s : Seen)
    → AreKeys (xs ++ ys)
    → find seen_key k xs ≡ some s
    → find seen_key k ys ≡ none
unfolding find
find-second k [] ys s h e = cc
find-second k (x ∷ xs) ys s h e =
    ground (arith, h.0, find-append k xs ys, find-append x.tg_id xs ys, find-second k xs ys s h.1)

touch-touch :
    (xs ys : List Seen) (u : User) → AreKeys (xs ++ ys) → touch ys (touch xs u) ≡ touch (xs ++ ys) u
unfolding touch
touch-touch xs ys u h = elim (Option-cases (find seen_key u.tg_id xs)) [
  | inl e ↦ ground (arith, find-append u.tg_id xs ys)
  | inr (s, e) ↦ ground (arith, find-append u.tg_id xs ys, find-second u.tg_id xs ys s h e)
]

apply-apply :
    (xs ys : List Seen) (us : List User)
    → AreKeys (xs ++ ys)
    → apply_chunk ys (apply_chunk xs us) ≡ apply_chunk (xs ++ ys) us
unfolding apply_chunk
apply-apply xs ys [] h = refl
apply-apply xs ys (u ∷ us) h = ground (arith, touch-touch xs ys u h, apply-apply xs ys us h)

apply-nil : (us : List User) → apply_chunk [] us ≡ us
unfolding apply_chunk touch find
apply-nil [] = refl
apply-nil (u ∷ us) = ap (λ (l : List User). u ∷ l) (apply-nil us)

flush-apply :
    (fuel : ℕ) (batch : List Seen) (us : List User)
    → length batch ≤ fuel
    → AreKeys batch
    → flush_chunks fuel batch us ≡ apply_chunk batch us
unfolding flush_chunks
flush-apply zero [] us enough h = sym (apply-nil us)
flush-apply zero (s ∷ batch) us enough h = absurd (omega arith)
flush-apply (suc fuel) [] us enough h = sym (apply-nil us)
flush-apply (suc fuel) (s ∷ batch) us enough h =
    let whole = s ∷ batch in
    flush-apply fuel (drop 100 whole) (apply_chunk (take 100 whole) us)
      (omega (arith, length-drop 100 whole)) (drop-AreKeys 100 whole h)
    ∙ apply-apply (take 100 whole) (drop 100 whole) us (subst AreKeys (sym (take-drop 100 whole)) h)
    ∙ ap (λ xs. apply_chunk xs us) (take-drop 100 whole)

-- Writing the batch in chunks of 100 ids is one UPDATE of the whole batch, whatever its length.
pub flush_is_one_update :
    (batch : List Seen) (us : List User)
    → AreKeys batch
    → batch_flush_last_active batch us ≡ apply_chunk batch us
unfolding batch_flush_last_active
flush_is_one_update batch us h = flush-apply (length batch) batch us (omega arith) h
