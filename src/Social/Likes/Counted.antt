-- ===== src/Social/Likes/Counted.antt =====
-- `save_like` keeps the counter of likes; `check_mutual_like` (database/queries/crud.py).
use telegram_bot_new_version.Models.{Db}
use telegram_bot_new_version.Session.{get_user_by_tg_id}
use telegram_bot_new_version.Models.Users.{User}
use telegram_bot_new_version.Models.Social.{UserLike}
use telegram_bot_new_version.Prelude.{
  ◌==◌, if◌then◌else◌, is_some, count_if, ℕ, ◌+◌, ◌≤◌, ◌≡◌, refl, ◌≢◌, Bool, false, ◌&&◌, ◌||◌,
  some, List, [], ◌∷◌, arith, Option-cases, inl, inr, Option, none,
}
use telegram_bot_new_version.Prelude.Table.{find_by, update_by, count-none, count-found}
use telegram_bot_new_version.Social.Likes.{
  is_pair, set_pass, is_like, save_like, likes_pair, check_mutual_like, pos, upsert_like, add_likes,
  prior_was_like,
}
use telegram_bot_new_version.Session.Ledger.{get_user-write_user}
use telegram_bot_new_version.Prelude.Int.{◌+ℤ◌, neg, int_laws}

abbrev pub likes_user : ℕ → UserLike → Bool
likes_user j row = if row.liked_id == j then is_like row else false

-- The column `likes_count` is the number of rows that like the user.
abbrev pub HasLikes : ℕ → Option User → Type 0
HasLikes n none = Unit
HasLikes n (some u) = u.likes_count ≡ pos n

abbrev pub LikesCounted : ℕ → Db → Type 0
LikesCounted j d = HasLikes (count_if (likes_user j) d.likes) (get_user_by_tg_id j d)

update-absent :
    (a b : ℕ) (is_pass : Bool) (rows : List UserLike)
    → count_if (is_pair a b) rows ≡ 0
    → update_by (is_pair a b) (set_pass is_pass) rows ≡ rows
unfolding count_if update_by
update-absent a b is_pass [] e = refl
update-absent a b is_pass (r ∷ rows) e = ground (arith, update-absent a b is_pass rows)

-- Writing the one row of a pair moves the count of the liked user by what the row was and is.
count-set :
    (a b j : ℕ) (is_pass : Bool) (row : UserLike) (rows : List UserLike)
    → count_if (is_pair a b) rows ≤ 1
    → find_by (is_pair a b) rows ≡ some row
    → count_if (likes_user j) (update_by (is_pair a b) (set_pass is_pass) rows)
        + (if b == j then (if is_like row then 1 else 0) else 0)
      ≡ count_if (likes_user j) rows + (if b == j then (if is_pass then 0 else 1) else 0)
unfolding count_if update_by find_by set_pass
count-set a b j is_pass row [] one e = cc
count-set a b j is_pass row (r ∷ rows) one e =
    ground (arith, update-absent a b is_pass rows, count-set a b j is_pass row rows)

count-upsert :
    (a b j : ℕ) (is_pass : Bool) (d : Db)
    → count_if (is_pair a b) d.likes ≤ 1
    → count_if (likes_user j) (upsert_like a b is_pass d.likes)
        + (if b == j then (if prior_was_like a b d then 1 else 0) else 0)
      ≡ count_if (likes_user j) d.likes + (if b == j then (if is_pass then 0 else 1) else 0)
unfolding upsert_like count_if prior_was_like
count-upsert a b j is_pass d one = elim (Option-cases (find_by (is_pair a b) d.likes)) [
  | inl e ↦ ground arith
  | inr (row, e) ↦ ground (arith, count-set a b j is_pass row d.likes)
]

count_raised : (m n : ℕ) → n ≡ m + 1 → pos m +ℤ pos 1 ≡ pos n
count_raised m n e = omega int_laws

count_lowered : (m n : ℕ) → n + 1 ≡ m → pos m +ℤ neg (pos 1) ≡ pos n
count_lowered m n e = omega int_laws

-- Storing a like or a pass keeps `likes_count` equal to the number of likes, for every user, where the
-- table has at most one row for the pair.
pub save_like-LikesCounted :
    (a b j : ℕ) (is_pass : Bool) (d : Db)
    → count_if (is_pair a b) d.likes ≤ 1
    → LikesCounted j d
    → LikesCounted j (save_like a b is_pass d)
unfolding save_like add_likes
save_like-LikesCounted a b j is_pass d one h = elim (Option-cases (get_user_by_tg_id j d)) [
  | inl e ↦ ground (
    arith,
    get_user-write_user b (add_likes (pos 1)) d (λ w. refl) j,
    get_user-write_user b (add_likes (neg (pos 1))) d (λ w. refl) j,
  )
  | inr (u, e) ↦
      let m = count_if (likes_user j) d.likes in
      let n = count_if (likes_user j) (upsert_like a b is_pass d.likes) in
      let c = count-upsert a b j is_pass d one in
      ground (
        arith,
        get_user-write_user b (add_likes (pos 1)) d (λ w. refl) j,
        get_user-write_user b (add_likes (neg (pos 1))) d (λ w. refl) j,
        count_raised m n,
        count_lowered m n,
      )
]

count-mutual :
    (a b : ℕ) (rows : List UserLike)
    → a ≢ b
    → count_if (λ row. likes_pair a b row || likes_pair b a row) rows
      ≡ count_if (likes_pair a b) rows + count_if (likes_pair b a) rows
unfolding count_if
count-mutual a b [] other = refl
count-mutual a b (r ∷ rows) other = ground (arith, count-mutual a b rows other)

count-likes_pair :
    (a b : ℕ) (rows : List UserLike) → count_if (likes_pair a b) rows ≤ count_if (is_pair a b) rows
unfolding count_if
count-likes_pair a b [] = omega arith
count-likes_pair a b (r ∷ rows) = ground (arith, count-likes_pair a b rows)

-- Two different users like each other, where the table has at most one row for each pair, exactly if
-- each has a row that likes the other.
pub check_mutual_like_lem :
    (a b : ℕ) (d : Db)
    → a ≢ b
    → count_if (is_pair a b) d.likes ≤ 1
    → count_if (is_pair b a) d.likes ≤ 1
    → check_mutual_like a b d
      ≡ (is_some (find_by (likes_pair a b) d.likes) && is_some (find_by (likes_pair b a) d.likes))
unfolding check_mutual_like
check_mutual_like_lem a b d other one two =
    let rows = d.likes in
    let p = likes_pair a b in
    let q = likes_pair b a in
    ground (
      arith,
      count-mutual a b rows other,
      count-likes_pair a b rows,
      count-likes_pair b a rows,
      count-none p rows,
      count-found p rows,
      count-none q rows,
      count-found q rows,
    )
