-- ===== src/Social/Likes.antt =====
-- `save_like` and `check_mutual_like` of database/queries/crud.py.
pub mod Counted
use telegram_bot_new_version.Models.{Db}
use telegram_bot_new_version.Session.{write_user}
use telegram_bot_new_version.Models.Users.{User}
use telegram_bot_new_version.Models.Social.{UserLike}
use telegram_bot_new_version.Prelude.{
  ◌==◌, if◌then◌else◌, is_some, count_if, ℕ, Bool, false, not, ◌||◌, none, some, List, ◌∷◌,
}
use telegram_bot_new_version.Prelude.Table.{find_by, update_by}
use telegram_bot_new_version.Prelude.Int.{ℤ, ◌+ℤ◌, neg, pos}

abbrev pub is_pair : ℕ → ℕ → UserLike → Bool
is_pair liker liked row = if row.liker_id == liker then row.liked_id == liked else false

unfoldable pub set_pass : Bool → UserLike → UserLike
set_pass is_pass row = record row { is_pass = is_pass }

abbrev pub is_like : UserLike → Bool
is_like row = not row.is_pass

-- INSERT … ON DUPLICATE KEY UPDATE, for the key (liker_id, liked_id).
unfoldable pub upsert_like : ℕ → ℕ → Bool → List UserLike → List UserLike
unfolding set_pass
upsert_like liker liked is_pass rows =
    if is_some (find_by (is_pair liker liked) rows)
    then update_by (is_pair liker liked) (set_pass is_pass) rows
    else record { liker_id = liker; liked_id = liked; is_pass = is_pass } ∷ rows

unfoldable pub add_likes : ℤ → User → User
add_likes n u = record u { likes_count = u.likes_count +ℤ n }

-- `prior and not prior.is_pass`
unfoldable pub prior_was_like : ℕ → ℕ → Db → Bool
prior_was_like liker liked d = elim (find_by (is_pair liker liked) d.likes) [
  | none ↦ false
  | some row ↦ is_like row
]

unfoldable pub save_like : ℕ → ℕ → Bool → Db → Db
unfolding upsert_like add_likes prior_was_like
save_like liker liked is_pass d =
    let prior = prior_was_like liker liked d in
    let stored = record d { likes = upsert_like liker liked is_pass d.likes } in
    if is_pass
    then (if prior then write_user liked (add_likes (neg (pos 1))) stored else stored)
    else (if prior then stored else write_user liked (add_likes (pos 1)) stored)

abbrev pub likes_pair : ℕ → ℕ → UserLike → Bool
likes_pair liker liked row = if is_pair liker liked row then is_like row else false

unfoldable pub check_mutual_like : ℕ → ℕ → Db → Bool
check_mutual_like one two d =
    count_if (λ row. likes_pair one two row || likes_pair two one row) d.likes == 2
