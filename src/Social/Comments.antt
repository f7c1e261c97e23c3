-- ===== src/Social/Comments.antt =====
-- Profile comments of database/queries/crud.py: `are_comments_disabled` to `delete_profile_comment`.
pub mod Rules
use telegram_bot_new_version.Models.{Db}
use telegram_bot_new_version.Session.{get_user_by_tg_id, write_user}
use telegram_bot_new_version.Models.Users.{User}
use telegram_bot_new_version.Models.Social.{ProfileComment}
use telegram_bot_new_version.Prelude.{
  leb, ◌==◌, if◌then◌else◌, is_some, length, keep_if, take, drop, ℕ, suc, ◌*◌, String, Bool, true,
  false, not, ◌||◌, Option, none, some, List, [], ◌∷◌,
}
use telegram_bot_new_version.Prelude.Table.{find_by, update_by, delete_by, find}

unfoldable pub are_comments_disabled : ℕ → Db → Bool
are_comments_disabled tg_id d = elim (get_user_by_tg_id tg_id d) [
  | none ↦ false
  | some u ↦ u.comments_disabled
]

unfoldable pub flip_comments : User → User
flip_comments u = record u { comments_disabled = not u.comments_disabled }

unfoldable pub toggle_comments_disabled : ℕ → Db → Db × Option Bool
unfolding flip_comments
toggle_comments_disabled tg_id d = elim (get_user_by_tg_id tg_id d) [
  | none ↦ (d, none)
  | some u ↦ (write_user tg_id flip_comments d, some (not u.comments_disabled))
]

abbrev pub is_comment : ℕ → ℕ → ProfileComment → Bool
is_comment author target row =
    if row.author_tg_id == author then row.target_tg_id == target else false

unfoldable pub get_my_comment_on_profile : (author target : ℕ) → Db → Option ProfileComment
get_my_comment_on_profile author target d = find_by (is_comment author target) d.comments

unfoldable pub set_text : ℕ → String → ProfileComment → ProfileComment
set_text now text row = record row { text = text; updated_at = now }

-- INSERT … ON DUPLICATE KEY UPDATE, then the row again.
unfoldable pub upsert_profile_comment :
    (now author target : ℕ) → String → Db → Db × Option ProfileComment
unfolding get_my_comment_on_profile set_text
upsert_profile_comment now author target text d =
    let written : Db =
      (if is_some (get_my_comment_on_profile author target d)
        then record d {
          comments = update_by (is_comment author target) (set_text now text) d.comments;
        }
        else record d {
          comments =
              record {
                id = d.next_id;
                author_tg_id = author;
                target_tg_id = target;
                text = text;
                created_at = now;
                updated_at = now;
              }
              ∷ d.comments;
          next_id = suc d.next_id;
        }) in
    (written, get_my_comment_on_profile author target written)

abbrev pub comments_per_page : ℕ
comments_per_page = 3

-- ORDER BY created_at DESC
unfoldable pub insert_latest : ProfileComment → List ProfileComment → List ProfileComment
insert_latest c [] = c ∷ []
insert_latest c (x ∷ xs) =
    let rest = insert_latest c xs in if leb x.created_at c.created_at then c ∷ x ∷ xs else x ∷ rest

unfoldable pub latest_first : List ProfileComment → List ProfileComment
unfolding insert_latest
latest_first [] = []
latest_first (c ∷ cs) = insert_latest c (latest_first cs)

unfoldable pub get_profile_comments : (target page : ℕ) → Db → List ProfileComment × ℕ
unfolding latest_first
get_profile_comments target page d =
    let rows = keep_if (λ row. row.target_tg_id == target) d.comments in
    (take comments_per_page (drop (page * comments_per_page) (latest_first rows)), length rows)

abbrev pub comment_key : ProfileComment → ℕ
comment_key c = c.id

unfoldable pub get_comment_by_id : ℕ → Db → Option ProfileComment
get_comment_by_id id d = find comment_key id d.comments

unfoldable pub delete_profile_comment : (id requester : ℕ) → Db → Db × Bool
unfolding get_comment_by_id
delete_profile_comment id requester d = elim (get_comment_by_id id d) [
  | none ↦ (d, false)
  | some c ↦
      if requester == c.target_tg_id || requester == c.author_tg_id
      then (record d { comments = delete_by (λ row. row.id == id) d.comments }, true)
      else (d, false)
]
