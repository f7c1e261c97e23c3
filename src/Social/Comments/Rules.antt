-- ===== src/Social/Comments/Rules.antt =====
-- Profile comments (database/queries/crud.py): one for each author and target, and who may delete one.
use telegram_bot_new_version.Models.{Db}
use telegram_bot_new_version.Models.Social.{ProfileComment}
use telegram_bot_new_version.Prelude.{
  ◌==◌, if◌then◌else◌, is_some, length, count_if, keep_if, take, drop, ℕ, zero, suc, ◌+◌, ◌*◌, ◌≤◌,
  String, ◌≡◌, refl, ◌⊎◌, true, false, none, some, List, [], ◌∷◌, arith, Option-cases, inl, inr,
  ◌≢◌,
}
use telegram_bot_new_version.Prelude.Table.{
  map_option, find_by, update_by, delete_by, find, count-none, count-found, count-update_by,
}
use telegram_bot_new_version.Social.Comments.{
  is_comment, get_my_comment_on_profile, set_text, upsert_profile_comment, insert_latest,
  latest_first, get_profile_comments, comment_key, get_comment_by_id, delete_profile_comment,
}

found-set :
    (now author target : ℕ) (text : String) (rows : List ProfileComment)
    → find_by
        (is_comment author target)
        (update_by (is_comment author target) (set_text now text) rows)
      ≡ map_option (set_text now text) (find_by (is_comment author target) rows)
unfolding find_by update_by set_text
found-set now author target text [] = refl
found-set now author target text (r ∷ rows) = ground (arith, found-set now author target text rows)

-- Writing a comment answers the comment of the author on the profile, which has the new text, and keeps
-- it the only one, if there was at most one; its creation time stays where there was one.
pub upsert_lem :
    (now author target : ℕ) (text : String) (d : Db)
    → count_if (is_comment author target) d.comments ≤ 1
    → let (d', answer) = upsert_profile_comment now author target text d in
      (count_if (is_comment author target) d'.comments ≡ 1)
      × (answer ≡ get_my_comment_on_profile author target d')
      × (map_option (λ c. c.text) answer ≡ some text)
      × (map_option (λ c. c.created_at) answer ≡ (
          if is_some (get_my_comment_on_profile author target d)
          then map_option (λ c. c.created_at) (get_my_comment_on_profile author target d)
          else some now))
unfolding upsert_profile_comment get_my_comment_on_profile set_text count_if find_by
upsert_lem now author target text d one =
    let p = is_comment author target in
    let rows = d.comments in
    elim (Option-cases (find_by p rows)) [
      | inl e ↦ (ground (arith, count-none p rows), refl, ground arith, ground arith)
      | inr (c, e) ↦
          let kept = count-update_by p p (set_text now text) rows (λ r. refl) in
          let found = found-set now author target text rows in
          (
            ground (arith, kept, count-found p rows),
            refl,
            ground (arith, found),
            ground (arith, found),
          )
    ]

find-deleted :
    (id : ℕ) (rows : List ProfileComment)
    → find comment_key id (delete_by (λ row. row.id == id) rows) ≡ none
unfolding find delete_by
find-deleted id [] = refl
find-deleted id (r ∷ rows) = ground (arith, find-deleted id rows)

-- A comment is deleted exactly when its target or its author asks; otherwise nothing changes.
pub delete_lem :
    (id requester : ℕ) (d : Db) (c : ProfileComment)
    → get_comment_by_id id d ≡ some c
    → let (d', done) = delete_profile_comment id requester d in
      (((requester ≡ c.target_tg_id) ⊎ (requester ≡ c.author_tg_id))
        × (done ≡ true)
        × (get_comment_by_id id d' ≡ none))
      ⊎ ((requester ≢ c.target_tg_id) × (requester ≢ c.author_tg_id) × (done ≡ false) × (d' ≡ d))
unfolding delete_profile_comment get_comment_by_id
delete_lem id requester d c e = ground (arith, find-deleted id d.comments)

length-insert_latest :
    (c : ProfileComment) (xs : List ProfileComment) → length (insert_latest c xs) ≡ suc (length xs)
unfolding insert_latest
length-insert_latest c [] = refl
length-insert_latest c (x ∷ xs) = ground (arith, length-insert_latest c xs)

pub length-latest_first : (xs : List ProfileComment) → length (latest_first xs) ≡ length xs
unfolding latest_first
length-latest_first [] = refl
length-latest_first (x ∷ xs) =
    ground (arith, length-latest_first xs, length-insert_latest x (latest_first xs))

length-take : {A : Type 0} (n : ℕ) (xs : List A) → length (take n xs) ≤ n
unfolding take
length-take zero xs = ground arith
length-take (suc n) [] = omega arith
length-take (suc n) (x ∷ xs) = ground (arith, length-take n xs)

length-take-full : {A : Type 0} (n : ℕ) (xs : List A) → n ≤ length xs → length (take n xs) ≡ n
unfolding take
length-take-full zero xs h = refl
length-take-full (suc n) [] h = omega (arith, h)
length-take-full (suc n) (x ∷ xs) h = omega (arith, length-take-full n xs (omega (arith, h)))

length-take-drop :
    {A : Type 0} (n k : ℕ) (xs : List A) → n + k ≤ length xs → length (take n (drop k xs)) ≡ n
unfolding take drop
length-take-drop n zero xs h = length-take-full n xs (omega (arith, h))
length-take-drop n (suc k) [] h = ground arith
length-take-drop n (suc k) (x ∷ xs) h = length-take-drop n k xs (omega (arith, h))

-- A page has at most three comments, and all three where the total leaves that many.
pub page_lem :
    (target page : ℕ) (d : Db)
    → let (rows, total) = get_profile_comments target page d in
      (length rows ≤ 3) × (page * 3 + 3 ≤ total → length rows ≡ 3)
unfolding get_profile_comments
page_lem target page d =
    let rows = keep_if (λ row. row.target_tg_id == target) d.comments in
    (
      length-take 3 (drop (page * 3) (latest_first rows)),
      λ full.
          length-take-drop 3 (page * 3) (latest_first rows)
            (omega (arith, length-latest_first rows, full)),
    )
