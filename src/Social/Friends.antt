-- ===== src/Social/Friends.antt =====
-- The friend and block lists of database/queries/crud.py: `add_friend`, `remove_friend`, `is_friend`,
-- `is_blocked`, `get_blocked_users` (its total).
use telegram_bot_new_version.Models.{Db}
use telegram_bot_new_version.Models.Social.{FriendList, BlockList}
use telegram_bot_new_version.Prelude.{
  ltb, ◌==◌, if◌then◌else◌, is_some, count_if, ℕ, ◌≡◌, refl, Bool, true, false, not, ◌&&◌, List, [],
  ◌∷◌, arith, Bool-cases, inl, inr, ◌⊎◌,
}
use telegram_bot_new_version.Prelude.Table.{find_by, delete_by, find_by-delete_by}

abbrev pub is_friendship : ℕ → ℕ → FriendList → Bool
is_friendship user friend row = if row.user_id == user then row.friend_id == friend else false

unfoldable pub is_friend : ℕ → ℕ → Db → Bool
is_friend user friend d = is_some (find_by (is_friendship user friend) d.friends)

-- INSERT … ON DUPLICATE KEY UPDATE that leaves the row as it is. `on_duplicate` is the row count that
-- the driver reports for such an update: 0, or 1 where the connection counts found rows.
unfoldable pub add_friend : (on_duplicate user friend : ℕ) → Db → Db × Bool
unfolding is_friend
add_friend on_duplicate user friend d =
    if is_friend user friend d
    then (d, ltb 0 on_duplicate)
    else (record d { friends = record { user_id = user; friend_id = friend } ∷ d.friends }, true)

-- DELETE, and whether it took a row.
unfoldable pub remove_friend : (user friend : ℕ) → Db → Db × Bool
unfolding is_friend
remove_friend user friend d = (
  record d { friends = delete_by (is_friendship user friend) d.friends },
  is_friend user friend d,
)

abbrev pub is_block : ℕ → ℕ → BlockList → Bool
is_block blocker blocked row =
    if row.blocker_id == blocker then row.blocked_id == blocked else false

unfoldable pub is_blocked : ℕ → ℕ → Db → Bool
is_blocked blocker blocked d = is_some (find_by (is_block blocker blocked) d.blocks)

unfoldable pub count_blocked : ℕ → Db → ℕ
count_blocked tg_id d = count_if (λ row. row.blocker_id == tg_id) d.blocks

find-other :
    (user friend user' friend' : ℕ) (rows : List FriendList)
    → (user' == user && friend' == friend) ≡ false
    → find_by (is_friendship user' friend') (delete_by (is_friendship user friend) rows)
      ≡ find_by (is_friendship user' friend') rows
unfolding find_by delete_by
find-other user friend user' friend' [] other = refl
find-other user friend user' friend' (r ∷ rows) other =
    ground (arith, find-other user friend user' friend' rows other)

delete-absent :
    (p : FriendList → Bool) (rows : List FriendList)
    → is_some (find_by p rows) ≡ false
    → delete_by p rows ≡ rows
unfolding find_by delete_by
delete-absent p [] e = refl
delete-absent p (r ∷ rows) e = ground (arith, delete-absent p rows)

-- Adding a friend makes that friendship hold and removing it makes it fail, each leaves every other
-- friendship as it was, and a removal after the addition of a new friend restores the list.
pub friends_lem :
    (on_duplicate user friend user' friend' : ℕ) (d : Db)
    → let same : Bool = user' == user && friend' == friend in
      let added = (add_friend on_duplicate user friend d).0 in
      let removed = (remove_friend user friend d).0 in
      (is_friend user' friend' added ≡ (if same then true else is_friend user' friend' d))
      × (is_friend user' friend' removed ≡ (if same then false else is_friend user' friend' d))
      × ((is_friend user friend d ≡ true)
          ⊎ ((remove_friend user friend added).0.friends ≡ d.friends))
unfolding add_friend remove_friend is_friend find_by delete_by
friends_lem on_duplicate user friend user' friend' d =
    let p = is_friendship user friend in
    let gone = find_by-delete_by p d.friends in
    elim (Bool-cases (user' == user && friend' == friend)) [
      | inl same ↦ (ground arith, ground (arith, gone), ground (arith, delete-absent p d.friends))
      | inr other ↦ (
        ground arith,
        ground (arith, find-other user friend user' friend' d.friends other),
        ground (arith, delete-absent p d.friends),
      )
    ]

-- What the answer of an addition says: for a driver that reports no row for a duplicate, whether the
-- friend is new; for one that counts found rows, always that it is.
pub add_friend-answer :
    (user friend : ℕ) (d : Db)
    → ((add_friend 0 user friend d).1 ≡ not (is_friend user friend d))
      × ((add_friend 1 user friend d).1 ≡ true)
unfolding add_friend
add_friend-answer user friend d = ground arith
