-- ===== src/Tests/Social.antt =====
-- Likes, friends, comments and orders (database/queries/crud.py).
use telegram_bot_new_version.Tests.Data.{db}
use telegram_bot_new_version.Prelude.{is_some, ◌≡◌, refl, false, ◌&&◌, arith, count_if}
use telegram_bot_new_version.Prelude.Table.{find_by, find}
use telegram_bot_new_version.Social.Likes.{save_like}
use telegram_bot_new_version.Social.Likes.Counted.{LikesCounted, save_like-LikesCounted}

save_like-LikesCounted_example : LikesCounted 1 (save_like 3 1 false db)
unfolding telegram_bot_new_version.Prelude.count_if telegram_bot_new_version.Prelude.Table.find
save_like-LikesCounted_example = save_like-LikesCounted 3 1 1 false db (omega arith) refl
