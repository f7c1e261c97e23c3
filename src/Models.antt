-- ===== src/Models.antt =====
-- database/models/models.py: the tables, and the state that a session works on.
pub mod Time
pub mod Users
pub mod Coins
pub mod Gifts
pub mod Social
use telegram_bot_new_version.Prelude.{ℕ, List}
use Users.{User}
use Coins.{CoinTransaction, CoinPackage, CoinPurchaseOrder, ReferralCommission}
use Gifts.{GiftType, UserGift, GiftTransaction}
use Social.{
  MatchHistory, UserLike, UserReport, UserWarning, FriendList, BlockList, ProfileComment,
  ProfileCompletionLog, VipSubscription,
}

-- Each table is the list of its rows; rows that the session adds stand in front. `next_id` is the
-- number that AUTO_INCREMENT gives next: one counter serves every table, since only the
-- distinctness of ids matters.
pub record Db : Type 0 where
  pub users : List User
  pub deleted_accounts : List ℕ
  pub coin_transactions : List CoinTransaction
  pub coin_packages : List CoinPackage
  pub orders : List CoinPurchaseOrder
  pub commissions : List ReferralCommission
  pub gift_types : List GiftType
  pub user_gifts : List UserGift
  pub gift_transactions : List GiftTransaction
  pub matches : List MatchHistory
  pub likes : List UserLike
  pub reports : List UserReport
  pub warnings : List UserWarning
  pub friends : List FriendList
  pub blocks : List BlockList
  pub comments : List ProfileComment
  pub completion_logs : List ProfileCompletionLog
  pub vip_subscriptions : List VipSubscription
  pub next_id : ℕ
