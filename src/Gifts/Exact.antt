-- ===== src/Gifts/Exact.antt =====
-- Where gifts go: each method of services/gift_engine.py seen through what every user holds.
use telegram_bot_new_version.Models.{Db}
use telegram_bot_new_version.Models.Gifts.{GiftType, Source}
use telegram_bot_new_version.Gifts.Inventory.{
  get_gift_type_by_code, held, write_user_gift, take_gift, held-take, held-add,
}
use telegram_bot_new_version.Gifts.Engine.{
  GiftError, sell_gift, purchase_gift, credit_gift, give, transfer_gift,
}
use telegram_bot_new_version.Prelude.{ℕ, ◌+◌, String, ◌≡◌, ◌≢◌, ◌⊎◌, Option, none, some, arith}

-- A refused call changes nothing.
abbrev pub KeepsOnError : (Db × Option GiftError) → Db → Type 0
KeepsOnError (d', none) d = Unit
KeepsOnError (d', some e) d = d' ≡ d

-- Each of the four methods that refuses a call leaves the state as it was.
pub gifts_refused :
    (user receiver : ℕ) (code : String) (n : ℕ) (order : Option ℕ) (d : Db)
    → KeepsOnError (sell_gift user code n d) d
      × KeepsOnError (purchase_gift user code n d) d
      × KeepsOnError (credit_gift user code n order d) d
      × KeepsOnError (transfer_gift user receiver code n d) d
unfolding sell_gift purchase_gift credit_gift transfer_gift
gifts_refused user receiver code n order d =
    (ground arith, ground arith, ground arith, ground arith)

module _ (sender receiver : ℕ) (code : String) (n : ℕ) (d : Db) where
  -- A transfer that succeeds takes `n` from the sender, who had them, gives `n` to the receiver, who is
  -- someone else, and leaves every other holding as it was.
  pub transfer_gift_exact :
      (g : GiftType) (o i : ℕ)
      → get_gift_type_by_code code d ≡ some g
      → (o ≢ sender) × (o ≢ receiver) ⊎ (i ≢ g.id)
      → (transfer_gift sender receiver code n d).1 ≡ none
      → let d' = (transfer_gift sender receiver code n d).0 in
        (held sender g.id d ≡ held sender g.id d' + n)
        × (held receiver g.id d' ≡ held receiver g.id d + n)
        × (held o i d' ≡ held o i d)
  unfolding transfer_gift give
  transfer_gift_exact g o i eg other done =
      let taken = write_user_gift sender g.id (take_gift n Source.transfer_out) d in
      let take = held-take sender g.id n Source.transfer_out d in
      let add = held-add receiver g.id n Source.transfer_in taken in
      (
        ground (arith, take sender g.id, add sender g.id),
        ground (arith, take receiver g.id, add receiver g.id),
        ground (arith, take o i, add o i),
      )
