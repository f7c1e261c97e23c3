-- ===== src/Models/Gifts.antt =====
-- database/models/models.py: GiftType, UserGift, GiftTransaction.
use telegram_bot_new_version.Prelude.{ℕ, Bool, Option, String}
use telegram_bot_new_version.Prelude.Int.{ℤ}

pub record GiftType : Type 0 where
  pub id : ℕ
  pub code : String
  pub display_name : String
  pub emoji : String
  pub price_coins : ℕ
  pub description : Option String
  pub is_active : Bool
  pub sort_order : ℕ

pub data Source : Type 0 where
  purchase gateway_purchase transfer_out transfer_in sell : Source

pub record UserGift : Type 0 where
  pub owner_tg_id : ℕ
  pub gift_type_id : ℕ
  pub quantity : ℕ
  pub last_source : Source

pub data TxKind : Type 0 where
  purchase gateway_purchase transfer sell : TxKind

pub record GiftTransaction : Type 0 where
  pub id : ℕ
  pub sender_tg_id : ℕ
  pub receiver_tg_id : ℕ
  pub gift_type_id : ℕ
  pub quantity : ℕ
  pub tx_kind : TxKind
  pub coins_spent : ℤ
