-- ===== src/Models/Coins.antt =====
-- database/models/models.py: CoinTransaction, CoinPackage, CoinPurchaseOrder, ReferralCommission.
use telegram_bot_new_version.Prelude.{ℕ, Bool, Option, String}
use telegram_bot_new_version.Prelude.Int.{ℤ}

-- The texts that the code writes into `description`: one constructor for each text, with the values
-- that its f-string interpolates.
pub data Description : Type 0 where
  start_gift profile_info invite_entry gacha_reward profile_complete : Description
  invite_reward : ℕ → Description
  transfer_out transfer_in : Option String → Description
  service_cost : String → Description
  gift_buy gift_sell : ℕ → String → Description
  gift_gateway : ℕ → String → ℕ → Description
  commission_pct : ℕ → Description
  report_reward : ℕ → Description
  package_buy : ℕ → ℕ → Description
  package_card : ℕ → Description
  with_multiplier : Description → Description

-- The values of `tx_type` that the modelled code writes.
pub data TxType : Type 0 where
  generic gift_purchase gift_sell_tx gift_gateway_purchase : TxType
  referral_commission report_reward_tx profile_completion : TxType

pub record CoinTransaction : Type 0 where
  pub user_id : ℕ
  pub amount : ℤ
  pub description : Description
  pub reference_id : Option ℕ
  pub tx_type : TxType

pub record CoinPackage : Type 0 where
  pub id : ℕ
  pub coin_amount : ℕ
  pub price_toman : ℕ
  pub is_active : Bool

pub data OrderStatus : Type 0 where
  pending approved rejected failed expired : OrderStatus
  completed pending_receipt : OrderStatus

pub data PaymentMethod : Type 0 where
  gateway card : PaymentMethod

-- `order_type`; `other` is any text that the callback does not know.
pub data OrderType : Type 0 where
  coins vip_subscription gift_order : OrderType
  other : String → OrderType

-- `order_payload` as `json.loads` gives it; an absent key is `none`, a text that does not parse is
-- the payload with every key absent.
pub record Payload : Type 0 where
  pub price_toman_snapshot : Option ℕ
  pub price_toman : Option ℕ
  pub plan_code : Option String
  pub gift_code : Option String
  pub quantity : Option ℕ

pub record CoinPurchaseOrder : Type 0 where
  pub id : ℕ
  pub user_tg_id : ℕ
  pub package_id : Option ℕ
  pub payment_method : PaymentMethod
  pub order_type : OrderType
  pub order_payload : Payload
  pub status : OrderStatus
  pub receipt_photo_file_id : Option String
  pub gateway_authority : Option String
  pub created_at : ℕ
  pub resolved_at : Option ℕ

pub record ReferralCommission : Type 0 where
  pub referrer_tg_id : ℕ
  pub referred_tg_id : ℕ
  pub purchase_order_id : ℕ
  pub commission_pct : ℕ
  pub commission_coins : ℕ
