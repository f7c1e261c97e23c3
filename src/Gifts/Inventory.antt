-- ===== src/Gifts/Inventory.antt =====
-- services/gift_engine.py: the catalogue, and the rows of `user_gifts` that the methods read and write.
use text.Mathlib.Text.{◌==◌ as str_eq}
use telegram_bot_new_version.Models.{Db}
use telegram_bot_new_version.Models.Gifts.{GiftType, Source, UserGift}
use telegram_bot_new_version.Prelude.{
  ◌==◌, if◌then◌else◌, Option-cases, ℕ, ◌+◌, ◌-◌, String, ◌≡◌, refl, inl, inr, Bool, ◌&&◌, Option,
  none, some, List, [], ◌∷◌, arith,
}
use telegram_bot_new_version.Prelude.Table.{map_option, find_by, update_by}

-- `get_gift_type_by_code`
unfoldable pub get_gift_type_by_code : String → Db → Option GiftType
get_gift_type_by_code code d = find_by (λ g. str_eq g.code code) d.gift_types

-- The row of one owner and one gift type.
abbrev pub holds : ℕ → ℕ → UserGift → Bool
holds owner gift r = r.owner_tg_id == owner && r.gift_type_id == gift

abbrev pub get_user_gift : ℕ → ℕ → Db → Option UserGift
get_user_gift owner gift d = find_by (holds owner gift) d.user_gifts

unfoldable pub write_user_gift : ℕ → ℕ → (UserGift → UserGift) → Db → Db
write_user_gift owner gift f d = record d {
  user_gifts = update_by (holds owner gift) f d.user_gifts;
}

unfoldable pub take_gift : ℕ → Source → UserGift → UserGift
take_gift n source r = record r { quantity = r.quantity - n; last_source = source }

unfoldable pub put_gift : ℕ → Source → UserGift → UserGift
put_gift n source r = record r { quantity = r.quantity + n; last_source = source }

-- "Add gift to …'s inventory": the row is raised, or made.
unfoldable pub add_to_inventory : ℕ → ℕ → ℕ → Source → Db → Db
unfolding write_user_gift put_gift
add_to_inventory owner gift n source d = elim (get_user_gift owner gift d) [
  | some r ↦ write_user_gift owner gift (put_gift n source) d
  | none ↦ record d {
    user_gifts =
        record { owner_tg_id = owner; gift_type_id = gift; quantity = n; last_source = source }
        ∷ d.user_gifts;
  }
]

-- How many of a gift a user holds.
abbrev pub quantity_of : Option UserGift → ℕ
quantity_of none = 0
quantity_of (some r) = r.quantity

abbrev pub held : ℕ → ℕ → Db → ℕ
held owner gift d = quantity_of (get_user_gift owner gift d)

find_by-holds :
    (o g o' g' : ℕ) (f : UserGift → UserGift) (rs : List UserGift)
    → ((r : UserGift) → (f r).owner_tg_id ≡ r.owner_tg_id)
    → ((r : UserGift) → (f r).gift_type_id ≡ r.gift_type_id)
    → find_by (holds o g) (update_by (holds o' g') f rs) ≡ (
        if o == o' && g == g'
        then map_option f (find_by (holds o g) rs)
        else find_by (holds o g) rs)
unfolding find_by update_by
find_by-holds o g o' g' f [] so sg = ground arith
find_by-holds o g o' g' f (r ∷ rs) so sg =
    ground (arith, so r, sg r, find_by-holds o g o' g' f rs so sg)

module _ (owner gift n : ℕ) (source : Source) (d : Db) (o g : ℕ) where
  -- Taking gifts from a row lowers what its owner holds, and nothing else.
  pub held-take :
      held o g (write_user_gift owner gift (take_gift n source) d)
      ≡ (if o == owner && g == gift then held o g d - n else held o g d)
  unfolding write_user_gift take_gift
  held-take = elim (Option-cases (get_user_gift o g d)) [
    | inl e ↦ ground (
      arith,
      find_by-holds o g owner gift (take_gift n source) d.user_gifts (λ r. refl) (λ r. refl),
    )
    | inr (r, e) ↦ ground (
      arith,
      find_by-holds o g owner gift (take_gift n source) d.user_gifts (λ r. refl) (λ r. refl),
    )
  ]

  -- Adding to an inventory raises what its owner holds, and nothing else.
  pub held-add :
      held o g (add_to_inventory owner gift n source d)
      ≡ (if o == owner && g == gift then held o g d + n else held o g d)
  unfolding add_to_inventory find_by
  held-add = elim (Option-cases (get_user_gift owner gift d)) [
    | inl e ↦ ground arith
    | inr (r, e) ↦ elim (Option-cases (get_user_gift o g d)) [
      | inl e' ↦ ground (
        arith,
        find_by-holds o g owner gift (put_gift n source) d.user_gifts (λ r. refl) (λ r. refl),
      )
      | inr (r', e') ↦ ground (
        arith,
        find_by-holds o g owner gift (put_gift n source) d.user_gifts (λ r. refl) (λ r. refl),
      )
    ]
  ]
