-- ===== src/Channels.antt =====
-- "Admin channel management" of database/queries/crud.py, with the key `cache:admin_channels` of
-- services/cache.py. A Redis that fails reads as no cached list; its expiry is `expire_cache`.
pub mod Limit
use telegram_bot_new_version.Prelude.{
  ltb, leb, ◌==◌, if◌then◌else◌, is_some, length, keep_if, take, ℕ, suc, Bool, true, false, Option,
  none, some, List, [], ◌∷◌,
}
use telegram_bot_new_version.Prelude.Table.{find_by, delete_by}

pub record AdminChannel : Type 0 where
  pub id : ℕ
  pub channel_id : ℕ
  pub is_active : Bool
  pub sort_order : ℕ

pub record ChannelStore : Type 0 where
  pub rows : List AdminChannel
  pub cached : Option (List AdminChannel)
  pub next_id : ℕ

-- ORDER BY sort_order, id
abbrev pub before : AdminChannel → AdminChannel → Bool
before a b =
    if ltb a.sort_order b.sort_order
    then true
    else if a.sort_order == b.sort_order
    then ltb a.id b.id
    else false

unfoldable pub insert_channel : AdminChannel → List AdminChannel → List AdminChannel
insert_channel c [] = c ∷ []
insert_channel c (x ∷ xs) =
    let rest = insert_channel c xs in if before c x then c ∷ x ∷ xs else x ∷ rest

unfoldable pub in_order : List AdminChannel → List AdminChannel
unfolding insert_channel
in_order [] = []
in_order (c ∷ cs) = insert_channel c (in_order cs)

-- The SELECT with its LIMIT.
unfoldable pub select_active : List AdminChannel → List AdminChannel
unfolding in_order
select_active rows = take 5 (in_order (keep_if (λ c. c.is_active) rows))

unfoldable pub get_active_admin_channels : ChannelStore → ChannelStore × List AdminChannel
unfolding select_active
get_active_admin_channels s = elim s.cached [
  | none ↦ (record s { cached = some (select_active s.rows) }, select_active s.rows)
  | some channels ↦ (s, channels)
]

-- The new row takes the defaults of its columns.
unfoldable pub add_admin_channel : ℕ → ChannelStore → ChannelStore × Bool
add_admin_channel channel_id s =
    let (s', existing) = get_active_admin_channels s in
    if leb 5 (length existing)
    then (s', false)
    else if is_some (find_by (λ c. c.channel_id == channel_id) s.rows)
    then (s', false)
    else (
      record s' {
        rows =
            record { id = s.next_id; channel_id = channel_id; is_active = true; sort_order = 0 }
            ∷ s.rows;
        next_id = suc s.next_id;
      },
      true,
    )

unfoldable pub remove_admin_channel : ℕ → ChannelStore → ChannelStore × Bool
remove_admin_channel channel_id s =
    if is_some (find_by (λ c. c.channel_id == channel_id) s.rows)
    then (record s { rows = delete_by (λ c. c.channel_id == channel_id) s.rows }, true)
    else (s, false)

unfoldable pub expire_cache : ChannelStore → ChannelStore
expire_cache s = record s { cached = none }
