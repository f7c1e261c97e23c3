-- ===== src/Channels/Limit.antt =====
-- The limit of five channels (database/queries/crud.py), with and without a cached list.
use telegram_bot_new_version.Channels.{
  AdminChannel, ChannelStore, insert_channel, in_order, select_active, get_active_admin_channels,
  add_admin_channel, remove_admin_channel,
}
use telegram_bot_new_version.Prelude.{
  leb, ◌==◌, Bool-cases, length, count_if, keep_if, take, ℕ, zero, suc, ◌+◌, ◌≤◌, ◌<◌, ◌≡◌, refl,
  inl, inr, Bool, true, none, some, List, [], ◌∷◌, arith, ap, ◌∙◌,
}
use telegram_bot_new_version.Prelude.Table.{find_by}

abbrev pub active_rows : ChannelStore → ℕ
active_rows s = count_if (λ c. c.is_active) s.rows

length-insert :
    (c : AdminChannel) (cs : List AdminChannel) → length (insert_channel c cs) ≡ suc (length cs)
unfolding insert_channel
length-insert c [] = refl
length-insert c (x ∷ xs) = ground (arith, length-insert c xs)

length-in_order : (cs : List AdminChannel) → length (in_order cs) ≡ length cs
unfolding in_order
length-in_order [] = refl
length-in_order (c ∷ cs) = omega (arith, length-insert c (in_order cs), length-in_order cs)

length-keep :
    (p : AdminChannel → Bool) (cs : List AdminChannel) → length (keep_if p cs) ≡ count_if p cs
unfolding keep_if count_if
length-keep p [] = refl
length-keep p (c ∷ cs) = ground (arith, length-keep p cs)

length-take : (n : ℕ) (cs : List AdminChannel) → n ≤ length cs → length (take n cs) ≡ n
unfolding take
length-take zero cs h = refl
length-take (suc n) [] h = absurd (omega arith)
length-take (suc n) (c ∷ cs) h = ground (arith, length-take n cs)

-- Five active rows fill the SELECT.
select-full :
    (rows : List AdminChannel)
    → 5 ≤ count_if (λ c. c.is_active) rows
    → length (select_active rows) ≡ 5
unfolding select_active
select-full rows h = length-take 5 _ (
    omega (
      arith,
      length-in_order (keep_if (λ (c : AdminChannel). c.is_active) rows),
      length-keep (λ (c : AdminChannel). c.is_active) rows,
    ))

-- Where no list is cached, an addition leaves at most five active channels where there were at most
-- five.
pub add_bounded :
    (channel_id : ℕ) (s : ChannelStore)
    → s.cached ≡ none
    → active_rows s ≤ 5
    → active_rows (add_admin_channel channel_id s).0 ≤ 5
unfolding add_admin_channel get_active_admin_channels count_if
add_bounded channel_id s fresh few = elim (Bool-cases (leb 5 (active_rows s))) [
  | inl full ↦ ground (arith, select-full s.rows)
  | inr free ↦ ground arith
]

abbrev with_channel : ℕ → ChannelStore → ChannelStore
with_channel id s = record s {
  rows = record { id = s.next_id; channel_id = id; is_active = true; sort_order = 0 } ∷ s.rows;
  next_id = suc s.next_id;
}

added :
    (id : ℕ) (s : ChannelStore) (channels : List AdminChannel)
    → s.cached ≡ some channels
    → length channels < 5
    → find_by (λ c. c.channel_id == id) s.rows ≡ none
    → (add_admin_channel id s).0 ≡ with_channel id s
unfolding add_admin_channel get_active_admin_channels
added id s channels kept few new = ground arith

-- Additions one after another.
unfoldable pub add_all : List ℕ → ChannelStore → ChannelStore
add_all [] s = s
add_all (id ∷ ids) s = add_all ids (add_admin_channel id s).0

add_all-next :
    (id : ℕ) (ids : List ℕ) (s t : ChannelStore)
    → (add_admin_channel id s).0 ≡ t
    → add_all (id ∷ ids) s ≡ add_all ids t
unfolding add_all
add_all-next id ids s t e = ap (add_all ids) e

one_more : (id : ℕ) (s : ChannelStore) → active_rows (with_channel id s) ≡ suc (active_rows s)
unfolding count_if
one_more id s = omega arith

-- The numbers are new to the table and to each other.
abbrev pub AreNew : List ℕ → List AdminChannel → Type 0
AreNew [] rows = Unit
AreNew (id ∷ ids) rows =
    (find_by (λ c. c.channel_id == id) rows ≡ none)
    × ((n : ℕ)
        → AreNew ids (record { id = n; channel_id = id; is_active = true; sort_order = 0 } ∷ rows))

-- While a list of fewer than five is cached, every addition of a new channel succeeds, however many
-- there are: the limit does not hold, and the cached list still names none of them.
pub limit_passed :
    (ids : List ℕ) (s : ChannelStore) (channels : List AdminChannel)
    → s.cached ≡ some channels
    → length channels < 5
    → AreNew ids s.rows
    → (active_rows (add_all ids s) ≡ active_rows s + length ids)
      × ((get_active_admin_channels (add_all ids s)).1 ≡ channels)
unfolding get_active_admin_channels
limit_passed [] s channels kept few new = unfold add_all in (omega arith, rw kept refl)
limit_passed (id ∷ ids) s channels kept few new =
    let (here, more) = limit_passed ids (with_channel id s) channels kept few (new.1 s.next_id) in
    rw (add_all-next id ids s (with_channel id s) (added id s channels kept few new.0))
      (here ∙ omega (arith, one_more id s), more)

-- A channel that is removed while a list is cached stays in the list that the middleware is given.
pub removal_unseen :
    (id : ℕ) (s : ChannelStore) (channels : List AdminChannel)
    → s.cached ≡ some channels
    → (get_active_admin_channels (remove_admin_channel id s).0).1 ≡ channels
unfolding get_active_admin_channels remove_admin_channel
removal_unseen id s channels kept = ground arith
