-- ===== src/Matches.antt =====
-- database/queries/crud.py, "Match History": `create_match_history`, `get_active_match`,
-- `is_active_match_partner`; and the block "terminate active match" that services/warning_engine.py
-- and `create_user_report` run for a banned user.
pub mod Ended
use telegram_bot_new_version.Models.{Db}
use telegram_bot_new_version.Models.Social.{MatchHistory}
use telegram_bot_new_version.Prelude.{
  ◌==◌, if◌then◌else◌, ℕ, ◌+◌, Bool, true, false, ◌&&◌, ◌||◌, Option, none, some, List, [], ◌∷◌,
}
use telegram_bot_new_version.Prelude.Table.{find_by, update_by}

-- What the block does outside the database, in order: FSM state and data of a user cleared, the key
-- `user:state:…` deleted, a message sent. All of it stands in a `try`, after the writes to the row.
pub data Effect : Type 0 where
  clear_fsm delete_user_state notify mark_banned : ℕ → Effect

unfoldable pub create_match_history : ℕ → ℕ → Db → Db
create_match_history one two d = record d {
  matches =
      record {
        id = d.next_id;
        user_one_id = one;
        user_two_id = two;
        is_active = true;
        ended_at = none;
      }
      ∷ d.matches;
  next_id = d.next_id + 1;
}

abbrev pub takes_part : ℕ → MatchHistory → Bool
takes_part tg_id m = m.is_active && (m.user_one_id == tg_id || m.user_two_id == tg_id)

unfoldable pub get_active_match : ℕ → Db → Option MatchHistory
get_active_match tg_id d = find_by (takes_part tg_id) d.matches

unfoldable pub is_active_match_partner : ℕ → ℕ → Db → Bool
unfolding get_active_match
is_active_match_partner viewer target d =
    if viewer == target then false else elim (get_active_match viewer d) [
      | none ↦ false
      | some m ↦ target == m.user_one_id || target == m.user_two_id
    ]

abbrev pub end_row : ℕ → MatchHistory → MatchHistory
end_row now m = record m { is_active = false; ended_at = some now }

abbrev pub partner_of : ℕ → MatchHistory → ℕ
partner_of tg_id m = if m.user_one_id == tg_id then m.user_two_id else m.user_one_id

unfoldable pub end_effects : ℕ → ℕ → List Effect
end_effects tg_id partner =
    clear_fsm tg_id
    ∷ delete_user_state tg_id
    ∷ clear_fsm partner
    ∷ delete_user_state partner
    ∷ notify partner
    ∷ []

unfoldable pub terminate_active_match : ℕ → ℕ → Db → Db × List Effect
unfolding end_effects
terminate_active_match now tg_id d = elim (get_active_match tg_id d) [
  | none ↦ (d, [])
  | some m ↦ (
    record d { matches = update_by (λ x. x.id == m.id) (end_row now) d.matches },
    end_effects tg_id (partner_of tg_id m),
  )
]
