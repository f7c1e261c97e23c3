-- ===== src/Matches/Ended.antt =====
-- A terminated match is over for both sides.
use telegram_bot_new_version.Models.{Db}
use telegram_bot_new_version.Matches.{takes_part, get_active_match, end_row, terminate_active_match}
use telegram_bot_new_version.Models.Social.{MatchHistory}
use telegram_bot_new_version.Prelude.{
  ◌==◌, ℕ, ◌≡◌, refl, none, List, [], ◌∷◌, arith, Option-cases, inl, inr, some, ◌⊎◌, false,
}
use telegram_bot_new_version.Prelude.Table.{find_by, update_by}

-- The matches of a user that are active are all one match.
abbrev pub OneActive : ℕ → ℕ → List MatchHistory → Type 0
OneActive tg_id i [] = Unit
OneActive tg_id i (m ∷ ms) = ((takes_part tg_id m ≡ false) ⊎ (m.id ≡ i)) × OneActive tg_id i ms

find_by-ended :
    (now tg_id i : ℕ) (ms : List MatchHistory)
    → OneActive tg_id i ms
    → find_by (takes_part tg_id) (update_by (λ x. x.id == i) (end_row now) ms) ≡ none
unfolding find_by update_by
find_by-ended now tg_id i [] one = refl
find_by-ended now tg_id i (m ∷ ms) one = ground (arith, one.0, find_by-ended now tg_id i ms one.1)

find_by-OneActive :
    (tg_id i : ℕ) (ms : List MatchHistory) (m : MatchHistory)
    → OneActive tg_id i ms
    → find_by (takes_part tg_id) ms ≡ some m
    → m.id ≡ i
unfolding find_by
find_by-OneActive tg_id i [] m one e = cc
find_by-OneActive tg_id i (x ∷ ms) m one e =
    ground (arith, one.0, find_by-OneActive tg_id i ms m one.1)

-- A user whose active matches are one match has none afterwards.
pub terminate-none :
    (now tg_id i : ℕ) (d : Db)
    → OneActive tg_id i d.matches
    → get_active_match tg_id (terminate_active_match now tg_id d).0 ≡ none
unfolding terminate_active_match get_active_match
terminate-none now tg_id i d one = elim (Option-cases (find_by (takes_part tg_id) d.matches)) [
  | inl e ↦ ground arith
  | inr (m, e) ↦ ground (
    arith,
    find_by-OneActive tg_id i d.matches m one e,
    find_by-ended now tg_id m.id d.matches,
    find_by-ended now tg_id i d.matches one,
  )
]
