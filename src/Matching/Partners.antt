-- ===== src/Matching/Partners.antt =====
-- What a match of services/matching_engine.py guarantees.
use telegram_bot_new_version.Matching.Search.{
  set_matched, matched_caller, Outcome, go_on, scan_keys, find_match, get_user_match_partner,
  none_yet, found,
}
use telegram_bot_new_version.Matching.Sound.{IsMatched, Sound, scan_keys-Sound}
use telegram_bot_new_version.Matching.Keys.{get_target_queue_keys}
use telegram_bot_new_version.Matching.Queue.{Redis, state_key, Caller, add_to_queue}
use telegram_bot_new_version.Prelude.{Option-cases, ℕ, ◌≡◌, subst, ◌≢◌, inl, inr, true, some, arith}
use telegram_bot_new_version.Prelude.Table.{find}

found-IsMatched :
    (c : Caller) (r r' : Redis) (o : Outcome) (id : ℕ)
    → Sound c r r' o
    → (go_on r' o (λ x. (add_to_queue c x, none_yet))).1 ≡ found id
    → IsMatched c r.states r.blocks id (go_on r' o (λ x. (add_to_queue c x, none_yet))).0
unfolding go_on
found-IsMatched c r r' Outcome.none_yet id h e = absurd (ground (arith, e))
found-IsMatched c r r' Outcome.failed id h e = absurd (ground (arith, e))
found-IsMatched c r r' (found i) id h e =
    subst (λ k. IsMatched c r.states r.blocks k r') (ground (arith, e)) h

-- A search that finds a partner has matched the two with each other: the partner is someone else, was
-- waiting, passes the filters of both, and neither blocks the other.
pub find_match-IsMatched :
    (c : Caller) (r : Redis) (id : ℕ)
    → (find_match c r).1 ≡ found id
    → IsMatched c r.states r.blocks id (find_match c r).0
unfolding find_match
find_match-IsMatched c r id e =
    let (r', o) = scan_keys c (get_target_queue_keys c.own_key) r in
    found-IsMatched c r r' o id (scan_keys-Sound c (get_target_queue_keys c.own_key) r) e

-- A search nearby, by a caller whose place is known, never finds a partner, whoever waits.
pub nearby_unmatched :
    (c : Caller) (r : Redis) (id : ℕ)
    → c.is_nearby_search ≡ true
    → c.has_location ≡ true
    → (find_match c r).1 ≢ found id
nearby_unmatched c r id near place e =
    let (other, u, known, status, far, fits, theirs, mine) = find_match-IsMatched c r id e in
    ground (arith, far)

-- The two partners of a match name each other.
pub partners_lem :
    (c : Caller) (r : Redis) (id : ℕ)
    → (find_match c r).1 ≡ found id
    → (get_user_match_partner id (find_match c r).0 ≡ some c.tg_id)
      × (get_user_match_partner c.tg_id (find_match c r).0 ≡ some id)
unfolding get_user_match_partner set_matched matched_caller
partners_lem c r id e =
    let (other, u, known, status, far, fits, theirs, mine) = find_match-IsMatched c r id e in
    elim (Option-cases (find state_key c.tg_id r.states)) [
      | inl n ↦ (ground (arith, theirs), ground (arith, mine))
      | inr (v, n) ↦ (ground (arith, theirs), ground (arith, mine))
    ]
