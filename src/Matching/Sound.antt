-- ===== src/Matching/Sound.antt =====
-- What each outcome of a search of services/matching_engine.py means, batch by batch.
use telegram_bot_new_version.Matching.Search.{
  acceptable, Judgement, judge, set_matched, matched_caller, match_pair, Outcome, scan_batch,
  drop_entry, take_user, found, counted, name_error, scan_queue, batches, scan_keys, none_yet,
  step_batch, go_on, batch_size, search_batch,
}
use telegram_bot_new_version.Matching.Keys.{QueueKey}
use telegram_bot_new_version.Matching.Queue.{
  Status, UserState, Waiting, Redis, state_key, get_state, lrem_all, lrem_one, Caller, queue,
}
use telegram_bot_new_version.Prelude.{
  ◌==◌, Option-cases, ℕ, suc, ◌≡◌, refl, ◌≢◌, ◌⊎◌, inl, inr, Bool, true, some, List, [], ◌∷◌, arith,
  length, zero, subst, ◌∙◌, leb, if◌then◌else◌, take, drop, ◌+◌, false, ◌&&◌,
}
use telegram_bot_new_version.Prelude.Table.{delete_by, find, find-update, find-key}

-- The two are matched with each other, and the candidate, someone else, was waiting and fits.
abbrev pub IsMatched : Caller → List UserState → (ℕ → ℕ → Bool) → ℕ → Redis → Type 0
IsMatched c states blocks id r =
    (id ≢ c.tg_id)
    × (u : UserState) × (find state_key id states ≡ some u)
    × (u.status ≡ Status.queuing)
    × ((c.is_nearby_search && c.has_location) ≡ false)
    × (acceptable c u blocks ≡ true)
    × (get_state id r ≡ some (set_matched c.tg_id u))
    × (get_state c.tg_id r ≡ some (matched_caller c id (find state_key c.tg_id states)))

-- What each outcome means, for a search from `r` to `r'`.
abbrev pub Sound : Caller → Redis → Redis → Outcome → Type 0
Sound c r r' Outcome.none_yet = (r'.states ≡ r.states) × (r'.blocks ≡ r.blocks)
Sound c r r' Outcome.failed = Unit
Sound c r r' (found id) = IsMatched c r.states r.blocks id r'

Judgement-cases :
    (j : Judgement)
    → (j ≡ drop_entry) ⊎ (j ≡ counted) ⊎ (j ≡ name_error) ⊎ ((u : UserState) × (j ≡ take_user u))
Judgement-cases drop_entry = inl refl
Judgement-cases counted = inr (inl refl)
Judgement-cases name_error = inr (inr (inl refl))
Judgement-cases (take_user u) = inr (inr (inr (u, refl)))

judge-take :
    (c : Caller) (id : ℕ) (r : Redis) (u : UserState)
    → judge c id r ≡ take_user u
    → (id ≢ c.tg_id)
      × (get_state id r ≡ some u)
      × (u.status ≡ Status.queuing)
      × ((c.is_nearby_search && c.has_location) ≡ false)
      × (acceptable c u r.blocks ≡ true)
unfolding judge
judge-take c id r u e = elim (Option-cases (get_state id r)) [
  | inl n ↦ absurd (ground (arith, e))
  | inr (v, n) ↦ ground (arith, e)
]

find-without :
    (k j : ℕ) (us : List UserState)
    → j ≢ k
    → find state_key j (delete_by (λ u. u.tg_id == k) us) ≡ find state_key j us
unfolding find delete_by
find-without k j [] other = refl
find-without k j (u ∷ us) other = ground (arith, find-without k j us other)

matched_caller-id :
    (c : Caller) (id : ℕ) (r : Redis) → (matched_caller c id (get_state c.tg_id r)).tg_id ≡ c.tg_id
unfolding matched_caller
matched_caller-id c id r = elim (Option-cases (get_state c.tg_id r)) [
  | inl n ↦ ground arith
  | inr (u, n) ↦ ground (arith, find-key state_key c.tg_id r.states u n)
]

match_pair-IsMatched :
    (c : Caller) (key : QueueKey) (id : ℕ) (r : Redis) (u : UserState)
    → judge c id r ≡ take_user u
    → IsMatched c r.states r.blocks id (match_pair c key id r)
unfolding match_pair lrem_all lrem_one find set_matched matched_caller
match_pair-IsMatched c key id r u e =
    let (other, known, status, far, fits) = judge-take c id r u e in
    let own = matched_caller-id c id r in
    let old = delete_by (λ v. v.tg_id == c.tg_id) r.states in
    let kept = find-without c.tg_id id r.states other in
    let moved = find-update state_key id id (set_matched c.tg_id) old (λ v. refl) in
    (other, u, known, status, far, fits, ground (arith, own, kept, moved), ground (arith, own))

step_batch-Sound :
    (c : Caller) (key : QueueKey) (w : Waiting) (r : Redis) (n : ℕ) (j : Judgement)
    → (next : Redis → ℕ → Redis × ℕ × Outcome) → judge c w.id r ≡ j
    → ((x : Redis) (m : ℕ) → let (r', n', o) = next x m in Sound c x r' o)
    → let (r', n', o) = step_batch c key w r n j next in Sound c r r' o
unfolding step_batch lrem_all
step_batch-Sound c key w r n drop_entry next e h = h (lrem_all key w.id r) n
step_batch-Sound c key w r n counted next e h = h r (suc n)
step_batch-Sound c key w r n name_error next e h = tt
step_batch-Sound c key w r n (take_user u) next e h = match_pair-IsMatched c key w.id r u e

scan_batch-Sound :
    (c : Caller) (key : QueueKey) (ws : List Waiting) (r : Redis) (n : ℕ)
    → let (r', n', o) = scan_batch c key ws r n in Sound c r r' o
unfolding scan_batch
scan_batch-Sound c key [] r n = (refl, refl)
scan_batch-Sound c key (w ∷ ws) r n =
    step_batch-Sound c key w r n (judge c w.id r) (λ x m. scan_batch c key ws x m) refl
      (λ x m. scan_batch-Sound c key ws x m)

Sound-after :
    (c : Caller) (r r' r'' : Redis) (o : Outcome)
    → Sound c r r' none_yet
    → Sound c r' r'' o
    → Sound c r r'' o
Sound-after c r r' r'' Outcome.none_yet (p, q) (p', q') = (p' ∙ p, q' ∙ q)
Sound-after c r r' r'' Outcome.failed same h = tt
Sound-after c r r' r'' (found id) (p, q) h =
    subst (λ s. IsMatched c s r.blocks id r'') p (subst (λ b. IsMatched c r'.states b id r'') q h)

go_on-Sound :
    (c : Caller) (r r' : Redis) (o : Outcome) (next : Redis → Redis × Outcome)
    → Sound c r r' o
    → ((x : Redis) → let (x', o') = next x in Sound c x x' o')
    → let (x', o') = go_on r' o next in Sound c r x' o'
unfolding go_on
go_on-Sound c r r' Outcome.none_yet next h more =
    Sound-after c r r' (next r').0 (next r').1 h (more r')
go_on-Sound c r r' Outcome.failed next h more = tt
go_on-Sound c r r' (found id) next h more = h

search_batch-Sound :
    (c : Caller) (key : QueueKey) (ws : List Waiting) (r : Redis) (n : ℕ)
    → (next : Redis → ℕ → Redis × Outcome)
    → ((x : Redis) (m : ℕ) → let (r', o) = next x m in Sound c x r' o)
    → let (r', o) = search_batch c key ws r n next in Sound c r r' o
unfolding search_batch
search_batch-Sound c key [] r n next h = (refl, refl)
search_batch-Sound c key (w ∷ ws) r n next h =
    let (r', n', o) = scan_batch c key (w ∷ ws) r n in
    go_on-Sound c r r' o (λ x. next x n') (scan_batch-Sound c key (w ∷ ws) r n) (λ x. h x n')

choice-Sound :
    (c : Caller) (r : Redis) (b : Bool) (x y : Redis × Outcome)
    → Sound c r x.0 x.1
    → Sound c r y.0 y.1
    → let (r', o) = if b then x else y in Sound c r r' o
choice-Sound c r true x y p q = p
choice-Sound c r false x y p q = q

scan_queue-Sound :
    (c : Caller) (key : QueueKey) (left offset : ℕ) (r : Redis) (n : ℕ)
    → let (r', o) = scan_queue c key left offset r n in Sound c r r' o
unfolding scan_queue
scan_queue-Sound c key zero offset r n = (refl, refl)
scan_queue-Sound c key (suc left) offset r n =
    let batch = take batch_size (drop offset (queue key r)) in
    let next : Redis → ℕ → Redis × Outcome =
      λ x m. scan_queue c key left (offset + batch_size) x m in
    choice-Sound c r (leb 100 n) (r, none_yet) (search_batch c key batch r n next) (refl, refl)
      (search_batch-Sound c key batch r n next
        (λ x m. scan_queue-Sound c key left (offset + batch_size) x m))

pub scan_keys-Sound :
    (c : Caller) (keys : List QueueKey) (r : Redis)
    → let (r', o) = scan_keys c keys r in Sound c r r' o
unfolding scan_keys
scan_keys-Sound c [] r = (refl, refl)
scan_keys-Sound c (k ∷ ks) r =
    let (r', o) = scan_queue c k (batches (length (queue k r))) 0 r 0 in
    go_on-Sound c r r' o (λ x. scan_keys c ks x)
      (scan_queue-Sound c k (batches (length (queue k r))) 0 r 0) (λ x. scan_keys-Sound c ks x)
