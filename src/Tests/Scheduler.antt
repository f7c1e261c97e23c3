-- ===== src/Tests/Scheduler.antt =====
-- The end of matches and their timers (services/scheduler.py).
use telegram_bot_new_version.Scheduler.Race.{Step, System, Reach, waiting, locked, ended}
use telegram_bot_new_version.Matches.{end_row}
use telegram_bot_new_version.Models.Social.{MatchHistory}
use telegram_bot_new_version.Scheduler.Poll.{Round}
use telegram_bot_new_version.Scheduler.Termination.{
  try_acquire_match_lock, terminate_locked, terminate_match_unified,
}
use telegram_bot_new_version.Scheduler.Alone.{auto_call}
use telegram_bot_new_version.Scheduler.Winner.{one_winner}
use telegram_bot_new_version.Scheduler.Ended.{terminate_twice}
use telegram_bot_new_version.Scheduler.Store.{
  match_lock_ttl, close_after, Timer, Store, is_open, atomic_deactivate_match, set_nx,
}
use telegram_bot_new_version.Prelude.{◌==◌, ℕ, ◌+◌, ◌≡◌, refl, true, false, none, some, [], ◌∷◌}
use telegram_bot_new_version.Prelude.Table.{find_by, delete_by, find, update, at}

abbrev chat : MatchHistory
chat = record { id = 7; user_one_id = 1; user_two_id = 2; is_active = true; ended_at = none }

abbrev other_chat : MatchHistory
other_chat = record { id = 8; user_one_id = 3; user_two_id = 4; is_active = true; ended_at = none }

abbrev timer : Timer
timer = record { id = 7; last_activity = some 1000; partners = some (1, 2); warned = some false }

-- Two matches, a timer, and a user who waits for one of the partners.
abbrev store : Store
store = record {
  matches = chat ∷ other_chat ∷ [];
  locks = [];
  claims = [];
  timers = timer ∷ [];
  waiters = record { target = 2; id = 9 } ∷ [];
}

-- Every caller is to end the first match.
abbrev same_job : ℕ → ℕ
same_job i = 7

abbrev first_caller : ℕ
first_caller = 0

abbrev at_start : System
at_start = record { now = 1000; store = store; pc = λ i. waiting }

-- Caller 0 has taken the lock, and has ended the match.
abbrev took : System
took = record at_start {
  store = record store {
    locks = record { id = 7; token = 0; expires_at = 1000 + match_lock_ttl } ∷ [];
  };
  pc = at 0 locked (λ i. waiting);
}

abbrev did_end : System
did_end = record took {
  store = record took.store { matches = end_row 1000 chat ∷ other_chat ∷ [] };
  pc = at 0 (ended (end_row 1000 chat)) (at 0 locked (λ i. waiting));
}

end_steps : Reach same_job store 1000 did_end
unfolding set_nx atomic_deactivate_match telegram_bot_new_version.Prelude.Table.find
    telegram_bot_new_version.Prelude.Table.find_by telegram_bot_new_version.Prelude.Table.update
    telegram_bot_new_version.Prelude.Table.delete_by
end_steps =
    Reach.later (Reach.later Reach.start (Step.acquire 0 refl refl))
      (Step.win 0 (end_row 1000 chat) refl refl)

one_winner_example :
    (first_caller ≡ first_caller) × (is_open (same_job first_caller) did_end.store.matches ≡ false)
one_winner_example = one_winner same_job end_steps first_caller first_caller refl refl refl

ended_now : (terminate_match_unified (auto_call 5 1000) 7 store).1 ≡ true
unfolding terminate_match_unified terminate_locked try_acquire_match_lock set_nx
    atomic_deactivate_match telegram_bot_new_version.Prelude.Table.find
    telegram_bot_new_version.Prelude.Table.find_by
ended_now = refl

terminate_twice_example :
    let s' = record (terminate_match_unified (auto_call 5 1000) 7 store).0 {
      locks = ([]);
      claims = ([]);
      timers = ([]);
    } in
    let r = terminate_match_unified (auto_call 6 90000000) 7 s' in
    (r.1 ≡ false) × (r.2 ≡ []) × (r.0.matches ≡ s'.matches) × (r.0.waiters ≡ s'.waiters)
terminate_twice_example =
    terminate_twice (auto_call 5 1000) (auto_call 6 90000000) 7 store ([]) ([]) ([]) ended_now

abbrev after_a_day : Round
after_a_day = record {
  now = 1000 + close_after;
  claim_fails = false;
  hsetnx_fails = false;
  close_fails = false;
  call = auto_call 5 (1000 + close_after);
}

abbrev fresh : Store
fresh = record store { timers = [] }
