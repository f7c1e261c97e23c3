-- ===== src/Scheduler/Alone.antt =====
-- `terminate_match_unified` as a function (services/scheduler.py) is what a caller does that no other
-- interrupts.
use telegram_bot_new_version.Scheduler.Race.{System, Outcome, gone, won}
use telegram_bot_new_version.Scheduler.Termination.{Call, terminate_match_unified}
use telegram_bot_new_version.Scheduler.Progress.{Steps}
use telegram_bot_new_version.Prelude.{ℕ, ◌≡◌, Bool, true, false, [], ◌∷◌}

-- The call of the polling loop, at one reading of the clock.
abbrev pub auto_call : ℕ → ℕ → Call
auto_call i now = record {
  token = i;
  is_manual = false;
  readings = now ∷ [];
  deadline = now;
  ended_at = now;
  released_at = now;
}

abbrev pub answers_true : Outcome → Bool
answers_true won = true
answers_true _ = false

module _ (job : ℕ → ℕ) where
  -- The callers' steps reach what the function gives: its store and its answer.
  abbrev pub Agrees : System → ℕ → Type 0
  Agrees s i =
      (t : System) × (o : Outcome) × Steps job s t
      × (t.pc i ≡ gone o)
      × (t.store ≡ (terminate_match_unified (auto_call i s.now) (job i) s.store).0)
      × (answers_true o ≡ (terminate_match_unified (auto_call i s.now) (job i) s.store).1)
