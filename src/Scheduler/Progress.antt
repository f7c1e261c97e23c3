-- ===== src/Scheduler/Progress.antt =====
-- A lock whose holder is gone does not keep a match from being ended (services/scheduler.py): it has a
-- life, and the callers that wait go on trying.
use telegram_bot_new_version.Scheduler.Race.{System, Step, Outcome, gone}
use telegram_bot_new_version.Scheduler.Store.{Lock, is_open}
use telegram_bot_new_version.Prelude.{ℕ, ◌+◌, ◌≡◌, false, List, [], ◌∷◌}

latest : List Lock → ℕ
latest [] = 0
latest (l ∷ locks) = l.expires_at + latest locks

module _ (job : ℕ → ℕ) where
  -- Any number of steps, from any state.
  pub data Steps (s : System) : System → Type 0 where
    here : Steps s s
    next : {t u : System} → Steps s t → Step job t u → Steps s u

  abbrev pub Finishes : System → ℕ → Type 0
  Finishes s i =
      (t : System) × (o : Outcome) × Steps s t
      × (t.pc i ≡ gone o)
      × (is_open (job i) t.store.matches ≡ false)
