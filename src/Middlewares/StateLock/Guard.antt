-- ===== src/Middlewares/StateLock/Guard.antt =====
-- What a locked state lets through (bot/middlewares/state_lock.py).
use telegram_bot_new_version.Middlewares.LockTables.{
  ReplyBtn, button_no, global_allowed_texts, global_allowed_callback_prefixes, Actions,
}
use text.Mathlib.Text.{starts_with}
use telegram_bot_new_version.Middlewares.StateLock.{
  Event, message, callback, other_event, command, plain, button, Decision, block, Verdict, handled,
}
use telegram_bot_new_version.Prelude.{
  ℕ, String, ◌≡◌, true, Option, none, some, List, ◌∷◌, ◌++◌, Bool, false,
}

-- A button that a list names, and a prefix of it that a callback's data starts with.
pub data Names (b : ReplyBtn) : List ReplyBtn → Type 0 where
  here : (c : ReplyBtn) (cs : List ReplyBtn) → button_no c ≡ button_no b → Names b (c ∷ cs)
  there : (c : ReplyBtn) (cs : List ReplyBtn) → Names b cs → Names b (c ∷ cs)

pub data Starts (cb : String) : List String → Type 0 where
  here : (p : String) (ps : List String) → starts_with cb p ≡ true → Starts cb (p ∷ ps)
  there : (p : String) (ps : List String) → Starts cb ps → Starts cb (p ∷ ps)

-- What a state allows, by the entries of its table and the two global sets: any command, media and
-- other texts where the state says so, the buttons and the callbacks that it or a global set names.
pub data Permits (a : Actions) : Event → Type 0 where
  by_command : (from : Option ℕ) → Permits a (message from (some command))
  by_media : (from : Option ℕ) → a.allow_media ≡ true → Permits a (message from none)
  by_text : (from : Option ℕ) → a.allow_other_texts ≡ true → Permits a (message from (some plain))
  by_button :
      (from : Option ℕ) (b : ReplyBtn)
      → Names b (a.allowed_texts ++ global_allowed_texts)
      → Permits a (message from (some (button b)))
  by_prefix :
      (from : ℕ) (cb : String)
      → Starts cb (a.allowed_callback_prefixes ++ global_allowed_callback_prefixes)
      → Permits a (callback from cb)

-- A decision that calls the handler.
abbrev goes_on : Decision → Bool
goes_on block = false
goes_on _ = true

-- The update that the middleware passes on without a look.
abbrev pub is_other : Event → Bool
is_other other_event = true
is_other _ = false

abbrev is_handled : Verdict → Bool
is_handled handled = true
is_handled _ = false
