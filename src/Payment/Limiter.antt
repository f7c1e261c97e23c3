-- ===== src/Payment/Limiter.antt =====
-- The brute-force guard of api/routes/payment.py: `_check_callback_brute_force` and
-- `_record_callback_attempt`, for one address. A failed call of Redis, which the code ignores, is
-- left out.
use telegram_bot_new_version.Prelude.{
  ltb, if◌then◌else◌, length, ℕ, suc, ◌+◌, ◌≤◌, ◌<◌, ◌≡◌, Bool, false, List, [], ◌∷◌, arith, leb,
}

-- `pay:callback:attempts:…` with the time at which it expires, and the time at which
-- `pay:callback:blocked:…` expires.
pub record Attempts : Type 0 where
  pub count : ℕ
  pub window_until : ℕ
  pub blocked_until : ℕ

abbrev fail_threshold : ℕ
fail_threshold = 20

abbrev pub fail_window : ℕ
fail_window = 300

abbrev pub block_ttl : ℕ
block_ttl = 900

unfoldable pub check_callback_brute_force : ℕ → Attempts → Bool
check_callback_brute_force now a = ltb now a.blocked_until

-- INCR, and EXPIRE on the first: a key that has expired counts from nothing.
unfoldable pub incr_attempts : ℕ → Attempts → Attempts
incr_attempts now a =
    if ltb now a.window_until
    then record a { count = suc a.count }
    else record a { count = 1; window_until = now + fail_window }

unfoldable pub record_callback_attempt : ℕ → Attempts → Attempts
unfolding incr_attempts
record_callback_attempt now a =
    let a' = incr_attempts now a in
    if ltb fail_threshold a'.count then record a' { blocked_until = now + block_ttl } else a'

-- A list of attempts, the latest first.
unfoldable pub record_all : List ℕ → Attempts → Attempts
record_all [] a = a
record_all (t ∷ ts) a = record_callback_attempt t (record_all ts a)

abbrev pub no_attempts : Attempts
no_attempts = record { count = 0; window_until = 0; blocked_until = 0 }

abbrev pub All : (ℕ → Type 0) → List ℕ → Type 0
All P [] = Unit
All P (t ∷ ts) = P t × All P ts

module _ (start : ℕ) where
  -- The counter in a window that one attempt at `start` has opened.
  counted :
      (ts : List ℕ)
      → All (λ t. t < start + fail_window) ts
      → let a = record_all ts (record_callback_attempt start no_attempts) in
        (a.count ≡ suc (length ts))
        × (a.window_until ≡ start + fail_window)
        × (length ts ≤ 19 → a.blocked_until ≡ 0)
  unfolding record_all record_callback_attempt
  counted [] inside = ground arith
  counted (t ∷ ts) (before, inside) = ground (arith, counted ts inside)

  -- In the five minutes from a first attempt, twenty more block the address until fifteen minutes after
  -- the last of them, and fewer than twenty more block nothing.
  pub blocked_after :
      (t now : ℕ) (ts : List ℕ)
      → t < start + fail_window
      → All (λ s. s < start + fail_window) ts
      → let a = record_all (t ∷ ts) (record_callback_attempt start no_attempts) in
        check_callback_brute_force now a
        ≡ (if leb 19 (length ts) then ltb now (t + block_ttl) else false)
  unfolding record_all record_callback_attempt check_callback_brute_force
  blocked_after t now ts before inside = ground (arith, counted ts inside)
