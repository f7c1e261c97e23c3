-- ===== src/Models/Time.antt =====
-- Python's `datetime` values of database/models/models.py and of the services: seconds, and whether
-- the value carries its time zone. An order comparison of a value that does with one that does not
-- raises TypeError.
use telegram_bot_new_version.Prelude.{ℕ, Bool, Option, none, some, ltb}

pub data DateTime : Type 0 where
  naive : ℕ → DateTime
  aware : ℕ → DateTime

-- The seconds, whatever the zone flag.
abbrev pub seconds : DateTime → ℕ
seconds (naive t) = t
seconds (aware t) = t

-- `d.replace(tzinfo=timezone.utc)`
abbrev pub with_utc : DateTime → DateTime
with_utc d = aware (seconds d)

-- `d.replace(tzinfo=None)`
abbrev pub without_zone : DateTime → DateTime
without_zone d = naive (seconds d)

-- `d > e`; `none` is the TypeError.
abbrev pub later_than : DateTime → DateTime → Option Bool
later_than (naive t) (naive u) = some (ltb u t)
later_than (aware t) (aware u) = some (ltb u t)
later_than (naive t) (aware u) = none
later_than (aware t) (naive u) = none
