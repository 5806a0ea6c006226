-- ===== src/Time.antt =====
-- contracts/temporal.py: a datetime is an instant, and whether it carries a time zone. The clock is
-- an argument of the functions that read it.
use fabric_data_framework.Prelude.{ℕ, Bool, true, false, Option, none, some}

pub data DateTime : Type 0 where
  naive aware : ℕ → DateTime

-- `value.tzinfo is not None and value.utcoffset() is not None`
abbrev pub is_aware : DateTime → Bool
is_aware (naive _) = false
is_aware (aware _) = true

abbrev pub instant : DateTime → ℕ
instant (naive t) = t
instant (aware t) = t

-- `value.replace(tzinfo=timezone.utc)` where the zone is missing
abbrev pub aware_time : DateTime → DateTime
aware_time (naive t) = aware t
aware_time (aware t) = aware t

abbrev pub aware_option : Option DateTime → Option DateTime
aware_option none = none
aware_option (some t) = some (aware_time t)
