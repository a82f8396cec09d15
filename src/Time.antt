-- ===== src/Time.antt =====
-- Time stamps. The program stores ISO strings and reads them only by `Date.parse`; a time stamp
-- is here what `Date.parse` makes of it: milliseconds since 1970, or `none` for NaN. Times before
-- 1970 are not modelled. A `Date` holds at most 8.64e15 ms, so nothing later parses, and
-- `toISOString` throws a RangeError there.
use autopilot_beta.Prelude.{
  ℕ, ◌≤◌, ◌≡◌, Bool, true, Option, none, some, arith, leb, if◌then◌else◌, is_some,
}

abbrev pub Timestamp : Type 0
Timestamp = Option ℕ

abbrev pub max_time : ℕ
max_time = 8640000000000000

-- `Date.parse(t)`, with NaN as `none`
unfoldable pub date_parse : Timestamp → Option ℕ
date_parse none = none
date_parse (some ms) = if leb ms max_time then some ms else none

-- `Number.isFinite(Date.parse(t))`
unfoldable pub is_valid_timestamp : Timestamp → Bool
unfolding date_parse
is_valid_timestamp t = is_some (date_parse t)

-- `new Date(ms).toISOString()`, with the RangeError as `none`
unfoldable pub to_iso : ℕ → Option Timestamp
to_iso ms = if leb ms max_time then some (some ms) else none

-- A valid time stamp is its milliseconds.
pub is_valid_timestamp→ms :
    (t : Timestamp) → is_valid_timestamp t ≡ true → (ms : ℕ) × (t ≡ some ms) × (ms ≤ max_time)
unfolding is_valid_timestamp
is_valid_timestamp→ms none h = cc
is_valid_timestamp→ms (some ms) h = (ms, ground arith, ground arith)

pub to_iso-is_valid : (ms : ℕ) (t : Timestamp) → to_iso ms ≡ some t → is_valid_timestamp t ≡ true
unfolding to_iso is_valid_timestamp
to_iso-is_valid ms t h = ground arith
