-- ===== src/Session/Defs.antt =====
-- `SessionClock` of orb/session.py.
use freq_trading.Base.{ℕ, ◌+◌, ◌-◌, ◌*◌, ◌/◌, if◌then◌else◌, ltb, leb, ◌&&◌}
use freq_trading.Num.{Float}
use freq_trading.Models.{OrbConfig}

pub data Zone : Type 0 where
  before in_range_window in_session after : Zone

pub record SessionInfo : Type 0 where
  pub zone : Zone
  pub session_id : ℕ

-- microseconds in a day and in a minute
abbrev pub day : ℕ
day = 86400000000

abbrev pub minute : ℕ
minute = 60000000

-- `datetime.combine(ts.date(), open)`
abbrev pub open_on : ℕ → ℕ → ℕ
open_on open_utc d = d * day + open_utc

-- `_zone_within`; `d` is the day of the opening
unfoldable pub zone_within : (open_utc range_min d ts : ℕ) → SessionInfo
zone_within open_utc range_min d ts =
    if ltb ts (open_on open_utc d + range_min * minute)
    then record { zone = in_range_window; session_id = d }
    else record { zone = in_session; session_id = d }

-- `classify` over the three settings of the clock
unfoldable pub classify_at : (open_utc range_min len_min ts : ℕ) → SessionInfo
unfolding zone_within
classify_at open_utc range_min len_min ts =
    let today = ts / day in
    let today_open = open_on open_utc today in
    let prev_open = today_open - day in
    if ltb ts today_open
    then if leb prev_open ts && ltb ts (prev_open + len_min * minute)
      then zone_within open_utc range_min (today - 1) ts
      else record { zone = before; session_id = today }
    else if leb (today_open + len_min * minute) ts
    then record { zone = after; session_id = today }
    else zone_within open_utc range_min today ts

module _ ⦃fl : Float⦄ where
  -- `SessionClock.classify` of the clock that the configuration builds
  unfoldable pub classify : OrbConfig → ℕ → SessionInfo
  unfolding classify_at
  classify k ts = classify_at k.session_open_utc k.range_minutes k.session_len_min ts
