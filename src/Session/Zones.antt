-- ===== src/Session/Zones.antt =====
-- What the zone and the session id of an instant say about it, and how they follow time.
use freq_trading.Base.{ℕ, ◌+◌, ◌-◌, ◌*◌, ◌≤◌, ◌<◌, ◌≡◌, arith}
use freq_trading.Session.Defs.{
  Zone, before, in_range_window, in_session, after, day, minute, open_on, classify_at,
}

-- What a zone promises of an instant, in terms of the opening of the session that it names.
abbrev pub Describes : (open_utc range_min len_min ts : ℕ) → Zone → ℕ → Type 0
Describes o r l ts before d = (ts < open_on o d) × (open_on o (d - 1) + l * minute ≤ ts)
Describes o r l ts in_range_window d = (open_on o d ≤ ts) × (ts < open_on o d + r * minute)
Describes o r l ts in_session d = (open_on o d + r * minute ≤ ts) × (ts < open_on o d + l * minute)
Describes o r l ts after d = open_on o d + l * minute ≤ ts

-- On every day but the first of the calendar, the zone of an instant places it as the
-- documentation of the zones says: before the opening and past the end of the previous session, in
-- the range window, in the rest of the session, or past its end.
pub classify_at-Describes :
    (o r l ts : ℕ)
    → o < day
    → day ≤ ts
    → r < l
    → Describes o r l ts (classify_at o r l ts).zone (classify_at o r l ts).session_id
unfolding classify_at
classify_at-Describes o r l ts p q s = ground arith

-- With sessions of at most a day, every instant of the window of the session opened on day `d`, not
-- the first of the calendar, also past midnight, is classified into that session.
pub classify_at_complete :
    (o r l d ts : ℕ)
    → o < day
    → 1 ≤ d
    → l * minute ≤ day
    → open_on o d ≤ ts
    → ts < open_on o d + l * minute
    → (classify_at o r l ts).session_id ≡ d
unfolding classify_at
classify_at_complete o r l d ts p q s h k = ground arith
