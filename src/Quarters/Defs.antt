-- ===== src/Quarters/Defs.antt =====
-- orb/quarters.py. `ny` is the conversion to New York time that the time zone database of the
-- standard library answers: the number of the local date, the hour and the minute.
use freq_trading.Base.{
  ℕ, ◌+◌, ◌*◌, ◌/◌, ◌%◌, Bool, true, false, if◌then◌else◌, Option, none, some, ltb, leb, ◌==◌,
}
use freq_trading.Num.{Float}
use freq_trading.Models.{Candle}

pub record LocalTime : Type 0 where
  pub date : ℕ
  pub hour : ℕ
  pub minute : ℕ

-- the quarters "Q1" to "Q4"
pub data Quarter : Type 0 where
  q1 q2 q3 q4 q_beyond : Quarter

-- `day_quarter`
unfoldable pub day_quarter : LocalTime → Quarter
day_quarter t =
    if leb 18 t.hour then q1 else if ltb t.hour 6 then q2 else if ltb t.hour 12 then q3 else q4

-- the name of the quarter with the number `n + 1`
unfoldable pub quarter_of : ℕ → Quarter
quarter_of n =
    if n == 0
    then q1
    else if n == 1
    then q2
    else if n == 2
    then q3
    else if n == 3
    then q4
    else q_beyond

-- `m90_quarter`
unfoldable pub m90_quarter : LocalTime → Quarter
m90_quarter t = quarter_of ((t.hour % 6 * 60 + t.minute) / 90)

-- `_day_cycle_id`: the date on which the day ends
unfoldable pub day_cycle_id : LocalTime → ℕ
day_cycle_id t = if leb 18 t.hour then t.date + 1 else t.date

-- `_m90_cycle_id`: the date and the hour of the session's start, as the hours since the first date
unfoldable pub m90_cycle_id : LocalTime → ℕ
m90_cycle_id t = t.date * 24 + t.hour / 6 * 6

-- `quarter in ("Q2", "Q3", "Q4")`
abbrev pub past_first : Quarter → Bool
past_first q2 = true
past_first q3 = true
past_first q4 = true
past_first _ = false

module _ ⦃fl : Float⦄ where
  open fl use {Carrier, lt}

  pub record QuarterTracker : Type 0 where
    pub day_id : Option ℕ
    pub day_q2_open : Option Carrier
    pub m90_id : Option ℕ
    pub m90_q2_open : Option Carrier

  unfoldable pub new_quarters : QuarterTracker
  new_quarters = record { day_id = none; day_q2_open = none; m90_id = none; m90_q2_open = none }

  abbrev pub same_cycle : ℕ → Option ℕ → Bool
  same_cycle k none = false
  same_cycle k (some j) = k == j

  -- the open of a cycle: forgotten where the cycle is new, and captured once past its first quarter
  unfoldable pub capture : (same past : Bool) → Carrier → Option Carrier → Option Carrier
  capture false past o ref = if past then some o else none
  capture true past o none = if past then some o else none
  capture true past o (some x) = some x

  -- `QuarterTracker.update`
  unfoldable pub update_quarters : (ℕ → LocalTime) → Candle → QuarterTracker → QuarterTracker
  update_quarters ny c s =
      let t = ny c.ts.micros in
      record {
        day_id = some (day_cycle_id t);
        day_q2_open =
            capture (same_cycle (day_cycle_id t) s.day_id) (past_first (day_quarter t)) c.open_price
              s.day_q2_open;
        m90_id = some (m90_cycle_id t);
        m90_q2_open =
            capture (same_cycle (m90_cycle_id t) s.m90_id) (past_first (m90_quarter t)) c.open_price
              s.m90_q2_open;
      }

  pub data ValueZone : Type 0 where
    premium discount : ValueZone

  -- `value_zone`; the flag tells the cycle
  unfoldable pub value_zone : Carrier → Bool → QuarterTracker → Option ValueZone
  value_zone close of_day s = elim (if of_day then s.day_q2_open else s.m90_q2_open) [
    | none ↦ none
    | some ref ↦ some (if lt ref close then premium else discount)
  ]
