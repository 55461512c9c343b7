-- ===== src/Models/Bars.antt =====
-- The candle of orb/models.py and its validation.
use freq_trading.Base.{ℕ, Bool, if◌then◌else◌, not, ◌&&◌}
use freq_trading.Num.{Float, max, min, zero_float}
use freq_trading.Models.Enums.{Result, ok, err, candle_error}

-- A `datetime`: whether it has a time zone, and the microseconds since the start of the calendar.
-- Aware ones are in UTC, as the program asks.
pub record Timestamp : Type 0 where
  pub aware : Bool
  pub micros : ℕ

module _ ⦃fl : Float⦄ where
  open fl use {Carrier, lt, is_finite}

  -- One closed bar; `ts` is its opening time.
  pub record Candle : Type 0 where
    pub ts : Timestamp
    pub open_price : Carrier
    pub high : Carrier
    pub low : Carrier
    pub close : Carrier
    pub volume : Carrier

  -- `_finite` of the four prices.
  abbrev pub finite_ohlc : Candle → Bool
  finite_ohlc c = is_finite c.open_price && is_finite c.high && is_finite c.low && is_finite c.close

  -- `validate` raises on the first test that fails.
  unfoldable pub validate : Candle → Result (Unit {0})
  validate c =
      if not c.ts.aware
      then err candle_error
      else if not (finite_ohlc c)
      then err candle_error
      else if not (is_finite c.volume)
      then err candle_error
      else if lt c.volume zero_float
      then err candle_error
      else if lt c.high c.low
      then err candle_error
      else if lt c.high (max c.open_price c.close)
      then err candle_error
      else if lt (min c.open_price c.close) c.low
      then err candle_error
      else ok tt
