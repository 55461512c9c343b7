-- ===== src/Mtf/Defs.antt =====
-- `TimeframeAggregator` of orb/smc/mtf.py. A bucket's key, its day and its starting minute, is
-- given by the instant at which the bucket opens, which names it.
use freq_trading.Base.{
  ℕ, ◌+◌, ◌-◌, ◌*◌, ◌/◌, ◌%◌, Bool, true, false, if◌then◌else◌, not, ◌&&◌, Option, none, some, ltb,
  leb, ◌==◌,
}
use freq_trading.Num.{Float, zero_float, max, min}
use freq_trading.Models.{Candle}
use freq_trading.Session.{day, minute}

-- minutes in a day
abbrev pub day_min : ℕ
day_min = 1440

-- the checks of the constructor
unfoldable pub valid_minutes : ℕ → Bool
valid_minutes m =
    if not (leb 1 m && leb m day_min)
    then false
    else if ltb m day_min && not (day_min % m == 0)
    then false
    else true

-- `_bucket`: the instant at which the bucket of an instant opens
unfoldable pub bucket : (minutes ts : ℕ) → ℕ
bucket minutes ts =
    let d = ts / day in
    let mins = ts % day / minute in
    if minutes == day_min then d * day else d * day + (mins - mins % minutes) * minute

module _ ⦃fl : Float⦄ where
  open fl use {Carrier, add}

  -- the running scalars; the key is missing before the first bar
  pub record TimeframeAggregator : Type 0 where
    pub minutes : ℕ
    pub key : Option ℕ
    pub o : Carrier
    pub h : Carrier
    pub l : Carrier
    pub c : Carrier
    pub v : Carrier

  unfoldable pub new_aggregator : ℕ → Option TimeframeAggregator
  new_aggregator m =
      if valid_minutes m
      then some (record {
        minutes = m;
        key = none;
        o = zero_float;
        h = zero_float;
        l = zero_float;
        c = zero_float;
        v = zero_float;
      })
      else none

  -- `_start`
  unfoldable pub start_bucket : ℕ → Candle → TimeframeAggregator → TimeframeAggregator
  start_bucket k c a = record a {
    key = some k;
    o = c.open_price;
    h = c.high;
    l = c.low;
    c = c.close;
    v = c.volume;
  }

  -- `_snapshot`, of the bucket that opened at the instant
  unfoldable pub snapshot : ℕ → TimeframeAggregator → Candle
  snapshot k a = record {
    ts = record { aware = true; micros = k };
    open_price = a.o;
    high = a.h;
    low = a.l;
    close = a.c;
    volume = a.v;
  }

  -- one more bar of the same bucket
  unfoldable pub fold_bar : Candle → TimeframeAggregator → TimeframeAggregator
  fold_bar c a = record a {
    h = max a.h c.high;
    l = min a.l c.low;
    c = c.close;
    v = add a.v c.volume;
  }

  -- `TimeframeAggregator.update`
  unfoldable pub update_aggregator :
      Candle → TimeframeAggregator → Option Candle × TimeframeAggregator
  update_aggregator c a =
      let k = bucket a.minutes c.ts.micros in
      elim a.key [
        | none ↦ (none, start_bucket k c a)
        | some j ↦
            if k == j then (none, fold_bar c a) else (some (snapshot j a), start_bucket k c a)
      ]

  -- `developing`
  unfoldable pub developing : TimeframeAggregator → Option Candle
  developing a = elim a.key [ none ↦ none | some k ↦ some (snapshot k a) ]

  -- `reset`
  unfoldable pub reset_aggregator : TimeframeAggregator → TimeframeAggregator
  reset_aggregator a = record a {
    key = none;
    o = zero_float;
    h = zero_float;
    l = zero_float;
    c = zero_float;
    v = zero_float;
  }
