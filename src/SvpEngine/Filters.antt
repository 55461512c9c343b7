-- ===== src/SvpEngine/Filters.antt =====
-- The filters and the stop of an entry of `SvpEngine`. None of them changes the engine.
use freq_trading.Base.{
  ℕ, ◌-◌, ◌/◌, ◌%◌, Bool, true, false, if◌then◌else◌, not, ◌&&◌, ◌||◌, Option, none, some, List, [],
  ◌∷◌, ltb, leb,
}
use freq_trading.Num.{Float, zero_float, max, min}
use freq_trading.Models.{Candle, Direction, long, short}
use freq_trading.Indicators.{vsma_value}
use freq_trading.Session.{day, minute, open_on}
use freq_trading.Svp.Swings.{bias}
use freq_trading.SvpEngine.Config.{SvpConfig, TrendMode, off, by_open, by_structure, both, either}
use freq_trading.SvpEngine.State.{SvpEngine, SvpPrior}

-- the last instant, not after the bar, at which a session opened
abbrev pub open_before : (open_utc ts : ℕ) → ℕ
open_before open_utc ts =
    let today_open = open_on open_utc (ts / day) in
    if ltb ts today_open then today_open - day else today_open

-- the minute of the day
abbrev pub minute_of : ℕ → ℕ
minute_of ts = (ts % day) / minute

-- some window holds the minute
abbrev pub in_some : List (ℕ × ℕ) → ℕ → Bool
in_some [] m = false
in_some ((start, end) ∷ ws) m = (leb start m && ltb m end) || in_some ws m

abbrev pub is_empty : List (ℕ × ℕ) → Bool
is_empty [] = true
is_empty (_ ∷ _) = false

-- `a is direction`
abbrev pub is_direction : Option Direction → Direction → Bool
is_direction (some long) long = true
is_direction (some short) short = true
is_direction _ _ = false

-- `_trend_ok` of the two conditions
unfoldable pub trend_allows : TrendMode → (a b : Option Direction) → Direction → Bool
trend_allows off a b d = true
trend_allows by_open a b d = is_direction a d
trend_allows by_structure a b d = is_direction b d
trend_allows both a b d = is_direction a d && is_direction b d
trend_allows either a b d = is_direction a d || is_direction b d

module _ ⦃fl : Float⦄ where
  open fl use {Carrier, lit, add, sub, mul, quot, lt, le}

  -- the time since the open, in minutes
  abbrev pub mins_since : SvpConfig → ℕ → Carrier
  mins_since k ts = quot (lit (ts - open_before k.session_open_utc ts) 6) (lit 60 0)

  -- `_in_blackout`
  unfoldable pub in_blackout : SvpConfig → ℕ → Bool
  in_blackout k ts =
      if not ((ltb 0 k.block_open_min || ltb 0 k.block_close_min) || not (is_empty k.killzones))
      then false
      else if ltb 0 k.block_open_min && lt (mins_since k ts) (lit k.block_open_min 0)
      then true
      else if ltb 0 k.block_close_min
          && lt (sub (lit k.session_len_min 0) (mins_since k ts)) (lit k.block_close_min 0)
      then true
      else if is_empty k.killzones
      then false
      else not (in_some k.killzones (minute_of ts))

  -- `_bias_open`
  unfoldable pub bias_open : Option SvpPrior → Option Carrier → Option Direction
  bias_open (some prior) (some px) =
      if lt prior.poc px then some long else if lt px prior.poc then some short else none
  bias_open _ _ = none

  -- `_trend_ok`
  unfoldable pub trend_ok : SvpConfig → Direction → SvpEngine → Bool
  unfolding trend_allows bias_open bias
  trend_ok k direction e =
      trend_allows k.trend_filter_mode (bias_open e.prior e.session_open_px) (bias e.swing)
        direction

  -- the volume against its average
  abbrev pub below_average : Carrier → Option Carrier → Bool
  below_average volume none = true
  below_average volume (some avg) = if le avg zero_float then true else lt volume avg

  -- `_delta_confirms`
  unfoldable pub delta_confirms : SvpConfig → Candle → SvpEngine → Bool
  unfolding vsma_value
  delta_confirms k c e =
      if not k.use_delta_confirmation
      then true
      else if le c.volume zero_float
      then true
      else below_average c.volume (vsma_value e.vsma)

  -- `_entry_allowed`
  unfoldable pub entry_allowed : SvpConfig → Candle → Direction → SvpEngine → Bool
  unfolding in_blackout trend_ok delta_confirms
  entry_allowed k c direction e =
      if in_blackout k c.ts.micros
      then false
      else if not (trend_ok k direction e)
      then false
      else if not (delta_confirms k c e)
      then false
      else true

  -- the stop at a distance from the entry, and the wider one of two
  abbrev pub stop_at : Direction → Carrier → Carrier → Carrier
  stop_at long close dist = sub close dist
  stop_at short close dist = add close dist

  abbrev pub wider : Direction → Carrier → Carrier → Carrier
  wider long a b = min a b
  wider short a b = max a b

  -- `_risk_stop` with the value of the ATR
  unfoldable pub risk_stop :
      SvpConfig → Candle → Direction → (structural : Carrier) → Option Carrier → Carrier
  risk_stop k c direction structural none = structural
  risk_stop k c direction structural (some atr) =
      let atr_stop = stop_at direction c.close (mul k.atr_stop_mult atr) in
      if le k.atr_stop_mult zero_float
      then structural
      else if k.atr_stop_floor_structural
      then wider direction atr_stop structural
      else atr_stop
