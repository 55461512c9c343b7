-- ===== src/Models/Sanity.antt =====
-- What a candle that passes `validate`, and a configuration that passes its checks, satisfy.
use freq_trading.Base.{◌+◌, ◌≤◌, ◌<◌, ◌≡◌, ◌⊎◌, true, false, arith, if◌then◌else◌}
use freq_trading.Num.{Float, max, min}
use freq_trading.Num.Order.{le-max_left, le-max_right, min-le_left, min-le_right}
use freq_trading.Models.Enums.{ok, err, candle_error}
use freq_trading.Models.Bars.{Candle, validate, finite_ohlc}
use freq_trading.Models.Config.{OrbConfig, check_config, warmup_bars}

module _ ⦃fl : Float⦄ where
  open fl use {Carrier, lt, le, is_finite, le_of_not_lt, le_trans}

  -- The exact conditions under which a candle is accepted.
  pub record IsAccepted (c : Candle) : Type 0 where
    pub aware : c.ts.aware ≡ true
    pub finite_open : is_finite c.open_price ≡ true
    pub finite_high : is_finite c.high ≡ true
    pub finite_low : is_finite c.low ≡ true
    pub finite_close : is_finite c.close ≡ true
    pub finite_volume : is_finite c.volume ≡ true
    pub high_low : lt c.high c.low ≡ false
    pub high_body : lt c.high (max c.open_price c.close) ≡ false
    pub low_body : lt (min c.open_price c.close) c.low ≡ false

  validate-IsAccepted : (c : Candle) → validate c ≡ ok tt → IsAccepted c
  unfolding validate
  validate-IsAccepted c h = ground arith

  -- A check raises a candle error or passes.
  pub validate_cases : (c : Candle) → (validate c ≡ ok tt) ⊎ (validate c ≡ err candle_error)
  unfolding validate
  validate_cases c = ground arith

  finite-max :
      (a b : Carrier) → is_finite a ≡ true → is_finite b ≡ true → is_finite (max a b) ≡ true
  finite-max a b h k = ground arith

  finite-min :
      (a b : Carrier) → is_finite a ≡ true → is_finite b ≡ true → is_finite (min a b) ≡ true
  finite-min a b h k = ground arith

  -- A candle that passes validation has finite prices, and its open and its close both lie between
  -- its low and its high.
  validate_bounds :
      (c : Candle)
      → validate c ≡ ok tt
      → (finite_ohlc c ≡ true)
        × (le c.low c.open_price ≡ true)
        × (le c.open_price c.high ≡ true)
        × (le c.low c.close ≡ true)
        × (le c.close c.high ≡ true)
  validate_bounds c h =
      let v = validate-IsAccepted c h in
      let o = v.finite_open in
      let k = v.finite_close in
      let body_low : le c.low (min c.open_price c.close) ≡ true =
        le_of_not_lt _ _ (finite-min _ _ o k) v.finite_low v.low_body in
      let body_high : le (max c.open_price c.close) c.high ≡ true =
        le_of_not_lt _ _ v.finite_high (finite-max _ _ o k) v.high_body in
      (
        ground arith,
        le_trans _ _ _ body_low (min-le_left _ _ o),
        le_trans _ _ _ (le-max_left _ _ o) body_high,
        le_trans _ _ _ body_low (min-le_right _ _ o k),
        le_trans _ _ _ (le-max_right _ _ o k) body_high,
      )

  check_config_counts :
      (k : OrbConfig)
      → check_config k ≡ ok tt
      → (1 ≤ k.range_minutes) × (1 ≤ k.atr_period) × (k.range_minutes < k.session_len_min)
  unfolding check_config
  check_config_counts k h = ground arith

  warmup_bars_bounds :
      (k : OrbConfig)
      → (k.range_minutes ≤ warmup_bars k)
        × (k.atr_period + 1 ≤ warmup_bars k)
        × ((if k.use_roc then k.roc_period + 1 else 0) ≤ warmup_bars k)
        × ((if k.use_rvol then k.rvol_period else 0) ≤ warmup_bars k)
  unfolding warmup_bars
  warmup_bars_bounds k = ground arith

  -- A configuration that passes its checks has a warmup that covers the range and every enabled
  -- indicator, and the engine has at least one bar after the range in its session.
  check_config_warmup :
      (k : OrbConfig)
      → check_config k ≡ ok tt
      → (k.range_minutes ≤ warmup_bars k)
        × (k.atr_period + 1 ≤ warmup_bars k)
        × ((if k.use_roc then k.roc_period + 1 else 0) ≤ warmup_bars k)
        × ((if k.use_rvol then k.rvol_period else 0) ≤ warmup_bars k)
        × (1 < warmup_bars k)
        × (k.range_minutes < k.session_len_min)
  check_config_warmup k h =
      let (r, a, roc, rvol) = warmup_bars_bounds k in
      let (one, atr, fits) = check_config_counts k h in (r, a, roc, rvol, omega arith, fits)
