-- ===== src/SvpEngine/Config.antt =====
-- `SvpConfig` of orb/svp/config.py. An instant of the day is its microseconds since midnight.
use freq_trading.Base.{
  ℕ, Bool, true, false, if◌then◌else◌, not, ◌&&◌, ◌||◌, List, [], ◌∷◌, ltb, leb,
}
use freq_trading.Num.{Float, zero_float}

pub data TrendMode : Type 0 where
  off by_open by_structure both either : TrendMode

-- every window is (start, end) within the day
abbrev pub valid_windows : List (ℕ × ℕ) → Bool
valid_windows [] = true
valid_windows ((start, end) ∷ ws) = (ltb start end && leb end 1440) && valid_windows ws

module _ ⦃fl : Float⦄ where
  open fl use {Carrier, lit, mul, lt, le}

  pub record SvpConfig : Type 0 where
    pub session_open_utc : ℕ
    pub session_len_min : ℕ
    pub ticks_per_row : ℕ
    pub tick_size : Carrier
    pub value_area_pct : Carrier
    -- `va_tiebreak` is "up"
    pub tiebreak_up : Bool
    pub hvn_frac : Carrier
    pub lvn_frac : Carrier
    pub i_max_peak : Carrier
    pub min_session_bars : ℕ
    pub max_rows_per_bar : ℕ
    pub tpo_fallback : Bool
    pub enable_edge_rotation : Bool
    pub enable_lvn : Bool
    pub enable_absorption_proxy : Bool
    pub stop_buffer_ticks : Carrier
    pub absorb_lookback : ℕ
    pub absorb_vol_mult : Carrier
    pub absorb_body_ticks : Carrier
    pub absorb_wick_mult : Carrier
    pub risk_pct : Carrier
    pub partial_frac : Carrier
    pub partial_at_r : Carrier
    pub max_trades_per_session : ℕ
    pub allow_long : Bool
    pub allow_short : Bool
    pub trend_filter_mode : TrendMode
    pub swing_lookback : ℕ
    pub atr_period : ℕ
    pub atr_stop_mult : Carrier
    pub atr_stop_floor_structural : Bool
    pub breakeven_at_r : Carrier
    pub killzones : List (ℕ × ℕ)
    pub block_open_min : ℕ
    pub block_close_min : ℕ
    pub use_delta_confirmation : Bool
    pub max_consecutive_losses : ℕ
    pub expected_bar_sec : ℕ
    pub max_gap_bars : ℕ
    pub strict_monotonic : Bool
    pub instrument_dp : ℕ

  -- a fraction above zero and at most one
  abbrev pub is_fraction : Carrier → Bool
  is_fraction x = lt zero_float x && le x (lit 1 0)

  -- `__post_init__`: whether it raises nothing
  unfoldable pub check_svp : SvpConfig → Bool
  check_svp k =
      if ltb k.ticks_per_row 1
      then false
      else if le k.tick_size zero_float
      then false
      else if not (is_fraction k.value_area_pct)
      then false
      else if not (is_fraction k.hvn_frac && is_fraction k.lvn_frac)
      then false
      else if le k.i_max_peak (lit 1 0)
      then false
      else if ltb k.min_session_bars 1 || ltb k.max_rows_per_bar 1
      then false
      else if lt k.stop_buffer_ticks zero_float
      then false
      else if ltb k.absorb_lookback 1
      then false
      else if le k.risk_pct zero_float
      then false
      else if not (is_fraction k.partial_frac)
      then false
      else if le k.partial_at_r zero_float
      then false
      else if ltb k.max_trades_per_session 1
      then false
      else if not (k.allow_long || k.allow_short)
      then false
      else if ltb k.swing_lookback 1 || ltb k.atr_period 1
      then false
      else if lt k.atr_stop_mult zero_float || lt k.breakeven_at_r zero_float
      then false
      else if not (valid_windows k.killzones)
      then false
      else if ltb k.session_len_min 2 || ltb k.expected_bar_sec 1
      then false
      else true

  -- `row_size` and `buffer`
  abbrev pub svp_row_size : SvpConfig → Carrier
  svp_row_size k = mul (lit k.ticks_per_row 0) k.tick_size

  abbrev pub buffer : SvpConfig → Carrier
  buffer k = mul k.stop_buffer_ticks k.tick_size
