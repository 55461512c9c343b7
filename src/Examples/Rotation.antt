-- ===== src/Examples/Rotation.antt =====
-- The strategy on the session volume profile, at a bar that fades the upper edge of the value area.
use freq_trading.Base.{◌+◌, ◌≤◌, ◌≡◌, refl, true, false, if◌then◌else◌, none, some, [], is_some}
use freq_trading.Num.Fixed.{fixed}
use freq_trading.Models.{is_breakout, Candle, range_defined, breakout}
use freq_trading.Profile.Nodes.{ProfileLevels, balanced}
use freq_trading.SvpEngine.Config.{SvpConfig, off, check_svp}
use freq_trading.SvpEngine.State.{SvpEngine, new, session_profile, emit_transition, emit_signal}
use freq_trading.SvpEngine.Filters.{
  entry_allowed, in_blackout, trend_ok, trend_allows, delta_confirms,
}
use freq_trading.SvpEngine.Setups.{detect_setup, edge_rotation, fade_edge, enter_setup, open_setup}
use freq_trading.SvpEngine.Step.{on_armed}
use freq_trading.SvpEngine.Outcomes.{Enters, on_armed-Enters}
use freq_trading.SvpEngine.Step.{on_candle}
use freq_trading.Engine.Invariant.{entries, exits}
use freq_trading.SvpEngine.Invariant.{entries_since}
use freq_trading.SvpEngine.Runs.{start, bar, Reach-IsConsistent}
use freq_trading.Examples.Volumes.{floor_fixed, of_row}
use freq_trading.Examples.Bars.{units, candle_at}

abbrev rotation : SvpConfig ⦃fl = fixed⦄
rotation = record {
  session_open_utc = 0;
  session_len_min = 1440;
  ticks_per_row = 10;
  tick_size = fixed.lit 1 2;
  value_area_pct = fixed.lit 70 2;
  tiebreak_up = true;
  hvn_frac = fixed.lit 70 2;
  lvn_frac = fixed.lit 30 2;
  i_max_peak = fixed.lit 15 1;
  min_session_bars = 20;
  max_rows_per_bar = 5000;
  tpo_fallback = false;
  enable_edge_rotation = true;
  enable_lvn = false;
  enable_absorption_proxy = false;
  stop_buffer_ticks = units 50;
  absorb_lookback = 20;
  absorb_vol_mult = units 2;
  absorb_body_ticks = units 20;
  absorb_wick_mult = units 2;
  risk_pct = units 1;
  partial_frac = fixed.lit 5 1;
  partial_at_r = units 1;
  max_trades_per_session = 2;
  allow_long = true;
  allow_short = true;
  trend_filter_mode = off;
  swing_lookback = 2;
  atr_period = 14;
  atr_stop_mult = units 0;
  atr_stop_floor_structural = true;
  breakeven_at_r = units 0;
  killzones = [];
  block_open_min = 0;
  block_close_min = 0;
  use_delta_confirmation = false;
  max_consecutive_losses = 0;
  expected_bar_sec = 60;
  max_gap_bars = 5;
  strict_monotonic = true;
  instrument_dp = 2;
}

rotation_valid : check_svp ⦃fl = fixed⦄ rotation ≡ true
unfolding check_svp
rotation_valid = refl

abbrev area : ProfileLevels ⦃fl = fixed⦄
area = record {
  poc = units 100;
  vah = units 102;
  val = units 98;
  hvns = [];
  lvns = [];
  shape = balanced;
  total_volume = units 500;
}

-- it pierces the upper edge and closes inside
abbrev tag : Candle ⦃fl = fixed⦄
tag = candle_at 30 101 103 99 101

abbrev armed : SvpEngine ⦃fl = fixed⦄
unfolding new session_profile
armed = record (new ⦃fl = fixed⦄ rotation) { state = range_defined }

fades : (on_armed ⦃fl = fixed⦄ rotation tag none (some area) none armed).1.state ≡ breakout
unfolding on_armed detect_setup edge_rotation fade_edge enter_setup entry_allowed in_blackout
    trend_ok trend_allows delta_confirms open_setup emit_transition emit_signal new
fades = refl

on_armed-Enters_example :
    Enters ⦃fl = fixed⦄ rotation tag none
      (some area)
      none
      armed
      (on_armed ⦃fl = fixed⦄ rotation tag none (some area) none armed)
on_armed-Enters_example = on_armed-Enters ⦃fl = fixed⦄ rotation tag none (some area) none armed

Reach-IsConsistent_example :
    let e =
      (on_candle ⦃fl = fixed⦄ rotation floor_fixed of_row units tag
        (new ⦃fl = fixed⦄ rotation)).1 in
    (is_some e.position ≡ is_breakout e.state)
    × (entries ⦃fl = fixed⦄ e.emitted
        ≡ exits ⦃fl = fixed⦄ e.emitted + (if is_breakout e.state then 1 else 0))
    × (entries_since ⦃fl = fixed⦄ e.emitted ≤ 2)
Reach-IsConsistent_example =
    Reach-IsConsistent ⦃fl = fixed⦄ rotation floor_fixed of_row units (bar start tag)
