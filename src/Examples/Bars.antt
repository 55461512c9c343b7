-- ===== src/Examples/Bars.antt =====
-- A configuration of the ORB engine, candles, and the engine after a list of them.
use freq_trading.Base.{ℕ, ◌+◌, ◌*◌, true, false, none, some, List, [], ◌∷◌}
use freq_trading.Num.Fixed.{Fixed, num, pos, fixed}
use freq_trading.Models.{OrbConfig, Candle, on_close, rebuild, hold, validate}
use freq_trading.Indicators.{
  new_atr, new_roc, new_vsma, true_range, absorb, update_atr, roc_ready, rate, roc_value,
  update_roc, update_vsma, vsma_ready, vsma_value,
}
use freq_trading.Session.{classify, classify_at, zone_within, day, minute}
use freq_trading.Engine.State.{
  Engine, new, emit_transition, emit_signal, clear_range, build_indicators, warm,
  reset_for_new_session,
}
use freq_trading.Engine.Exit.{
  stop_dist, post_exit_state, rearm_range_at, exit_signal, settle, close_position, exit_position,
  range_reentered, tp_hit, trail_hit, partial_tp, track, ratchet, trail_step, take_profit_exit,
  take_profit_step, breakout_bar, on_breakout,
}
use freq_trading.Engine.Entry.{
  relative_volume, roc_passes, rvol_passes, gate, momentum, breakout_direction, entry_signal,
  target, opened, open_position, judge, check_breakout,
}
use freq_trading.Engine.Step.{
  round_quot, lock_range, maybe_lock, open_range, on_idle, extend_range, build_range, armed_bar,
  on_range_defined, restart_range, abandon_range, rebuild_after_gap, handle_gap_reset,
  feed_indicators, handle, process, new_session, tear_down, gap_resets, check_gap, route, on_candle,
}
use freq_trading.Engine.Runs.{Reach, start, bar}

-- n units of price
abbrev pub units : ℕ → Fixed
units n = num (pos (n * 10000))

abbrev pub config : OrbConfig ⦃fl = fixed⦄
config = record {
  session_open_utc = 0;
  session_len_min = 480;
  range_minutes = 1;
  use_roc = true;
  roc_period = 1;
  roc_min = units 1;
  use_rvol = false;
  rvol_period = 1;
  rvol_min = units 1;
  atr_period = 1;
  atr_mult = units 1;
  stop_max_dist = some (units 4);
  stop_min_dist = none;
  reentry_on = on_close;
  qty = units 1;
  tp_rrr = some (units 2);
  tp_close_frac = units 1;
  allow_long = true;
  allow_short = true;
  one_trade_per_session = true;
  rearm_after_exit = false;
  rearm_range = rebuild;
  expected_bar_sec = 60;
  max_gap_bars = 3;
  on_gap = hold;
  strict_monotonic = true;
  instrument_dp = 2;
}

-- the candle of minute m of the first full day
abbrev pub candle_at : (m o h l c : ℕ) → Candle ⦃fl = fixed⦄
candle_at m o h l c = record {
  ts = record { aware = true; micros = day + m * minute };
  open_price = units o;
  high = units h;
  low = units l;
  close = units c;
  volume = units 1;
}

-- the engine after the candles, the newest first
unfoldable pub after_bars : List (Candle ⦃fl = fixed⦄) → Engine ⦃fl = fixed⦄
unfolding new new_atr new_roc new_vsma true_range absorb update_atr roc_ready rate roc_value
    update_roc update_vsma vsma_ready vsma_value classify classify_at zone_within emit_transition
    emit_signal clear_range build_indicators warm reset_for_new_session stop_dist post_exit_state
    rearm_range_at exit_signal settle close_position exit_position range_reentered tp_hit trail_hit
    partial_tp track ratchet trail_step take_profit_exit take_profit_step breakout_bar on_breakout
    relative_volume roc_passes rvol_passes gate momentum breakout_direction entry_signal target
    opened open_position judge check_breakout round_quot lock_range maybe_lock open_range on_idle
    extend_range build_range armed_bar on_range_defined restart_range abandon_range
    rebuild_after_gap handle_gap_reset feed_indicators handle process new_session tear_down
    gap_resets check_gap route on_candle validate
after_bars [] = new config
after_bars (c ∷ cs) = (on_candle config c (after_bars cs)).1

pub after_bars-Reach : (cs : List (Candle ⦃fl = fixed⦄)) → Reach config (after_bars cs)
unfolding after_bars
after_bars-Reach [] = start
after_bars-Reach (c ∷ cs) = bar (after_bars-Reach cs) c
