-- ===== src/Examples/Ladders.antt =====
-- The ladder, the execution guards, the lot and the SMC configuration at work.
use freq_trading.Base.{
  ℕ, ◌+◌, ◌*◌, ◌≤◌, ◌<◌, ◌≡◌, ◌⊎◌, refl, true, false, Option, none, List, [], ◌∷◌, arith,
}
use freq_trading.Num.{zero_float}
use freq_trading.Num.Fixed.{Fixed, fixed}
use freq_trading.Models.{Candle}
use freq_trading.Session.Defs.{day, minute}
use freq_trading.Babysitter.Defs.{BrokerPosition}
use freq_trading.Babysitter.Tickets.{partials}
use freq_trading.Ladder.Defs.{
  LadderExitManager, LadderState, valid_ladder, snap_down, new_state, state_of, r_at, fill_rung,
  rung_step, rungs, staged_sl, stage1_level, stage2_level, accepts, stage_stop, final_close,
  step_trade, ladder_all, ladder_on_bar,
}
use freq_trading.Ladder.Trades.{updates}
use freq_trading.Ladder.Lifetime.{ladder_on_bars, partials-le-length, updates_le_two}
use freq_trading.Ladder.Distances.{AllPositive, ladder_on_bars-AllPositive}
use freq_trading.Ladder.Stops.{StopsFit, ladder_on_bar-StopsFit}
use freq_trading.ExecGuard.Defs.{Token, windows_of, session_allows, minute_of_day}
use freq_trading.ExecGuard.Windows.{on_some_arc, session_allows-eq-on_some_arc}
use freq_trading.Smc.Config.{SmcConfig, check_levels, check_exits, check_smc, ladder_of}
use freq_trading.Smc.Levels.{Ascends, check_smc-Ascends}
use freq_trading.Svp.Sizing.{compute_lot, IsTradable, compute_lot-IsTradable}
use freq_trading.Svp.Swings.{SwingStructure}
use freq_trading.Examples.Bars.{units, candle_at}

abbrev ladder : LadderExitManager ⦃fl = fixed⦄
ladder = record {
  partial_levels = (units 5, fixed.lit 4 1) ∷ (units 7, fixed.lit 3 1) ∷ [];
  final_tp_r = units 10;
  stage1_at_r = units 1;
  stage2_at_r = units 2;
  stage2_min_lock_r = units 1;
  stage2_buffer = units 1;
  comm_per_lot = units 7;
  value_per_move = units 100;
  spread = fixed.lit 1 1;
  vol_min = fixed.lit 1 2;
  vol_step = fixed.lit 1 2;
  default_d = units 2;
}

-- a long of one lot from 100 with its stop at 98
abbrev holding : BrokerPosition ⦃fl = fixed⦄
holding = record {
  ticket = 5;
  position_type = 0;
  volume = units 1;
  price_open = units 100;
  sl = units 98;
}

abbrev empty : LadderState ⦃fl = fixed⦄
empty = record { trades = []; prev_candle = none }

-- half a rung, then past the first rung
abbrev life : List (Option (ℕ → Fixed) × List (BrokerPosition ⦃fl = fixed⦄) × Candle ⦃fl = fixed⦄)
life =
    (none, holding ∷ [], candle_at 1 100 103 100 103)
    ∷ (none, holding ∷ [], candle_at 2 103 112 103 111)
    ∷ []

first_rung : partials ⦃fl = fixed⦄ 5 (ladder_on_bars ⦃fl = fixed⦄ ladder life empty).1 ≡ 1
unfolding ladder_on_bars ladder_on_bar ladder_all step_trade state_of new_state r_at rungs rung_step
    fill_rung snap_down final_close stage_stop staged_sl stage1_level stage2_level accepts
first_rung = refl

partials-le-length_example :
    partials ⦃fl = fixed⦄ 5 (ladder_on_bars ⦃fl = fixed⦄ ladder life empty).1 + 0 ≤ 2
unfolding ladder_on_bars ladder_on_bar ladder_all step_trade state_of new_state r_at rungs rung_step
    fill_rung snap_down final_close stage_stop staged_sl stage1_level stage2_level accepts
partials-le-length_example =
    partials-le-length ⦃fl = fixed⦄ ladder 5 life empty (refl, refl, (refl, refl, tt))

updates_le_two_example :
    updates ⦃fl = fixed⦄ 5 (ladder_on_bars ⦃fl = fixed⦄ ladder life empty).1 + 0 ≤ 2
unfolding ladder_on_bars ladder_on_bar ladder_all step_trade state_of new_state r_at rungs rung_step
    fill_rung snap_down final_close stage_stop staged_sl stage1_level stage2_level accepts
updates_le_two_example =
    updates_le_two ⦃fl = fixed⦄ ladder 5 life empty (refl, refl, (refl, refl, tt))

ladder_on_bar-StopsFit_example :
    StopsFit ⦃fl = fixed⦄
      (units 103)
      (holding ∷ [])
      (ladder_on_bar ⦃fl = fixed⦄ ladder none (holding ∷ []) (candle_at 1 100 103 100 103) empty).1
ladder_on_bar-StopsFit_example =
    ladder_on_bar-StopsFit ⦃fl = fixed⦄ ladder none (holding ∷ []) (candle_at 1 100 103 100 103)
      empty

ladder_on_bars-AllPositive_example :
    AllPositive ⦃fl = fixed⦄
      (ladder_on_bars ⦃fl = fixed⦄ ladder
        ((none, holding ∷ [], candle_at 1 100 103 100 103) ∷ [])
        empty).0.trades
unfolding valid_ladder
ladder_on_bars-AllPositive_example =
    ladder_on_bars-AllPositive ⦃fl = fixed⦄ ladder
      ((none, holding ∷ [], candle_at 1 100 103 100 103) ∷ []) refl

-- "22:00-02:00"
abbrev night : List Token
night = record { h1 = 22; m1 = 0; h2 = 2; m2 = 0 } ∷ []

session_allows-eq-on_some_arc_example :
    session_allows ((1320, 120) ∷ []) (day + 30 * minute)
    ≡ on_some_arc (minute_of_day (day + 30 * minute)) ((1320, 120) ∷ [])
unfolding windows_of
session_allows-eq-on_some_arc_example =
    session_allows-eq-on_some_arc night {w = (1320, 120)} {ws = []} (day + 30 * minute)
      (omega arith, omega arith, omega arith, omega arith, tt) refl

abbrev pub smc : SmcConfig ⦃fl = fixed⦄
smc = record {
  trigger_tf_min = 30;
  htf_min = 240;
  d1_min = 1440;
  swing_lookback = 2;
  max_swings = 50;
  disp_body_frac = fixed.lit 5 1;
  disp_atr_mult = fixed.lit 12 1;
  ob_confirm_bars = 10;
  max_blocks = 20;
  ob_expiry_bars = 180;
  atr_period = 14;
  poc_tol = units 2;
  ticks_per_row = 100;
  tick_size = fixed.lit 1 2;
  min_profile_bars = 60;
  min_confluences = 3;
  vol_mult = fixed.lit 15 1;
  vol_sma_period = 20;
  risk_pct = units 2;
  stop_buffer = fixed.lit 5 1;
  stop_max_dist = units 15;
  max_trades_per_day = 2;
  partial_levels = (units 5, fixed.lit 4 1) ∷ (units 7, fixed.lit 3 1) ∷ [];
  final_tp_r = units 10;
  stage1_at_r = units 1;
  stage2_at_r = units 2;
  stage2_min_lock_r = units 1;
  comm_per_lot = units 7;
  strict_monotonic = true;
  instrument_dp = 2;
}

check_smc-Ascends_example :
    Ascends ⦃fl = fixed⦄ (zero_float ⦃fl = fixed⦄) smc.partial_levels smc.final_tp_r
    × (30 < 240)
    × (240 < 1440)
    × (valid_ladder ⦃fl = fixed⦄
          (ladder_of ⦃fl = fixed⦄ smc (units 100) (fixed.lit 1 2) (fixed.lit 1 2))
        ≡ true)
unfolding check_smc check_levels check_exits
check_smc-Ascends_example =
    check_smc-Ascends ⦃fl = fixed⦄ smc (units 100) (fixed.lit 1 2) (fixed.lit 1 2) refl refl refl
      refl refl

compute_lot-IsTradable_example :
    let lot =
      compute_lot ⦃fl = fixed⦄
        (units 1000)
        (units 1)
        (units 100)
        (units 98)
        (units 5)
        (fixed.lit 1 2)
        (fixed.lit 1 2)
        (units 10)
        none in
    (lot ≡ zero_float ⦃fl = fixed⦄)
    ⊎ (IsTradable ⦃fl = fixed⦄ (fixed.lit 1 2) (units 10) lot
        × (fixed.le (units 2) (units 0) ≡ false)
        × (fixed.le (units 5) (units 0) ≡ false)
        × (fixed.le (units 1000) (units 0) ≡ false)
        × (fixed.le (units 1) (units 0) ≡ false)
        × (false ≡ false))
compute_lot-IsTradable_example =
    compute_lot-IsTradable ⦃fl = fixed⦄ (units 1000) (units 1) (units 100) (units 98) (units 5)
      (fixed.lit 1 2) (fixed.lit 1 2) (units 10) none refl

abbrev swings : SwingStructure ⦃fl = fixed⦄
swings = record {
  lookback = 1;
  highs = units 10 ∷ units 12 ∷ [];
  lows = units 8 ∷ units 9 ∷ [];
  swing_highs = [];
  swing_lows = [];
}
