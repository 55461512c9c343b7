-- ===== src/Examples/Orb.antt =====
-- The ORB engine at work.
use freq_trading.Base.{◌+◌, ◌≡◌, refl, true, some, [], ◌∷◌, is_some, if◌then◌else◌}
use freq_trading.Num.Fixed.{fixed}
use freq_trading.Models.{Candle, PositionState, is_breakout, long, breakout, range_defined}
use freq_trading.Engine.Step.{on_candle}
use freq_trading.Engine.Invariant.{documented, entries, exits, IsPath}
use freq_trading.Engine.Runs.{on_candle-documented, entries-eq-exits, transitions-IsPath}
use freq_trading.Engine.Trail.{Keeps}
use freq_trading.Engine.Stops.{on_candle-Keeps}
use freq_trading.Engine.Entries.{IsEntry, on_candle-IsEntry}
use freq_trading.Examples.Bars.{units, config, candle_at, after_bars, after_bars-Reach}

-- a range from 90 to 110, a breakout at 120, and a bar that holds
abbrev opening : Candle ⦃fl = fixed⦄
opening = candle_at 0 100 110 90 100

abbrev surge : Candle ⦃fl = fixed⦄
surge = candle_at 1 100 121 99 120

abbrev climb : Candle ⦃fl = fixed⦄
climb = candle_at 2 120 123 119 122

opening_state : (after_bars (opening ∷ [])).state ≡ range_defined
unfolding after_bars
opening_state = refl

surge_state : (after_bars (surge ∷ opening ∷ [])).state ≡ breakout
unfolding after_bars
surge_state = refl

-- the position that the breakout opens: the stop four below, the target eight above
abbrev long_trade : PositionState ⦃fl = fixed⦄
long_trade = record {
  direction = long;
  entry_ts = surge.ts.micros;
  entry_price = units 120;
  stop = units 116;
  atr_at_entry = units 22;
  tp = some (units 128);
  bars_held = 0;
  mfe = units 0;
  mae = units 0;
}

surge_position : (after_bars (surge ∷ opening ∷ [])).pos ≡ some long_trade
unfolding after_bars
surge_position = refl

on_candle-documented_example :
    documented (on_candle config climb (after_bars (surge ∷ opening ∷ []))).0 ≡ true
on_candle-documented_example =
    on_candle-documented config climb (after_bars-Reach (surge ∷ opening ∷ []))

entries-eq-exits_example :
    let e = after_bars (surge ∷ opening ∷ []) in
    (is_some e.pos ≡ is_breakout e.state)
    × (entries e.emitted ≡ exits e.emitted + (if is_breakout e.state then 1 else 0))
entries-eq-exits_example = entries-eq-exits config (after_bars-Reach (surge ∷ opening ∷ []))

transitions-IsPath_example :
    IsPath (after_bars (surge ∷ opening ∷ [])).emitted (after_bars (surge ∷ opening ∷ [])).state
transitions-IsPath_example = transitions-IsPath config (after_bars-Reach (surge ∷ opening ∷ []))

on_candle-Keeps_example :
    Keeps long_trade (on_candle config climb (after_bars (surge ∷ opening ∷ []))).1.pos
on_candle-Keeps_example =
    on_candle-Keeps config climb long_trade (after_bars-Reach (surge ∷ opening ∷ [])) surge_position
      refl

on_candle-IsEntry_example :
    IsEntry config surge
      (after_bars (opening ∷ []))
      (on_candle config surge (after_bars (opening ∷ []))).1
      long_trade
unfolding after_bars
on_candle-IsEntry_example =
    on_candle-IsEntry config surge (after_bars-Reach (opening ∷ [])) refl surge_position
