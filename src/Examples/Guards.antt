-- ===== src/Examples/Guards.antt =====
-- The guards and the babysitter at work, on fixed-point numbers.
use freq_trading.Base.{◌+◌, ◌≤◌, ◌≡◌, refl, true, false, none, some, [], ◌∷◌, ◌++◌, arith, map}
use freq_trading.Num.Fixed.{Fixed, num, negsuc, fixed}
use freq_trading.RiskGuard.Defs.{DailyLossBreaker, ConsecutiveLossGuard, SpikeCancel, cap_for}
use freq_trading.RiskGuard.Breaker.{watch, reaches, watch-halted_exactly}
use freq_trading.RiskGuard.Spikes.{observe_bars, range_of, observe_bars-window}
use freq_trading.Indicators.Windows.{last_of}
use freq_trading.Babysitter.Defs.{BrokerPosition, TradeState, Settings, get, on_bar}
use freq_trading.Babysitter.Tickets.{
  partials, distance_of, on_bars, partials-le-one, on_bars-distance,
}
use freq_trading.Babysitter.Stops.{AllFit, on_bar-AllFit}
use freq_trading.Examples.Bars.{units}

-- halted yesterday, with a cap of a tenth of the balance
abbrev breaker : DailyLossBreaker ⦃fl = fixed⦄
breaker = record {
  max_daily_loss = none;
  max_daily_loss_pct = some (units 10);
  day = some 6;
  day_start = units 90;
  day_cap = units 9;
  delta = units 0;
  halted = true;
}

watch-halted_exactly_example :
    (watch ⦃fl = fixed⦄ 7 (units 100 ∷ units 95 ∷ units 89 ∷ units 99 ∷ []) breaker).halted
    ≡ reaches ⦃fl = fixed⦄
        (cap_for ⦃fl = fixed⦄ breaker.max_daily_loss breaker.max_daily_loss_pct (units 100))
        (units 100)
        (units 100 ∷ units 95 ∷ units 89 ∷ units 99 ∷ [])
watch-halted_exactly_example =
    watch-halted_exactly ⦃fl = fixed⦄ 7 (units 100) (units 95 ∷ units 89 ∷ units 99 ∷ []) breaker
      refl

abbrev losing : ConsecutiveLossGuard ⦃fl = fixed⦄
losing = record { max_consecutive = 2; period = some 3; streak = 2 }

abbrev loss : Fixed
loss = num (negsuc 9999)

abbrev spikes : SpikeCancel ⦃fl = fixed⦄
spikes = record { ratio = units 3; lookback = 2; min_bars = 1; ranges = units 5 ∷ [] }

observe_bars-window_example :
    (observe_bars ⦃fl = fixed⦄ ((units 4, units 3) ∷ (units 9, units 3) ∷ []) spikes).ranges
    ≡ last_of 2 (
        spikes.ranges ++ map (range_of ⦃fl = fixed⦄) ((units 4, units 3) ∷ (units 9, units 3) ∷ []))
observe_bars-window_example =
    observe_bars-window ⦃fl = fixed⦄ ((units 4, units 3) ∷ (units 9, units 3) ∷ []) spikes
      (omega arith) (omega arith)

abbrev settings : Settings ⦃fl = fixed⦄
settings = record {
  partial_frac = units 1;
  partial_at_r = units 1;
  breakeven_at_r = units 1;
  default_d = units 10;
}

-- a long from 100 with its stop at 90
abbrev position : BrokerPosition ⦃fl = fixed⦄
position = record {
  ticket = 5;
  position_type = 0;
  volume = units 2;
  price_open = units 100;
  sl = units 90;
}

partials-le-one_example :
    partials ⦃fl = fixed⦄ 5
        (on_bars ⦃fl = fixed⦄ settings
          ((position ∷ [], units 112) ∷ (position ∷ [], units 115) ∷ [])
          []).1
      + 0
    ≤ 1
partials-le-one_example =
    partials-le-one ⦃fl = fixed⦄ settings 5
      ((position ∷ [], units 112) ∷ (position ∷ [], units 115) ∷ []) [] (refl, (refl, tt))

abbrev known : TradeState ⦃fl = fixed⦄
known = record { d = units 7; partial_done = false }

on_bars-distance_example :
    distance_of ⦃fl = fixed⦄ (
      get 5
        (on_bars ⦃fl = fixed⦄ settings
          ((position ∷ [], units 112) ∷ (position ∷ [], units 115) ∷ [])
          ((5, known) ∷ [])).0)
    ≡ some (units 7)
on_bars-distance_example =
    on_bars-distance ⦃fl = fixed⦄ settings 5
      ((position ∷ [], units 112) ∷ (position ∷ [], units 115) ∷ []) ((5, known) ∷ [])
      (refl, (refl, tt)) refl

on_bar-AllFit_example :
    AllFit ⦃fl = fixed⦄ settings
      (position ∷ [])
      (on_bar ⦃fl = fixed⦄ settings (position ∷ []) (units 112) []).1
on_bar-AllFit_example = on_bar-AllFit ⦃fl = fixed⦄ settings (position ∷ []) (units 112) []
