-- ===== src/Examples/Cycles.antt =====
-- The quarters of a day, with a clock four hours behind.
use freq_trading.Base.{ℕ, ◌-◌, ◌*◌, ◌/◌, ◌%◌, ◌≡◌, refl, some, [], ◌∷◌, arith}
use freq_trading.Num.Fixed.{fixed}
use freq_trading.Models.{Candle}
use freq_trading.Session.Defs.{day, minute}
use freq_trading.Quarters.Defs.{
  LocalTime, day_quarter, m90_quarter, day_cycle_id, m90_cycle_id, new_quarters, update_quarters,
  capture, quarter_of,
}
use freq_trading.Quarters.Opens.{track_quarters, first_open, track_quarters-first_open}
use freq_trading.Examples.Bars.{units, candle_at}

abbrev new_york : ℕ → LocalTime
new_york ts =
    let local = ts - 240 * minute in
    record { date = local / day; hour = local % day / (60 * minute); minute = local / minute % 60 }

-- 18:10 and 19:40, and the night after
abbrev evening : Candle ⦃fl = fixed⦄
evening = candle_at 1330 100 101 99 100

abbrev late : Candle ⦃fl = fixed⦄
late = candle_at 1420 102 103 101 102

abbrev night : Candle ⦃fl = fixed⦄
night = candle_at 1700 105 106 104 105

day_open :
    (track_quarters ⦃fl = fixed⦄ new_york
      (evening ∷ late ∷ night ∷ [])
      (new_quarters ⦃fl = fixed⦄)).day_q2_open
    ≡ some (units 105)
unfolding track_quarters update_quarters capture new_quarters day_quarter m90_quarter quarter_of
    day_cycle_id m90_cycle_id
day_open = refl

track_quarters-first_open_example :
    (track_quarters ⦃fl = fixed⦄ new_york
      (evening ∷ late ∷ night ∷ [])
      (new_quarters ⦃fl = fixed⦄)).day_q2_open
    ≡ first_open ⦃fl = fixed⦄ new_york day_quarter (evening ∷ late ∷ night ∷ [])
unfolding new_quarters day_cycle_id
track_quarters-first_open_example =
    track_quarters-first_open ⦃fl = fixed⦄ new_york 2 evening (late ∷ night ∷ [])
      (new_quarters ⦃fl = fixed⦄) (ground arith) (refl, (refl, (refl, tt)))
