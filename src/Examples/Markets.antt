-- ===== src/Examples/Markets.antt =====
-- The session clock, the indicators, the structure tracker and the aggregator at work.
use freq_trading.Base.{◌+◌, ◌*◌, ◌≡◌, refl, none, some, [], ◌∷◌, arith, leb}
use freq_trading.Num.Fixed.{fixed}
use freq_trading.Models.{Candle, ok, long}
use freq_trading.Session.Defs.{day, minute, classify_at}
use freq_trading.Session.Zones.{Describes, classify_at-Describes, classify_at_complete}
use freq_trading.Indicators.Defs.{WilderAtr, Roc, new_atr, atr_ready}
use freq_trading.Indicators.Atr.{update_all, atr_ready_after}
use freq_trading.Structure.Defs.{StructureTracker, confirm}
use freq_trading.Structure.Swings.{Confirms, confirm-IsSwing}
use freq_trading.Mtf.Defs.{TimeframeAggregator, bucket, update_aggregator, developing}
use freq_trading.Mtf.Fold.{feed_bars, folded, completed_bucket}
use freq_trading.Examples.Bars.{units, candle_at}

abbrev bar : Candle ⦃fl = fixed⦄
bar = candle_at 1 100 110 90 105

classify_at-Describes_example :
    Describes
      (23 * (60 * minute))
      15
      480
      (2 * day + 30 * minute)
      (classify_at (23 * (60 * minute)) 15 480 (2 * day + 30 * minute)).zone
      (classify_at (23 * (60 * minute)) 15 480 (2 * day + 30 * minute)).session_id
classify_at-Describes_example =
    classify_at-Describes (23 * (60 * minute)) 15 480 (2 * day + 30 * minute) (omega arith)
      (omega arith) (omega arith)

classify_at_complete_example :
    (classify_at (23 * (60 * minute)) 15 480 (3 * day + 60 * minute)).session_id ≡ 2
classify_at_complete_example =
    classify_at_complete (23 * (60 * minute)) 15 480 2 (3 * day + 60 * minute) (omega arith)
      (omega arith) (omega arith) (omega arith) (omega arith)

atr_ready_after_example :
    (w : WilderAtr ⦃fl = fixed⦄) × (update_all ⦃fl = fixed⦄
        (bar ∷ bar ∷ [])
        (new_atr ⦃fl = fixed⦄ 2)
      ≡ ok w)
    × (atr_ready ⦃fl = fixed⦄ w ≡ leb 2 2)
atr_ready_after_example =
    atr_ready_after ⦃fl = fixed⦄ 2 (bar ∷ bar ∷ []) (omega arith) (refl, (refl, tt))

abbrev rising : Roc ⦃fl = fixed⦄
rising = record { period = 1; closes = units 100 ∷ units 105 ∷ [] }

-- a tracker in an uptrend, with a swing high at 104 to break
abbrev tracker : StructureTracker ⦃fl = fixed⦄
tracker = record {
  lookback = 1;
  max_swings = 3;
  window =
      record { ts = 1; high = units 102; low = units 99 }
      ∷ record { ts = 2; high = units 120; low = units 95 }
      ∷ [];
  highs = [];
  lows = [];
  ref_high = some (record { ts = 0; price = units 104 });
  ref_low = none;
  trend = some long;
}

confirm-IsSwing_example : Confirms ⦃fl = fixed⦄ bar tracker (confirm ⦃fl = fixed⦄ bar tracker)
confirm-IsSwing_example = confirm-IsSwing ⦃fl = fixed⦄ bar tracker

abbrev fresh : TimeframeAggregator ⦃fl = fixed⦄
fresh = record {
  minutes = 5;
  key = none;
  o = units 0;
  h = units 0;
  l = units 0;
  c = units 0;
  v = units 0;
}

abbrev later : Candle ⦃fl = fixed⦄
later = candle_at 7 105 115 101 108

completed_bucket_example :
    (developing ⦃fl = fixed⦄ (feed_bars ⦃fl = fixed⦄ (bar ∷ bar ∷ []) fresh)
      ≡ some (folded ⦃fl = fixed⦄ day bar (bar ∷ [])))
    × ((update_aggregator ⦃fl = fixed⦄ later (feed_bars ⦃fl = fixed⦄ (bar ∷ bar ∷ []) fresh)).0
        ≡ some (folded ⦃fl = fixed⦄ day bar (bar ∷ [])))
unfolding bucket
completed_bucket_example =
    completed_bucket ⦃fl = fixed⦄ day bar (bar ∷ []) later fresh (ground arith) (refl, (refl, tt))
      (ground arith)
