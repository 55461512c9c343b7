-- ===== src/Examples/Blocks.antt =====
-- The order blocks at work.
use freq_trading.Base.{◌≡◌, refl, false, some, [], ◌∷◌}
use freq_trading.Num.Fixed.{fixed}
use freq_trading.Models.{long}
use freq_trading.Indicators.{new_atr}
use freq_trading.Structure.Defs.{StructureEvent, bos}
use freq_trading.Smc.Blocks.{
  OrderBlock, OrderBlockTracker, update_blocks, new_blocks, poi_at, consume, qualifies,
}
use freq_trading.Smc.Poi.{open_count, TakenFrom, poi_at-Takes}
use freq_trading.Smc.Tidy.{IsTidy, start, bar, Reach-IsTidy}
use freq_trading.Examples.Bars.{units, candle_at}

abbrev zone : OrderBlock ⦃fl = fixed⦄
zone = record {
  ts = 3;
  direction = long;
  top = units 100;
  bottom = units 98;
  mitigated = false;
  born_bar = 4;
}

abbrev tracker : OrderBlockTracker ⦃fl = fixed⦄
tracker = record {
  disp_body_frac = fixed.lit 5 1;
  disp_atr_mult = fixed.lit 12 1;
  confirm_bars = 10;
  max_blocks = 20;
  expiry_bars = 180;
  atr_period = 14;
  atr = new_atr ⦃fl = fixed⦄ 14;
  recent = [];
  bar = 5;
  pending_long = zone ∷ [];
  pending_short = [];
  active_long = zone ∷ zone ∷ [];
  active_short = [];
}

taken :
    open_count ⦃fl = fixed⦄ (poi_at ⦃fl = fixed⦄ (units 99) (units 101) long tracker).1.active_long
    ≡ 1
unfolding poi_at consume qualifies
taken = refl

poi_at-Takes_example :
    TakenFrom ⦃fl = fixed⦄
      (units 99)
      (units 101)
      long
      tracker
      (poi_at ⦃fl = fixed⦄ (units 99) (units 101) long tracker)
poi_at-Takes_example = poi_at-Takes ⦃fl = fixed⦄ (units 99) (units 101) long tracker

abbrev upward : StructureEvent ⦃fl = fixed⦄
upward = record { ts = 6; kind = bos; direction = long; level = units 105 }

abbrev first : OrderBlockTracker ⦃fl = fixed⦄
first = record {
  disp_body_frac = fixed.lit 5 1;
  disp_atr_mult = fixed.lit 12 1;
  confirm_bars = 10;
  max_blocks = 20;
  expiry_bars = 180;
  atr_period = 14;
  atr = new_atr ⦃fl = fixed⦄ 14;
  recent = [];
  bar = 0;
  pending_long = [];
  pending_short = [];
  active_long = [];
  active_short = [];
}

first-eq : new_blocks ⦃fl = fixed⦄ (fixed.lit 5 1) (fixed.lit 12 1) 10 20 180 14 ≡ some first
unfolding new_blocks new_atr
first-eq = refl

Reach-IsTidy_example :
    IsTidy ⦃fl = fixed⦄
      (update_blocks ⦃fl = fixed⦄ (candle_at 6 101 108 101 107) (some upward) first).1
Reach-IsTidy_example =
    Reach-IsTidy ⦃fl = fixed⦄ (fixed.lit 5 1) (fixed.lit 12 1) 10 20 180 14
      (bar (start first-eq) (candle_at 6 101 108 101 107) (some upward))
