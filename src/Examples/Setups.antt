-- ===== src/Examples/Setups.antt =====
-- The strategy of smart money concepts on a bar that sweeps the low of the last four hour bar.
use freq_trading.Base.{ℕ, ◌+◌, ◌≡◌, refl, true, false, if◌then◌else◌, none, some, [], is_some}
use freq_trading.Num.Fixed.{fixed}
use freq_trading.Models.{long, is_breakout, Candle}
use freq_trading.Indicators.{new_atr, new_vsma, vsma_value, vsma_ready}
use freq_trading.Structure.Defs.{StructureTracker, swept_low}
use freq_trading.Mtf.Defs.{TimeframeAggregator, new_aggregator, valid_minutes}
use freq_trading.Structure.Defs.{new_tracker}
use freq_trading.Smc.Blocks.{OrderBlockTracker, new_blocks}
use freq_trading.Engine.Invariant.{entries, exits}
use freq_trading.SmcEngine.State.{SmcEngine, Profile, assemble, new, emit_transition, emit_signal}
use freq_trading.SmcEngine.Checks.{
  fired_checks, check_sweep, check_displacement, check_cisd, check_alignment,
  check_premium_discount, htf_bias, veto,
}
use freq_trading.SmcEngine.Entry.{resolve_poi, commit, enter, conclude, confluence, structural_stop}
use freq_trading.SmcEngine.Step.{stand_up, decide, on_decision, on_candle}
use freq_trading.SmcEngine.Invariant.{IsTrace}
use freq_trading.SmcEngine.Runs.{start, bar, Reach-consistent}
use freq_trading.Examples.Bars.{units, candle_at}
use freq_trading.Examples.Ladders.{smc}

-- a profile that counts bars, with its point of control at 100
abbrev flat_profile : Profile ⦃fl = fixed⦄ ℕ
flat_profile = record {
  fresh = λ _. 0;
  update = λ _ n. n + 1;
  ready = λ _. false;
  poc = λ _. some (units 100);
  levels = λ _. none;
}

abbrev hourly : TimeframeAggregator ⦃fl = fixed⦄
hourly = record {
  minutes = 60;
  key = none;
  o = units 0;
  h = units 0;
  l = units 0;
  c = units 0;
  v = units 0;
}

abbrev rising : StructureTracker ⦃fl = fixed⦄
rising = record {
  lookback = 2;
  max_swings = 50;
  window = [];
  highs = [];
  lows = [];
  ref_high = none;
  ref_low = none;
  trend = some long;
}

abbrev no_blocks : OrderBlockTracker ⦃fl = fixed⦄
no_blocks = record {
  disp_body_frac = fixed.lit 5 1;
  disp_atr_mult = fixed.lit 12 1;
  confirm_bars = 10;
  max_blocks = 20;
  expiry_bars = 180;
  atr_period = 14;
  atr = new_atr ⦃fl = fixed⦄ 14;
  recent = [];
  bar = 0;
  pending_long = [];
  pending_short = [];
  active_long = [];
  active_short = [];
}

-- an engine with a rising trend and a low of the last four hour bar at 99
abbrev poised : SmcEngine ⦃fl = fixed⦄ ℕ
poised = record (assemble ⦃fl = fixed⦄ flat_profile smc hourly hourly hourly rising no_blocks) {
  prior_h4_low = some (units 99);
}

abbrev dip : Candle ⦃fl = fixed⦄
dip = candle_at 30 100 101 98 100

taken : is_some (on_decision ⦃fl = fixed⦄ flat_profile smc dip none poised).0 ≡ true
unfolding assemble on_decision decide stand_up emit_transition htf_bias veto confluence fired_checks
    check_sweep check_displacement check_cisd check_alignment check_premium_discount resolve_poi
    conclude enter structural_stop commit emit_signal swept_low vsma_value vsma_ready new_atr
    new_vsma
taken = refl

abbrev every : ℕ → TimeframeAggregator ⦃fl = fixed⦄
every n = record {
  minutes = n;
  key = none;
  o = units 0;
  h = units 0;
  l = units 0;
  c = units 0;
  v = units 0;
}

-- the new engine of the configuration
abbrev first : SmcEngine ⦃fl = fixed⦄ ℕ
first =
    assemble ⦃fl = fixed⦄ flat_profile smc (every 30) (every 240) (every 1440)
      (record {
        lookback = 2;
        max_swings = 50;
        window = [];
        highs = [];
        lows = [];
        ref_high = none;
        ref_low = none;
        trend = none;
      })
      no_blocks

first-eq : new ⦃fl = fixed⦄ flat_profile smc ≡ some first
unfolding new new_aggregator valid_minutes new_tracker new_blocks assemble new_atr
first-eq = refl

Reach-consistent_example :
    let e = (on_candle ⦃fl = fixed⦄ flat_profile smc dip first).1 in
    (is_some e.position ≡ is_breakout e.state)
    × (entries ⦃fl = fixed⦄ e.emitted
        ≡ exits ⦃fl = fixed⦄ e.emitted + (if is_breakout e.state then 1 else 0))
    × IsTrace ⦃fl = fixed⦄ e.emitted e.state
Reach-consistent_example = Reach-consistent ⦃fl = fixed⦄ smc flat_profile (bar (start first-eq) dip)
