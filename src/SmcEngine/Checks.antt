-- ===== src/SmcEngine/Checks.antt =====
-- The checks of `SmcEngine` that read the engine only: the bias and the five confluences other than
-- the point of interest.
use freq_trading.Base.{
  Bool, true, false, if◌then◌else◌, not, ◌&&◌, ◌||◌, Option, none, some, List, [], ◌∷◌, is_some,
}
use freq_trading.Num.{Float, zero_float}
use freq_trading.Models.{Candle, Direction, long, short, Confluence, sweep, disp, cisd, align, pd}
use freq_trading.Indicators.{vsma_value}
use freq_trading.Structure.Defs.{
  StructureEvent, BreakKind, bos, choch, swept_low, swept_high, is_trend,
}
use freq_trading.Smc.Config.{SmcConfig}
use freq_trading.SmcEngine.State.{SmcEngine, Profile, Levels}

-- the trend of the higher timeframe unless the trend of the day is the other one
unfoldable pub veto : Option Direction → Option Direction → Option Direction
veto none d1 = none
veto (some base) none = some base
veto (some long) (some long) = some long
veto (some long) (some short) = none
veto (some short) (some long) = none
veto (some short) (some short) = some short

-- `fired.append` under a test
abbrev pub with_check : Bool → Confluence → List Confluence → List Confluence
with_check true x xs = x ∷ xs
with_check false x xs = xs

module _ ⦃fl : Float⦄ where
  open fl use {Carrier, lit, add, sub, mul, quot, abs, lt, le, eq}

  -- a level below which the bar dipped and above which it closed, and the reverse
  abbrev pub reclaimed : Direction → Candle → Option Carrier → Option Carrier
  reclaimed _ c none = none
  reclaimed long c (some level) = if lt c.low level && lt level c.close then some level else none
  reclaimed short c (some level) = if lt level c.high && lt c.close level then some level else none

  abbrev pub or_else : Option Carrier → Option Carrier → Option Carrier
  or_else none o = o
  or_else (some x) o = some x

  -- the gate on the volume: true where it lets the bar pass
  abbrev pub volume_passes : SmcConfig → Carrier → Option Carrier → Bool
  volume_passes cfg volume none = true
  volume_passes cfg volume (some mean) =
      not (lt zero_float volume && (not (eq mean zero_float) && lt volume (mul cfg.vol_mult mean)))

  -- the range against the average true range, where it is ready
  abbrev pub range_passes : SmcConfig → Carrier → Option Carrier → Bool
  range_passes cfg rng none = false
  range_passes cfg rng (some a) = not (lt rng (mul cfg.disp_atr_mult a))

  -- the comparison of `_check_cisd` with the last two bars before
  abbrev pub delivers : Direction → Candle → (prev prev2 : Candle) → Bool
  delivers long c prev prev2 =
      lt prev.close prev.open_price
      && (lt prev.open_price c.close && le prev2.close prev.open_price)
  delivers short c prev prev2 =
      lt prev.open_price prev.close
      && (lt c.close prev.open_price && le prev.open_price prev2.close)

  -- `_check_cisd` over the history, the oldest bar first
  unfoldable pub check_cisd : Candle → Direction → List Candle → Bool
  check_cisd c bias [] = false
  check_cisd c bias (_ ∷ []) = false
  check_cisd c bias (prev2 ∷ prev ∷ []) = delivers bias c prev prev2
  check_cisd c bias (_ ∷ y ∷ z ∷ zs) = check_cisd c bias (y ∷ z ∷ zs)

  abbrev pub is_choch : BreakKind → Bool
  is_choch choch = true
  is_choch bos = false

  -- a change of character towards the bias
  abbrev pub turns : Option StructureEvent → Direction → Bool
  turns none bias = false
  turns (some ev) bias = is_choch ev.kind && is_trend bias (some ev.direction)

  -- `_day_equilibrium`, of the levels of the developing day
  abbrev pub equilibrium : Option Levels → Option Carrier
  equilibrium none = none
  equilibrium (some lv) = some (quot (add lv.vah lv.val) (lit 2 0))

  -- the side of the middle of the day; without one the check passes
  abbrev pub on_side : Direction → Carrier → Option Carrier → Bool
  on_side bias close none = true
  on_side long close (some eq_price) = le close eq_price
  on_side short close (some eq_price) = le eq_price close

  module _ {Pr : Type 0} where
    -- `_htf_bias`
    unfoldable pub htf_bias : SmcEngine Pr → Option Direction
    unfolding veto
    htf_bias e = veto e.struct_h4.trend e.struct_d1.trend

    -- `_check_sweep`: the level that was swept
    unfoldable pub check_sweep : Candle → Direction → SmcEngine Pr → Option Carrier
    unfolding swept_low swept_high
    check_sweep c long e = or_else (swept_low c e.struct_m15) (reclaimed long c e.prior_h4_low)
    check_sweep c short e = or_else (swept_high c e.struct_m15) (reclaimed short c e.prior_h4_high)

    -- `_check_displacement`
    unfoldable pub check_displacement : SmcConfig → Candle → SmcEngine Pr → Bool
    unfolding vsma_value
    check_displacement cfg c e =
        let rng = sub c.high c.low in
        if le rng zero_float
        then false
        else if lt (quot (abs (sub c.close c.open_price)) rng) cfg.disp_body_frac
        then false
        else if not (range_passes cfg rng e.atr.atr)
        then false
        else volume_passes cfg c.volume (vsma_value e.vsma)

    -- `_check_alignment`
    unfoldable pub check_alignment : Option StructureEvent → Direction → SmcEngine Pr → Bool
    check_alignment event bias e = is_trend bias e.struct_m15.trend || turns event bias

    module _ (profile : Profile Pr) (cfg : SmcConfig) where
      -- `_check_premium_discount`
      unfoldable pub check_premium_discount : Candle → Direction → SmcEngine Pr → Bool
      check_premium_discount c bias e =
          on_side bias c.close
            (or_else (equilibrium (profile.levels e.day_profile)) (profile.poc e.day_profile))

      -- the confluences of `_confluence` before the point of interest
      unfoldable pub fired_checks :
          Candle → Option StructureEvent → Direction → SmcEngine Pr → List Confluence
      unfolding check_sweep check_displacement check_cisd check_alignment check_premium_discount
      fired_checks c event bias e = with_check (is_some (check_sweep c bias e)) sweep (
          with_check (check_displacement cfg c e) disp (
            with_check (check_cisd c bias e.m15_hist) cisd (
              with_check (check_alignment event bias e) align
                (with_check (check_premium_discount c bias e) pd []))))
