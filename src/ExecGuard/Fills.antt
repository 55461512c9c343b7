-- ===== src/ExecGuard/Fills.antt =====
-- When the assessment of a fill has its ratios.
use freq_trading.Base.{◌≡◌, true, false, Option, arith, is_some}
use freq_trading.Num.Order.{lt_irrefl}
use freq_trading.Num.{Float, zero_float}
use freq_trading.ExecGuard.Defs.{assess_fill, is_missing, stop_distance}

module _ ⦃fl : Float⦄ where
  open fl use {Carrier, lt, le}

  -- An assessment that calls the fill degraded has a floor and both ratios, each of them a
  -- quotient by a distance above zero, and both a stop and a target were given.
  assess_fill-degraded :
      (requested filled : Carrier) (stop tp max_slippage rr_floor : Option Carrier)
      → let f = assess_fill requested filled stop tp max_slippage rr_floor in
        f.degraded ≡ true
        → (is_some rr_floor ≡ true)
          × (is_some f.rr_achieved ≡ true)
          × (is_some f.rr_planned ≡ true)
          × (lt zero_float (stop_distance requested stop) ≡ true)
          × (lt zero_float (stop_distance filled stop) ≡ true)
          × (is_missing stop ≡ false)
          × (is_missing tp ≡ false)
  unfolding assess_fill
  assess_fill-degraded requested filled stop tp max_slippage rr_floor h =
      ground (arith, lt_irrefl zero_float)
