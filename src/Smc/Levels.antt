-- ===== src/Smc/Levels.antt =====
-- What a valid SMC configuration says of its ladder and its timeframes.
use freq_trading.Base.{
  ◌≡◌, ◌<◌, inl, inr, true, false, not, ◌||◌, some, List, [], ◌∷◌, arith, Option-cases,
}
use freq_trading.Num.{Float, zero_float}
use freq_trading.Smc.Config.{SmcConfig, check_levels, check_exits, check_smc, ladder_of}
use freq_trading.Ladder.Defs.{valid_ladder}

module _ ⦃fl : Float⦄ where
  open fl use {Carrier, lit, lt, le, eq}

  -- The rungs lie above the bound, each above the one before, each with a proper fraction, and the
  -- final target is off or above the last one.
  abbrev pub Ascends : Carrier → List (Carrier × Carrier) → Carrier → Type 0
  Ascends prev_r [] final = (eq final zero_float || not (le final prev_r)) ≡ true
  Ascends prev_r ((r, frac) ∷ ls) final =
      (le r prev_r ≡ false)
      × (lt zero_float frac ≡ true)
      × (lt frac (lit 1 0) ≡ true)
      × Ascends r ls final

  check_levels-Ascends :
      (ls : List (Carrier × Carrier)) (prev_r frac_sum final last_r sum : Carrier)
      → check_levels ls prev_r frac_sum ≡ some (last_r, sum)
      → (eq final zero_float || not (le final last_r)) ≡ true
      → Ascends prev_r ls final
  unfolding check_levels
  check_levels-Ascends [] prev_r frac_sum final last_r sum h f = ground arith
  check_levels-Ascends ((r, frac) ∷ ls) prev_r frac_sum final last_r sum h f =
      ground (arith, check_levels-Ascends ls r (fl.add frac_sum frac) final last_r sum)

  check_smc-levels :
      (k : SmcConfig)
      → check_smc k ≡ true
      → (last_r : Carrier) × (sum : Carrier) × (check_levels k.partial_levels zero_float zero_float
          ≡ some (last_r, sum))
        × (check_exits k last_r sum ≡ true)
        × (k.trigger_tf_min < k.htf_min)
        × (k.htf_min < k.d1_min)
        × (k.d1_min ≡ 1440)
  unfolding check_smc
  check_smc-levels k h = elim (Option-cases (check_levels k.partial_levels zero_float zero_float)) [
    | inl e ↦ absurd (ground arith)
    | inr (p, e) ↦ (p.0, p.1, e, ground arith, ground arith, ground arith, ground arith)
  ]

  -- A configuration that passes its checks has rungs in ascending order with proper fractions, a
  -- final target that is off or beyond them, and timeframes in order below a day. With a value per
  -- move and volumes of the broker above zero, and the literal 2.0 above zero, the ladder that the
  -- command line builds from it passes the checks of its constructor.
  pub check_smc-Ascends :
      (k : SmcConfig) (value_per_move vol_min vol_step : Carrier)
      → check_smc k ≡ true
      → le value_per_move zero_float ≡ false
      → le vol_min zero_float ≡ false
      → le vol_step zero_float ≡ false
      → le (lit 2 0) zero_float ≡ false
      → Ascends zero_float k.partial_levels k.final_tp_r
        × (k.trigger_tf_min < k.htf_min)
        × (k.htf_min < 1440)
        × (valid_ladder (ladder_of k value_per_move vol_min vol_step) ≡ true)
  unfolding check_exits valid_ladder ladder_of
  check_smc-Ascends k value_per_move vol_min vol_step h a b c two =
      let (last_r, sum, e, x, lower, upper, day) = check_smc-levels k h in
      (
        check_levels-Ascends k.partial_levels zero_float zero_float k.final_tp_r last_r sum e
            (ground arith),
        lower,
        omega arith,
        ground arith,
      )
