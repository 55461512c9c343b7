-- ===== src/Smc/Config.antt =====
-- `SmcConfig` of orb/smc/config.py.
use freq_trading.Base.{
  ℕ, Bool, true, false, if◌then◌else◌, not, ◌&&◌, ◌||◌, Option, none, some, List, [], ◌∷◌, ltb, leb,
  ◌==◌,
}
use freq_trading.Num.{Float, zero_float}
use freq_trading.Ladder.Defs.{LadderExitManager}

-- every count is at least one
abbrev pub all_positive : List ℕ → Bool
all_positive [] = true
all_positive (n ∷ ns) = not (ltb n 1) && all_positive ns

module _ ⦃fl : Float⦄ where
  open fl use {Carrier, lit, add, mul, lt, le, eq}

  pub record SmcConfig : Type 0 where
    pub trigger_tf_min : ℕ
    pub htf_min : ℕ
    pub d1_min : ℕ
    pub swing_lookback : ℕ
    pub max_swings : ℕ
    pub disp_body_frac : Carrier
    pub disp_atr_mult : Carrier
    pub ob_confirm_bars : ℕ
    pub max_blocks : ℕ
    pub ob_expiry_bars : ℕ
    pub atr_period : ℕ
    pub poc_tol : Carrier
    pub ticks_per_row : ℕ
    pub tick_size : Carrier
    pub min_profile_bars : ℕ
    pub min_confluences : ℕ
    pub vol_mult : Carrier
    pub vol_sma_period : ℕ
    pub risk_pct : Carrier
    pub stop_buffer : Carrier
    pub stop_max_dist : Carrier
    pub max_trades_per_day : ℕ
    pub partial_levels : List (Carrier × Carrier)
    pub final_tp_r : Carrier
    pub stage1_at_r : Carrier
    pub stage2_at_r : Carrier
    pub stage2_min_lock_r : Carrier
    pub comm_per_lot : Carrier
    pub strict_monotonic : Bool
    pub instrument_dp : ℕ

  -- the loop over the partial levels: the last multiple and the sum of the fractions, none where
  -- it raises
  unfoldable pub check_levels :
      List (Carrier × Carrier) → (prev_r frac_sum : Carrier) → Option (Carrier × Carrier)
  check_levels [] prev_r frac_sum = some (prev_r, frac_sum)
  check_levels ((r, frac) ∷ ls) prev_r frac_sum =
      let rest = check_levels ls r (add frac_sum frac) in
      if le r prev_r
      then none
      else if not (lt zero_float frac && lt frac (lit 1 0))
      then none
      else rest

  -- the checks after the loop
  unfoldable pub check_exits : SmcConfig → Carrier → Carrier → Bool
  check_exits k prev_r frac_sum =
      if lt (lit 1 0) frac_sum
      then false
      else if not (eq k.final_tp_r zero_float) && le k.final_tp_r prev_r
      then false
      else if lt k.final_tp_r zero_float
      then false
      else if le k.stage1_at_r zero_float
      then false
      else if le k.stage2_at_r k.stage1_at_r
      then false
      else if le k.stage2_min_lock_r zero_float
      then false
      else if lt k.comm_per_lot zero_float
      then false
      else if le k.stop_buffer zero_float
      then false
      else if le k.stop_max_dist k.stop_buffer
      then false
      else if not (leb 1 k.min_confluences && leb k.min_confluences 6)
      then false
      else true

  -- `__post_init__`: whether it raises nothing
  unfoldable pub check_smc : SmcConfig → Bool
  check_smc k =
      if not (
        all_positive (
          k.trigger_tf_min ∷ k.htf_min ∷ k.d1_min ∷ k.swing_lookback ∷ k.max_swings
          ∷ k.ob_confirm_bars ∷ k.max_blocks ∷ k.ob_expiry_bars ∷ k.atr_period ∷ k.ticks_per_row
          ∷ k.min_profile_bars ∷ k.vol_sma_period ∷ k.max_trades_per_day ∷ []))
      then false
      else if le k.tick_size zero_float
      then false
      else if lt k.poc_tol zero_float
      then false
      else if not (lt zero_float k.disp_body_frac && lt k.disp_body_frac (lit 1 0))
      then false
      else if le k.disp_atr_mult zero_float || le k.vol_mult zero_float
      then false
      else if not (lt zero_float k.risk_pct && le k.risk_pct (lit 10 0))
      then false
      else if not (ltb k.trigger_tf_min k.htf_min && ltb k.htf_min k.d1_min)
      then false
      else if not (k.d1_min == 1440)
      then false
      else elim (check_levels k.partial_levels zero_float zero_float) [
        | none ↦ false
        | some (prev_r, frac_sum) ↦ check_exits k prev_r frac_sum
      ]

  -- `row_size`
  abbrev pub row_size : SmcConfig → Carrier
  row_size k = mul (lit k.ticks_per_row 0) k.tick_size

  -- the ladder that the command line builds from the configuration and the broker's numbers; the
  -- spread and the default distance are the constructor's own
  unfoldable pub ladder_of :
      SmcConfig → (value_per_move vol_min vol_step : Carrier) → LadderExitManager
  ladder_of k value_per_move vol_min vol_step = record {
    partial_levels = k.partial_levels;
    final_tp_r = k.final_tp_r;
    stage1_at_r = k.stage1_at_r;
    stage2_at_r = k.stage2_at_r;
    stage2_min_lock_r = k.stage2_min_lock_r;
    stage2_buffer = k.stop_buffer;
    comm_per_lot = k.comm_per_lot;
    value_per_move = value_per_move;
    spread = lit 10 2;
    vol_min = vol_min;
    vol_step = vol_step;
    default_d = lit 2 0;
  }
