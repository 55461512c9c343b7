-- ===== src/Svp/Sizing.antt =====
-- orb/svp/sizing.py: the lot for a structural stop.
use freq_trading.Base.{◌≡◌, ◌⊎◌, false, if◌then◌else◌, ◌||◌, Option, none, some, arith}
use freq_trading.Num.Order.{lt_irrefl}
use freq_trading.Num.{Float, zero_float, min}

module _ ⦃fl : Float⦄ where
  open fl use {Carrier, lit, add, sub, mul, quot, abs, round_to, floor, lt, le}

  -- `_floor_to_step`
  unfoldable pub floor_to_step : Carrier → Carrier → Carrier
  floor_to_step x step =
      if le step zero_float then x else round_to (mul (floor (add (quot x step) (lit 1 9))) step) 10

  -- the last part of `compute_lot`, for the risk in dollars
  unfoldable pub lot_for :
      (risk_dollars stop_dist value_per_move vol_min vol_step vol_max : Carrier) → Carrier
  lot_for risk_dollars stop_dist value_per_move vol_min vol_step vol_max =
      let lot = floor_to_step (quot risk_dollars (mul stop_dist value_per_move)) vol_step in
      if lt lot vol_min then zero_float else min lot vol_max

  -- `compute_lot`
  unfoldable pub compute_lot :
      (balance risk_pct entry stop value_per_move vol_min vol_step vol_max : Carrier)
      (max_risk : Option Carrier)
      → Carrier
  compute_lot balance risk_pct entry stop value_per_move vol_min vol_step vol_max max_risk =
      let stop_dist = abs (sub entry stop) in
      let risk_dollars = mul balance (quot risk_pct (lit 100 0)) in
      if le stop_dist zero_float
        || (le value_per_move zero_float || (le balance zero_float || le risk_pct zero_float))
      then zero_float
      else elim max_risk [
        | none ↦ lot_for risk_dollars stop_dist value_per_move vol_min vol_step vol_max
        | some most ↦
            if le most zero_float
            then zero_float
            else lot_for (min risk_dollars most) stop_dist value_per_move vol_min vol_step vol_max
      ]

  -- the lot is tradable: not below the smallest, and not above the largest
  abbrev pub IsTradable : (vol_min vol_max lot : Carrier) → Type 0
  IsTradable vol_min vol_max lot = (lt lot vol_min ≡ false) × (lt vol_max lot ≡ false)

  lot_for-IsTradable :
      (risk_dollars stop_dist value_per_move vol_min vol_step vol_max : Carrier)
      → lt vol_max vol_min ≡ false
      → let lot = lot_for risk_dollars stop_dist value_per_move vol_min vol_step vol_max in
        (lot ≡ zero_float) ⊎ IsTradable vol_min vol_max lot
  unfolding lot_for
  lot_for-IsTradable risk_dollars stop_dist value_per_move vol_min vol_step vol_max h =
      ground (arith, lt_irrefl vol_max)

  -- With the largest lot of the broker not below the smallest, the lot is zero or tradable, and it is
  -- zero whenever the stop distance, the value of a move, the balance, the risk percentage or the
  -- remaining budget is not positive.
  pub compute_lot-IsTradable :
      (balance risk_pct entry stop value_per_move vol_min vol_step vol_max : Carrier)
      (max_risk : Option Carrier)
      → lt vol_max vol_min ≡ false
      → let lot =
          compute_lot balance risk_pct entry stop value_per_move vol_min vol_step vol_max
            max_risk in
        (lot ≡ zero_float)
        ⊎ (IsTradable vol_min vol_max lot
            × (le (abs (sub entry stop)) zero_float ≡ false)
            × (le value_per_move zero_float ≡ false)
            × (le balance zero_float ≡ false)
            × (le risk_pct zero_float ≡ false)
            × ((elim max_risk [ none ↦ false | some most ↦ le most zero_float ]) ≡ false))
  unfolding compute_lot
  compute_lot-IsTradable balance risk_pct entry stop value_per_move vol_min vol_step vol_max none
        h =
      ground (
        arith,
        lot_for-IsTradable (mul balance (quot risk_pct (lit 100 0))) (abs (sub entry stop))
            value_per_move vol_min vol_step vol_max h,
      )
  compute_lot-IsTradable balance risk_pct entry stop value_per_move vol_min vol_step vol_max
        (some most) h =
      ground (
        arith,
        lot_for-IsTradable (min (mul balance (quot risk_pct (lit 100 0))) most)
            (abs (sub entry stop)) value_per_move vol_min vol_step vol_max h,
      )
