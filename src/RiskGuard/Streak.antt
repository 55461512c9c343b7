-- ===== src/RiskGuard/Streak.antt =====
-- The consecutive loss guard over the trades of a session.
use freq_trading.Base.{ℕ, ◌+◌, if◌then◌else◌, List, [], ◌∷◌}
use freq_trading.Num.{Float, zero_float}
use freq_trading.RiskGuard.Defs.{ConsecutiveLossGuard, record_trade}

module _ ⦃fl : Float⦄ where
  open fl use {Carrier, lt}

  -- the guard after trades, the newest first
  pub recorded : List Carrier → ConsecutiveLossGuard → ConsecutiveLossGuard
  recorded [] g = g
  recorded (x ∷ xs) g = record_trade x (recorded xs g)

  -- the losses since the last winning trade, break-even trades passed over; the newest first
  abbrev pub losses_since_win : List Carrier → ℕ
  losses_since_win [] = 0
  losses_since_win (x ∷ xs) =
      let rest = losses_since_win xs in
      if lt x zero_float then rest + 1 else if lt zero_float x then 0 else rest
