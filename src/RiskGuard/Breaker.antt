-- ===== src/RiskGuard/Breaker.antt =====
-- The daily loss breaker over the balances of a day.
use freq_trading.Base.{ℕ, ◌≡◌, Bool, true, false, ◌||◌, some, List, [], ◌∷◌, arith}
use freq_trading.Num.{Float}
use freq_trading.RiskGuard.Defs.{
  DailyLossBreaker, differs, cap_for, start_day, observe, update_breaker,
}

module _ ⦃fl : Float⦄ where
  open fl use {Carrier, sub, le}

  -- the breaker after the balances of one day, in their order
  pub watch : ℕ → List Carrier → DailyLossBreaker → DailyLossBreaker
  watch d [] b = b
  watch d (x ∷ xs) b = watch d xs (update_breaker d x b)

  -- whether one of the balances is below the start by the cap or more
  abbrev pub reaches : (cap start : Carrier) → List Carrier → Bool
  reaches cap start [] = false
  reaches cap start (x ∷ xs) = le cap (sub start x) || reaches cap start xs

  update_breaker_same :
      (d : ℕ) (x : Carrier) (b : DailyLossBreaker)
      → b.day ≡ some d
      → let c = update_breaker d x b in
        (c.day ≡ some d)
        × (c.day_start ≡ b.day_start)
        × (c.day_cap ≡ b.day_cap)
        × (c.halted ≡ (b.halted || le b.day_cap (sub b.day_start x)))
  unfolding update_breaker observe start_day
  update_breaker_same d x b h = ground arith

  watch-halted :
      (d : ℕ) (xs : List Carrier) (b : DailyLossBreaker)
      → b.day ≡ some d
      → (watch d xs b).halted ≡ (b.halted || reaches b.day_cap b.day_start xs)
  unfolding watch
  watch-halted d [] b h = ground arith
  watch-halted d (x ∷ xs) b h =
      ground (arith, update_breaker_same d x b h, watch-halted d xs (update_breaker d x b))

  update_breaker_new :
      (d : ℕ) (x : Carrier) (b : DailyLossBreaker)
      → differs d b.day ≡ true
      → let cap = cap_for b.max_daily_loss b.max_daily_loss_pct x in
        let c = update_breaker d x b in
        (c.day ≡ some d) × (c.day_start ≡ x) × (c.day_cap ≡ cap) × (c.halted ≡ le cap (sub x x))
  unfolding update_breaker observe start_day
  update_breaker_new d x b h = ground arith

  -- Over the balances of a new day, the first of which is the day's start, the breaker is halted
  -- exactly if some balance so far was below the start by the cap of that day or more: a halt of an
  -- earlier day is lifted, and one of this day stays.
  pub watch-halted_exactly :
      (d : ℕ) (x : Carrier) (xs : List Carrier) (b : DailyLossBreaker)
      → differs d b.day ≡ true
      → (watch d (x ∷ xs) b).halted
        ≡ reaches (cap_for b.max_daily_loss b.max_daily_loss_pct x) x (x ∷ xs)
  unfolding watch
  watch-halted_exactly d x xs b h =
      ground (arith, update_breaker_new d x b h, watch-halted d xs (update_breaker d x b))
