-- ===== src/RiskGuard/Defs.antt =====
-- The three guards of orb/riskguard.py. A day is its number; a period is any key that can be
-- compared, a number here.
use freq_trading.Base.{
  ℕ, ◌+◌, ◌-◌, Bool, true, false, if◌then◌else◌, not, ◌&&◌, Option, none, some, List, [], ◌∷◌, ◌++◌,
  length, drop, ltb, leb, ◌==◌,
}
use freq_trading.Num.{Float, zero_float}
use freq_trading.Models.{not_positive}

-- `key != self._key`
abbrev pub differs : ℕ → Option ℕ → Bool
differs k none = true
differs k (some j) = not (k == j)

-- `xs[-n:]`, which is all of `xs` for n = 0
unfoldable pub last_n {ℓ} : {A : Type ℓ} → ℕ → List A → List A
last_n n xs = if n == 0 then xs else drop (length xs - n) xs

module _ ⦃fl : Float⦄ where
  open fl use {Carrier, lit, sub, mul, quot, sum, lt, le}

  pub record DailyLossBreaker : Type 0 where
    pub max_daily_loss : Option Carrier
    pub max_daily_loss_pct : Option Carrier
    pub day : Option ℕ
    pub day_start : Carrier
    pub day_cap : Carrier
    pub delta : Carrier
    pub halted : Bool

  -- `float(max_daily_loss or 0.0)`
  abbrev or_zero : Option Carrier → Carrier
  or_zero none = zero_float
  or_zero (some x) = x

  -- both limits missing
  abbrev none_given : Option Carrier → Option Carrier → Bool
  none_given none none = true
  none_given _ _ = false

  -- `DailyLossBreaker(...)`; none where it raises ValueError
  unfoldable pub new_breaker : Option Carrier → Option Carrier → Option DailyLossBreaker
  new_breaker loss pct =
      if none_given loss pct
      then none
      else if not_positive loss
      then none
      else if not_positive pct
      then none
      else some (record {
        max_daily_loss = loss;
        max_daily_loss_pct = pct;
        day = none;
        day_start = zero_float;
        day_cap = or_zero loss;
        delta = zero_float;
        halted = false;
      })

  -- the cap of a day that starts with the balance
  unfoldable pub cap_for : Option Carrier → Option Carrier → Carrier → Carrier
  cap_for loss none balance = or_zero loss
  cap_for loss (some pct) balance = mul balance (quot pct (lit 100 0))

  -- the first branch of `update`: a new day
  unfoldable pub start_day : ℕ → Carrier → DailyLossBreaker → DailyLossBreaker
  start_day d balance b = record b {
    day = some d;
    day_start = balance;
    day_cap = cap_for b.max_daily_loss b.max_daily_loss_pct balance;
    halted = false;
  }

  -- the rest of `update`
  unfoldable pub observe : Carrier → DailyLossBreaker → DailyLossBreaker
  observe balance b =
      let c = record b { delta = sub balance b.day_start } in
      if not b.halted && le b.day_cap (sub b.day_start balance)
      then record c { halted = true }
      else c

  -- `DailyLossBreaker.update`; its result is the field `halted`
  unfoldable pub update_breaker : ℕ → Carrier → DailyLossBreaker → DailyLossBreaker
  update_breaker d balance b =
      observe balance (if differs d b.day then start_day d balance b else b)

  -- `day_pnl`
  unfoldable pub day_pnl : DailyLossBreaker → Carrier
  day_pnl b = elim b.day [ none ↦ zero_float | some _ ↦ b.delta ]

  -- `max_consecutive <= 0` disables the guard, as 0 does
  pub record ConsecutiveLossGuard : Type 0 where
    pub max_consecutive : ℕ
    pub period : Option ℕ
    pub streak : ℕ

  unfoldable pub new_streak : ℕ → ConsecutiveLossGuard
  new_streak m = record { max_consecutive = m; period = none; streak = 0 }

  -- `on_period`
  unfoldable pub on_period : ℕ → ConsecutiveLossGuard → ConsecutiveLossGuard
  on_period k g = if differs k g.period then record g { period = some k; streak = 0 } else g

  -- `record`
  unfoldable pub record_trade : Carrier → ConsecutiveLossGuard → ConsecutiveLossGuard
  record_trade pnl g =
      if lt pnl zero_float
      then record g { streak = g.streak + 1 }
      else if lt zero_float pnl
      then record g { streak = 0 }
      else g

  -- `blocked`
  unfoldable pub blocked : ConsecutiveLossGuard → Bool
  blocked g = ltb 0 g.max_consecutive && leb g.max_consecutive g.streak

  pub record SpikeCancel : Type 0 where
    pub ratio : Carrier
    pub lookback : ℕ
    pub min_bars : ℕ
    pub ranges : List Carrier

  -- `SpikeCancel(...)`; none where it raises ValueError
  unfoldable pub new_spike : Carrier → ℕ → ℕ → Option SpikeCancel
  new_spike ratio lookback min_bars =
      if le ratio (lit 1 0)
      then none
      else some (record { ratio = ratio; lookback = lookback; min_bars = min_bars; ranges = [] })

  abbrev average : List Carrier → Carrier → Carrier
  average [] total = zero_float
  average (x ∷ xs) total = quot total (lit (length (x ∷ xs)) 0)

  -- the test of `SpikeCancel.update` against the history
  unfoldable pub is_spike : SpikeCancel → Carrier → Bool
  is_spike s range =
      let history = last_n s.lookback s.ranges in
      let total = sum history in
      leb s.min_bars (length history)
      && (lt zero_float total && le (mul s.ratio (average history total)) range)

  -- `SpikeCancel.update`
  unfoldable pub update_spike : Carrier → Carrier → SpikeCancel → Bool × SpikeCancel
  update_spike high low s =
      let range = sub high low in
      let longer = s.ranges ++ range ∷ [] in
      (
        is_spike s range,
        record s {
          ranges = if ltb s.lookback (length longer) then last_n s.lookback longer else longer;
        },
      )
