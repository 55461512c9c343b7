-- ===== src/Quarters/Opens.antt =====
-- The true opens over the bars of a cycle.
use freq_trading.Base.{ℕ, ◌≡◌, ◌≢◌, if◌then◌else◌, Option, none, some, List, [], ◌∷◌, arith}
use freq_trading.Num.{Float}
use freq_trading.Models.{Candle}
use freq_trading.Quarters.Defs.{
  LocalTime, Quarter, day_quarter, m90_quarter, day_cycle_id, m90_cycle_id, past_first,
  QuarterTracker, capture, update_quarters,
}

module _ ⦃fl : Float⦄ (ny : ℕ → LocalTime) where
  open fl use {Carrier}

  -- the tracker after bars, in their order
  unfoldable pub track_quarters : List Candle → QuarterTracker → QuarterTracker
  track_quarters [] s = s
  track_quarters (c ∷ cs) s = track_quarters cs (update_quarters ny c s)

  -- the bars lie in one cycle of the given kind
  abbrev pub InCycle : (LocalTime → ℕ) → ℕ → List Candle → Type 0
  InCycle cycle k [] = Unit
  InCycle cycle k (c ∷ cs) = (cycle (ny c.ts.micros) ≡ k) × InCycle cycle k cs

  -- the open of the first bar that is past the first quarter
  abbrev pub first_open : (LocalTime → Quarter) → List Candle → Option Carrier
  first_open quarter [] = none
  first_open quarter (c ∷ cs) =
      if past_first (quarter (ny c.ts.micros)) then some c.open_price else first_open quarter cs

  abbrev pub known_or : Option Carrier → Option Carrier → Option Carrier
  known_or (some x) o = some x
  known_or none o = o

  track_day :
      (k : ℕ) (cs : List Candle) (s : QuarterTracker)
      → s.day_id ≡ some k
      → InCycle day_cycle_id k cs
      → (track_quarters cs s).day_q2_open ≡ known_or s.day_q2_open (first_open day_quarter cs)
  unfolding track_quarters update_quarters capture
  track_day k [] s h b = ground arith
  track_day k (c ∷ cs) s h b = ground (arith, track_day k cs (update_quarters ny c s))

  track_m90 :
      (k : ℕ) (cs : List Candle) (s : QuarterTracker)
      → s.m90_id ≡ some k
      → InCycle m90_cycle_id k cs
      → (track_quarters cs s).m90_q2_open ≡ known_or s.m90_q2_open (first_open m90_quarter cs)
  unfolding track_quarters update_quarters capture
  track_m90 k [] s h b = ground arith
  track_m90 k (c ∷ cs) s h b = ground (arith, track_m90 k cs (update_quarters ny c s))

  -- Over the bars of one trading day, the first of which begins it, the true open of the day is the
  -- open of the first bar past its first quarter, also where bars are missing, and there is none
  -- before.
  pub track_quarters-first_open :
      (k : ℕ) (c : Candle) (cs : List Candle) (s : QuarterTracker)
      → s.day_id ≢ some k
      → InCycle day_cycle_id k (c ∷ cs)
      → (track_quarters (c ∷ cs) s).day_q2_open ≡ first_open day_quarter (c ∷ cs)
  unfolding track_quarters update_quarters capture
  track_quarters-first_open k c cs s h b = ground (arith, track_day k cs (update_quarters ny c s))

  -- Over the bars of one session of six hours, the first of which begins it, the true open of the
  -- session is the open of the first bar past its first ninety minutes, and there is none before.
  track_quarters-first_open_m90 :
      (k : ℕ) (c : Candle) (cs : List Candle) (s : QuarterTracker)
      → s.m90_id ≢ some k
      → InCycle m90_cycle_id k (c ∷ cs)
      → (track_quarters (c ∷ cs) s).m90_q2_open ≡ first_open m90_quarter (c ∷ cs)
  unfolding track_quarters update_quarters capture
  track_quarters-first_open_m90 k c cs s h b =
      ground (arith, track_m90 k cs (update_quarters ny c s))
