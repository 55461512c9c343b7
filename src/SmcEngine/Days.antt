-- ===== src/SmcEngine/Days.antt =====
-- How many entries the strategy makes on a day.
use freq_trading.Base.{ℕ, ◌+◌, ◌≤◌, ◌/◌, ◌≡◌, ◌⊎◌, some, List, [], ◌∷◌}
use freq_trading.Num.{Float}
use freq_trading.Models.{Candle}
use freq_trading.Session.{day}
use freq_trading.Smc.Config.{SmcConfig}
use freq_trading.Engine.Invariant.{entries}
use freq_trading.SmcEngine.State.{SmcEngine, Profile}
use freq_trading.SmcEngine.Step.{on_candle}

module _ ⦃fl : Float⦄ (cfg : SmcConfig) {Pr : Type 0} (profile : Profile Pr) where
  open fl use {Carrier}

  -- the engine after a list of bars, those that raise included
  pub after_bars : List Candle → SmcEngine Pr → SmcEngine Pr
  after_bars [] e = e
  after_bars (c ∷ cs) e = after_bars cs (on_candle profile cfg c e).1

  -- every bar is of the date
  abbrev pub AllOn : ℕ → List Candle → Type 0
  AllOn date [] = Unit
  AllOn date (c ∷ cs) = (c.ts.micros / day ≡ date) × AllOn date cs

  -- The engine works on the date, and has emitted since no more ENTRY signals than it counts; or it
  -- has emitted none since.
  abbrev Bounded : (date opened : ℕ) → SmcEngine Pr → Type 0
  Bounded date opened e =
      ((e.cur_date ≡ some date) × (entries e.emitted ≤ opened + e.traded_today))
      ⊎ (entries e.emitted ≡ opened)
