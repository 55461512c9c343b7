-- ===== src/SmcEngine/Setups.antt =====
-- What the strategy demands of an entry.
use freq_trading.Base.{
  ◌≤◌, ◌<◌, ◌≡◌, false, ◌++◌, Option, none, some, List, [], ◌∷◌, is_some, length,
}
use freq_trading.Num.{Float}
use freq_trading.Models.{Candle, Direction, Signal, entry, Confluence, poi, PoiSource, smc_setup}
use freq_trading.Structure.Defs.{StructureEvent}
use freq_trading.Smc.Config.{SmcConfig}
use freq_trading.SmcEngine.State.{SmcEngine, Profile}
use freq_trading.SmcEngine.Checks.{fired_checks, htf_bias}
use freq_trading.SmcEngine.Entry.{bad_distance}

module _ ⦃fl : Float⦄ (cfg : SmcConfig) where
  open fl use {Carrier, abs, sub}

  -- an ENTRY in the direction at the close, with the confluences that are listed, enough of them, and
  -- with a stop at an acceptable distance
  abbrev pub IsSetup : Candle → Direction → List Confluence → Signal → Type 0
  IsSetup c d fired sig =
      (source : PoiSource) × (stop : Carrier) × (sig.kind ≡ entry)
      × (sig.direction ≡ d)
      × (sig.price ≡ c.close)
      × (sig.stop ≡ some stop)
      × (sig.reason ≡ smc_setup d fired source)
      × (cfg.min_confluences ≤ length fired)
      × (bad_distance cfg (abs (sub c.close stop)) ≡ false)

  -- a signal, if there is one, is such an entry
  abbrev pub IsSetupOr : Candle → Direction → List Confluence → Option Signal → Type 0
  IsSetupOr c d fired none = Unit
  IsSetupOr c d fired (some sig) = IsSetup c d fired sig

  module _ {Pr : Type 0} (profile : Profile Pr) where
    -- what a decision that gives a signal has found
    abbrev pub Decides : Candle → Option StructureEvent → SmcEngine Pr → Option Signal → Type 0
    Decides c event e none = Unit
    Decides c event e (some sig) =
        (d : Direction) × (htf_bias e ≡ some d)
        × (is_some e.position ≡ false)
        × (e.traded_today < cfg.max_trades_per_day)
        × IsSetup c d (fired_checks profile cfg c event d e ++ (poi ∷ [])) sig
