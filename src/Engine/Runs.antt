-- ===== src/Engine/Runs.antt =====
-- Every engine that calls of `on_candle` and `force_flat` reach from a new one, in any order and
-- also past exceptions that the caller catches.
use freq_trading.Base.{ℕ, ◌+◌, ◌≡◌, true, if◌then◌else◌, is_some}
use freq_trading.Num.{Float}
use freq_trading.Models.{is_breakout, OrbConfig, Candle}
use freq_trading.Engine.State.{Engine, new}
use freq_trading.Engine.Exit.{force_flat}
use freq_trading.Engine.Step.{on_candle}
use freq_trading.Engine.Invariant.{IsValid, IsPath, documented, entries, exits, new-IsValid}
use freq_trading.Engine.Sound.{force_flat-IsValid, on_candle-IsSound}

module _ ⦃fl : Float⦄ (cfg : OrbConfig) where
  pub data Reach : Engine → Type 0 where
    start : Reach (new cfg)
    bar : {e : Engine} → Reach e → (c : Candle) → Reach (on_candle cfg c e).1
    flat : {e : Engine} → Reach e → (ts : ℕ) → Reach (force_flat cfg ts e).1

  pub Reach-IsValid : {e : Engine} → Reach e → IsValid e
  Reach-IsValid start = new-IsValid cfg
  Reach-IsValid (bar r c) = (on_candle-IsSound cfg c _ (Reach-IsValid r)).1
  Reach-IsValid (flat r ts) = force_flat-IsValid cfg ts _ (Reach-IsValid r)

  -- On every reachable engine and for every bar, `on_candle` either returns or raises one of the
  -- documented errors: the candle, the order of bars, an indicator. No operand is ever None, no
  -- assertion fails and no event name is missing.
  pub on_candle-documented :
      (c : Candle) {e : Engine} → Reach e → documented (on_candle cfg c e).0 ≡ true
  on_candle-documented c r = (on_candle-IsSound cfg c _ (Reach-IsValid r)).0

  -- On every reachable engine there is a position exactly in BREAKOUT, and the ENTRY signals
  -- emitted so far are as many as the final EXIT signals, and one more while a position is open.
  pub entries-eq-exits :
      {e : Engine}
      → Reach e
      → (is_some e.pos ≡ is_breakout e.state)
        × (entries e.emitted ≡ exits e.emitted + (if is_breakout e.state then 1 else 0))
  entries-eq-exits r = ((Reach-IsValid r).positioned, (Reach-IsValid r).balanced)

  -- The transitions that the callback has received lead, in their order, from IDLE to the current
  -- state along edges of the state diagram.
  pub transitions-IsPath : {e : Engine} → Reach e → IsPath e.emitted e.state
  transitions-IsPath r = (Reach-IsValid r).traced
