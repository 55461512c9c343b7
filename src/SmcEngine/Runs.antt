-- ===== src/SmcEngine/Runs.antt =====
-- The strategy over all calls of `on_candle` and `force_flat`.
use freq_trading.Base.{
  ℕ, ◌+◌, ◌/◌, ◌≡◌, refl, if◌then◌else◌, subst, Option, none, some, arith, is_some, Bool-cases, inl,
  inr,
}
use mathlib.Core.Option.{some-injective}
use freq_trading.Num.{Float}
use freq_trading.Models.{is_breakout, Candle, validate, Result, ok, err, out_of_order_error}
use freq_trading.Session.{day}
use freq_trading.Structure.Defs.{StructureTracker}
use freq_trading.Mtf.Defs.{TimeframeAggregator}
use freq_trading.Smc.Config.{SmcConfig}
use freq_trading.Smc.Blocks.{OrderBlockTracker}
use freq_trading.Engine.Invariant.{entries, exits}
use freq_trading.SmcEngine.State.{SmcEngine, Profile, assemble, from_parts, new, force_flat}
use freq_trading.SmcEngine.Step.{same_date, roll_day, process, is_late, accept, on_candle}
use freq_trading.SmcEngine.Invariant.{Fits, IsValid, IsTrace}
use freq_trading.SmcEngine.Stages.{stages-Keeps}
use freq_trading.SmcEngine.Decisions.{if-IsValid, on_decision-IsValid, force_flat-IsValid}

module _ ⦃fl : Float⦄ (cfg : SmcConfig) {Pr : Type 0} where
  open fl use {Carrier, lt}

  module _ (profile : Profile Pr) where
    roll_day-IsValid :
        (d : ℕ) (e : SmcEngine Pr) → IsValid cfg e → IsValid cfg (roll_day profile cfg d e)
    unfolding roll_day
    roll_day-IsValid d e v = elim (Bool-cases (same_date profile cfg e.cur_date d)) [
      | inl b ↦ rw b v
      | inr b ↦ rw b (record {
        settled = v.settled;
        positioned = v.positioned;
        capped = omega arith;
        balanced = v.balanced;
        traced = v.traced;
      })
    ]

    process-IsValid :
        (c : Candle) (e : SmcEngine Pr) → IsValid cfg e → IsValid cfg (process profile cfg c e).1
    unfolding process
    process-IsValid c e v =
        let f =
          roll_day profile cfg (c.ts.micros / day) (record e { last_ts = some c.ts.micros }) in
        let w = roll_day-IsValid (c.ts.micros / day) (record e { last_ts = some c.ts.micros }) v in
        let g = record f { day_profile = profile.update c f.day_profile } in
        stages-Keeps cfg profile
          (λ state held traded _ emitted. Fits cfg.max_trades_per_day state held traded emitted)
          (λ bar event f v. on_decision-IsValid cfg profile bar event f v) c g w

    accept-IsValid :
        (r : Result (Unit {0})) (c : Candle) (e : SmcEngine Pr)
        → IsValid cfg e
        → IsValid cfg (accept profile cfg r c e).1
    unfolding accept
    accept-IsValid (err x) c e v = v
    accept-IsValid (ok _) c e v =
        if-IsValid cfg (is_late profile cfg e.last_ts c.ts.micros)
          (if cfg.strict_monotonic then (err out_of_order_error, e) else (ok none, e))
          (process profile cfg c e)
          (if-IsValid cfg cfg.strict_monotonic (err out_of_order_error, e) (ok none, e) v v)
          (process-IsValid c e v)

    pub on_candle-IsValid :
        (c : Candle) (e : SmcEngine Pr) → IsValid cfg e → IsValid cfg (on_candle profile cfg c e).1
    unfolding on_candle
    on_candle-IsValid c e v = accept-IsValid (validate c) c e v

    assemble-IsValid :
        (m15 h4 d1 : TimeframeAggregator) (swings : StructureTracker) (blocks : OrderBlockTracker)
        → IsValid cfg (assemble profile cfg m15 h4 d1 swings blocks)
    unfolding assemble
    assemble-IsValid m15 h4 d1 swings blocks = record {
      settled = λ h. absurd (ground arith);
      positioned = refl;
      capped = omega arith;
      balanced = refl;
      traced = refl;
    }

    from_parts-IsValid :
        (m15 h4 d1 : Option TimeframeAggregator) (swings : Option StructureTracker)
        (blocks : Option OrderBlockTracker) (e : SmcEngine Pr)
        → from_parts profile cfg m15 h4 d1 swings blocks ≡ some e
        → IsValid cfg e
    from_parts-IsValid none h4 d1 swings blocks e h = absurd (ground arith)
    from_parts-IsValid (some m15) none d1 swings blocks e h = absurd (ground arith)
    from_parts-IsValid (some m15) (some h4) none swings blocks e h = absurd (ground arith)
    from_parts-IsValid (some m15) (some h4) (some d1) none blocks e h = absurd (ground arith)
    from_parts-IsValid (some m15) (some h4) (some d1) (some swings) none e h = absurd (ground arith)
    from_parts-IsValid (some m15) (some h4) (some d1) (some swings) (some blocks) e h =
        subst (IsValid cfg) (some-injective _ _ h) (assemble-IsValid m15 h4 d1 swings blocks)

    new-IsValid : (e : SmcEngine Pr) → new profile cfg ≡ some e → IsValid cfg e
    unfolding new
    new-IsValid e h = from_parts-IsValid _ _ _ _ _ e h

    -- A new engine, and the engine after each call of `on_candle` and `force_flat`.
    pub data Reach : SmcEngine Pr → Type 0 where
      start : {e : SmcEngine Pr} → new profile cfg ≡ some e → Reach e
      bar : {e : SmcEngine Pr} → Reach e → (c : Candle) → Reach (on_candle profile cfg c e).1
      flat : {e : SmcEngine Pr} → Reach e → (ts : ℕ) → Reach (force_flat ts e).1

    pub Reach-IsValid : {e : SmcEngine Pr} → Reach e → IsValid cfg e
    Reach-IsValid (start h) = new-IsValid _ h
    Reach-IsValid (bar r c) = on_candle-IsValid c _ (Reach-IsValid r)
    Reach-IsValid (flat r ts) = force_flat-IsValid cfg ts _ (Reach-IsValid r)

    -- On every reachable engine there is a position exactly in BREAKOUT, the ENTRY signals emitted so
    -- far are as many as the EXIT signals, and one more while a position is open, and the transitions
    -- lead from IDLE to the current state along the edges arm, disarm, entry and exit.
    pub Reach-consistent :
        {e : SmcEngine Pr}
        → Reach e
        → (is_some e.position ≡ is_breakout e.state)
          × (entries e.emitted ≡ exits e.emitted + (if is_breakout e.state then 1 else 0))
          × IsTrace e.emitted e.state
    Reach-consistent r = let v = Reach-IsValid r in (v.positioned, v.balanced, v.traced)
