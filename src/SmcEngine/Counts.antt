-- ===== src/SmcEngine/Counts.antt =====
-- That a decision counts the trades that it makes.
use freq_trading.Base.{
  ℕ, ◌+◌, ◌≡◌, inl, inr, Bool, true, false, if◌then◌else◌, Option, none, some, List, [], ◌∷◌, ◌++◌,
  arith, length, ltb, leb, Bool-cases,
}
use freq_trading.Num.{Float}
use freq_trading.Models.{
  Candle, Direction, Confluence, poi, PoiSource, PositionState, is_idle, is_range_defined,
}
use freq_trading.Structure.Defs.{StructureEvent}
use freq_trading.Smc.Config.{SmcConfig}
use freq_trading.Smc.Blocks.{OrderBlock, OrderBlockTracker, poi_at}
use freq_trading.Engine.Invariant.{entries}
use freq_trading.SmcEngine.State.{SmcEngine, Profile, emit_transition, emit_signal}
use freq_trading.SmcEngine.Checks.{check_sweep, fired_checks, htf_bias}
use freq_trading.SmcEngine.Entry.{
  found_h4, found_d1, resolve_poi, commit, enter, conclude, confluence, structural_stop, Found,
  bad_distance,
}
use freq_trading.SmcEngine.Step.{stand_down, stand_up, decide, on_decision}

module _ ⦃fl : Float⦄ (cfg : SmcConfig) {Pr : Type 0} (date opened traded : ℕ) where
  open fl use {Carrier, sub, abs}

  -- on the date, the count of trades has grown since `traded` as the ENTRY signals since `opened`
  abbrev pub InStep : SmcEngine Pr → Type 0
  InStep e = (e.cur_date ≡ some date) × (entries e.emitted + traded ≡ opened + e.traded_today)

  if-InStep :
      {A : Type 0} (b : Bool) (x y : A × SmcEngine Pr)
      → InStep x.1
      → InStep y.1
      → InStep (if b then x else y).1
  if-InStep true x y h k = h
  if-InStep false x y h k = k

  found_h4-InStep :
      (r : Option OrderBlock × OrderBlockTracker) (e : SmcEngine Pr)
      → InStep e
      → InStep (found_h4 r e).1
  found_h4-InStep (none, t) e v = v
  found_h4-InStep (some ob, t) e v = v

  found_d1-InStep :
      (c : Candle) (bias : Direction) (r : Option OrderBlock × OrderBlockTracker) (e : SmcEngine Pr)
      → InStep e
      → InStep (found_d1 c bias r e).1
  found_d1-InStep c bias (none, t) e v =
      found_h4-InStep (poi_at c.low c.high bias e.ob_h4) (record e { ob_d1 = t }) v
  found_d1-InStep c bias (some ob, t) e v = v

  resolve_poi-InStep :
      (profile : Profile Pr) (c : Candle) (bias : Direction) (e : SmcEngine Pr)
      → InStep e
      → InStep (resolve_poi profile cfg c bias e).1
  unfolding resolve_poi
  resolve_poi-InStep profile c bias e v =
      ground (arith, found_d1-InStep c bias (poi_at c.low c.high bias e.ob_d1) e v)

  commit-InStep :
      (c : Candle) (d : Direction) (fired : List Confluence) (source : PoiSource) (stop : Carrier)
      (e : SmcEngine Pr)
      → InStep e
      → InStep (commit c d fired source stop e).1
  unfolding commit emit_transition emit_signal
  commit-InStep c d fired source stop e (t, n) = (t, omega (arith, n))

  enter-InStep :
      (c : Candle) (d : Direction) (fired : List Confluence) (source : PoiSource)
      (ob : Option OrderBlock) (swept : Option Carrier) (e : SmcEngine Pr)
      → InStep e
      → InStep (enter cfg c d fired source ob swept e).1
  unfolding enter
  enter-InStep c d fired source ob swept e v =
      let stop = structural_stop cfg d c ob swept in
      if-InStep (bad_distance cfg (abs (sub c.close stop))) (none, e)
        (commit c d fired source stop e) v (commit-InStep c d fired source stop e v)

  conclude-InStep :
      (c : Candle) (bias : Direction) (fired : List Confluence) (swept : Option Carrier)
      (r : Found × SmcEngine Pr)
      → InStep r.1
      → InStep (conclude cfg c bias fired swept r).1
  unfolding conclude
  conclude-InStep c bias fired swept (none, e) v = v
  conclude-InStep c bias fired swept (some (source, ob), e) v =
      let all = fired ++ (poi ∷ []) in
      if-InStep (ltb (length all) cfg.min_confluences) (none, e)
        (enter cfg c bias all source ob swept e) v (enter-InStep c bias all source ob swept e v)

  confluence-InStep :
      (profile : Profile Pr) (c : Candle) (event : Option StructureEvent) (bias : Direction)
      (e : SmcEngine Pr)
      → InStep e
      → InStep (confluence profile cfg c event bias e).1
  unfolding confluence
  confluence-InStep profile c event bias e v =
      let fired = fired_checks profile cfg c event bias e in
      let r = resolve_poi profile cfg c bias e in
      if-InStep (ltb (length fired + 1) cfg.min_confluences) (none, e)
        (conclude cfg c bias fired (check_sweep c bias e) r) v
        (conclude-InStep c bias fired (check_sweep c bias e) r
          (resolve_poi-InStep profile c bias e v))

  stand_down-InStep : (ts : ℕ) (e : SmcEngine Pr) → InStep e → InStep (stand_down ts e)
  unfolding stand_down emit_transition
  stand_down-InStep ts e (t, n) = elim (Bool-cases (is_idle e.state)) [
    | inl i ↦ rw i (t, n)
    | inr i ↦ rw i (t, omega (arith, n))
  ]

  stand_up-InStep : (ts : ℕ) (e : SmcEngine Pr) → InStep e → InStep (stand_up ts e)
  unfolding stand_up emit_transition
  stand_up-InStep ts e (t, n) = elim (Bool-cases (is_range_defined e.state)) [
    | inl i ↦ rw i (t, n)
    | inr i ↦ rw i (t, omega (arith, n))
  ]

  decide-InStep :
      (profile : Profile Pr) (c : Candle) (event : Option StructureEvent)
      (pos : Option PositionState) (bias : Option Direction) (e : SmcEngine Pr)
      → InStep e
      → InStep (decide profile cfg c event pos bias e).1
  unfolding decide
  decide-InStep profile c event (some pos) bias e v = v
  decide-InStep profile c event none none e v = stand_down-InStep c.ts.micros e v
  decide-InStep profile c event none (some bias) e v =
      let f = stand_up c.ts.micros e in
      let u = stand_up-InStep c.ts.micros e v in
      if-InStep (leb cfg.max_trades_per_day f.traded_today) (none, f)
        (confluence profile cfg c event bias f) u (confluence-InStep profile c event bias f u)

  pub on_decision-InStep :
      (profile : Profile Pr) (c : Candle) (event : Option StructureEvent) (e : SmcEngine Pr)
      → InStep e
      → InStep (on_decision profile cfg c event e).1
  unfolding on_decision
  on_decision-InStep profile c event e v = decide-InStep profile c event e.position (htf_bias e) e v
