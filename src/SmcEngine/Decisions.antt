-- ===== src/SmcEngine/Decisions.antt =====
-- That a decision and `force_flat` keep the strategy valid.
use freq_trading.Base.{
  ℕ, ◌+◌, ◌<◌, ◌≡◌, refl, Bool, true, false, ◌++◌, ◌∙◌, if◌then◌else◌, subst, sym, Option, none,
  some, List, [], ◌∷◌, arith, is_some, length, ltb, leb, Bool-cases, inl, inr,
}
use freq_trading.Num.{Float}
use freq_trading.Models.{
  arm, disarm, idle, range_defined, is_range_defined, is_idle, Candle, Direction, Confluence, poi,
  PoiSource, PositionState,
}
use freq_trading.Structure.Defs.{StructureEvent}
use freq_trading.Smc.Config.{SmcConfig}
use freq_trading.Smc.Blocks.{OrderBlock, OrderBlockTracker, poi_at}
use freq_trading.SmcEngine.State.{
  SmcEngine, Profile, emit_transition, emit_signal, flatten, force_flat,
}
use freq_trading.SmcEngine.Checks.{check_sweep, fired_checks, htf_bias}
use freq_trading.SmcEngine.Entry.{
  found_h4, found_d1, resolve_poi, commit, enter, conclude, confluence, structural_stop, Found,
  bad_distance,
}
use freq_trading.SmcEngine.Step.{stand_down, stand_up, decide, on_decision}
use freq_trading.SmcEngine.Invariant.{
  leaves_armed, leaves_idle, is_breakout-eq, Fits, moved, IsValid, IsSame, IsSame-IsValid,
}

module _ ⦃fl : Float⦄ (cfg : SmcConfig) {Pr : Type 0} where
  open fl use {Carrier}

  found_h4-IsSame :
      (r : Option OrderBlock × OrderBlockTracker) (e : SmcEngine Pr) → IsSame cfg e (found_h4 r e).1
  found_h4-IsSame (none, t) e = ground arith
  found_h4-IsSame (some ob, t) e = ground arith

  found_d1-IsSame :
      (c : Candle) (bias : Direction) (r : Option OrderBlock × OrderBlockTracker) (e : SmcEngine Pr)
      → IsSame cfg e (found_d1 c bias r e).1
  found_d1-IsSame c bias (none, t) e =
      let s = found_h4-IsSame (poi_at c.low c.high bias e.ob_h4) (record e { ob_d1 = t }) in
      record {
        state = s.state;
        position = s.position;
        traded_today = s.traded_today;
        emitted = s.emitted;
      }
  found_d1-IsSame c bias (some ob, t) e = ground arith

  resolve_poi-IsSame :
      (profile : Profile Pr) (c : Candle) (bias : Direction) (e : SmcEngine Pr)
      → IsSame cfg e (resolve_poi profile cfg c bias e).1
  unfolding resolve_poi
  resolve_poi-IsSame profile c bias e =
      ground (arith, found_d1-IsSame c bias (poi_at c.low c.high bias e.ob_d1) e)

  -- an engine that may enter
  pub record MayEnter (e : SmcEngine Pr) : Type 0 where
    pub armed : e.state ≡ range_defined
    pub below : e.traded_today < cfg.max_trades_per_day

  commit-IsValid :
      (c : Candle) (d : Direction) (fired : List Confluence) (source : PoiSource) (stop : Carrier)
      (e : SmcEngine Pr)
      → IsValid cfg e
      → MayEnter e
      → IsValid cfg (commit c d fired source stop e).1
  unfolding commit emit_transition emit_signal
  commit-IsValid c d fired source stop e v m =
      let w : Fits cfg.max_trades_per_day range_defined (is_some e.position) e.traded_today
          e.emitted =
        subst (λ x. Fits cfg.max_trades_per_day x (is_some e.position) e.traded_today e.emitted)
          m.armed v in
      record {
        settled = λ h. absurd (ground arith);
        positioned = refl;
        capped = m.below;
        balanced = let b = w.balanced in omega arith;
        traced = (refl, refl, w.traced);
      }

  pub if-IsValid :
      {A : Type 0} (b : Bool) (x y : A × SmcEngine Pr)
      → IsValid cfg x.1
      → IsValid cfg y.1
      → IsValid cfg (if b then x else y).1
  if-IsValid true x y h k = h
  if-IsValid false x y h k = k

  enter-IsValid :
      (c : Candle) (d : Direction) (fired : List Confluence) (source : PoiSource)
      (ob : Option OrderBlock) (swept : Option Carrier) (e : SmcEngine Pr)
      → IsValid cfg e
      → MayEnter e
      → IsValid cfg (enter cfg c d fired source ob swept e).1
  unfolding enter
  enter-IsValid c d fired source ob swept e v m =
      let stop = structural_stop cfg d c ob swept in
      if-IsValid (bad_distance cfg (fl.abs (fl.sub c.close stop))) (none, e)
        (commit c d fired source stop e) v (commit-IsValid c d fired source stop e v m)

  conclude-IsValid :
      (c : Candle) (bias : Direction) (fired : List Confluence) (swept : Option Carrier)
      (r : Found × SmcEngine Pr)
      → IsValid cfg r.1
      → MayEnter r.1
      → IsValid cfg (conclude cfg c bias fired swept r).1
  unfolding conclude
  conclude-IsValid c bias fired swept (none, e) v m = v
  conclude-IsValid c bias fired swept (some (source, ob), e) v m =
      let all = fired ++ (poi ∷ []) in
      if-IsValid (ltb (length all) cfg.min_confluences) (none, e)
        (enter cfg c bias all source ob swept e) v (enter-IsValid c bias all source ob swept e v m)

  confluence-IsValid :
      (profile : Profile Pr) (c : Candle) (event : Option StructureEvent) (bias : Direction)
      (e : SmcEngine Pr)
      → IsValid cfg e
      → MayEnter e
      → IsValid cfg (confluence profile cfg c event bias e).1
  unfolding confluence
  confluence-IsValid profile c event bias e v m =
      let fired = fired_checks profile cfg c event bias e in
      let r = resolve_poi profile cfg c bias e in
      let s = resolve_poi-IsSame profile c bias e in
      if-IsValid (ltb (length fired + 1) cfg.min_confluences) (none, e)
        (conclude cfg c bias fired (check_sweep c bias e) r) v
        (conclude-IsValid c bias fired (check_sweep c bias e) r (IsSame-IsValid cfg e r.1 s v)
          (record {
            armed = s.state ∙ m.armed;
            below = subst (λ n. n < cfg.max_trades_per_day) (sym s.traded_today) m.below;
          }))

  stand_down-IsValid :
      (ts : ℕ) (e : SmcEngine Pr)
      → is_some e.position ≡ false
      → IsValid cfg e
      → IsValid cfg (stand_down ts e)
  unfolding stand_down emit_transition
  stand_down-IsValid ts e h v = elim (Bool-cases (is_idle e.state)) [
    | inl i ↦ rw i v
    | inr i ↦ rw i (
        moved cfg.max_trades_per_day e.state idle (is_some e.position) e.traded_today e.emitted ts
          disarm v h (leaves_armed e.state v.settled (sym v.positioned ∙ h) i) refl)
  ]

  stand_up-IsValid :
      (ts : ℕ) (e : SmcEngine Pr)
      → is_some e.position ≡ false
      → IsValid cfg e
      → IsValid cfg (stand_up ts e) × ((stand_up ts e).state ≡ range_defined)
  unfolding stand_up emit_transition
  stand_up-IsValid ts e h v = elim (Bool-cases (is_range_defined e.state)) [
    | inl i ↦ rw i (v, ground arith)
    | inr i ↦ rw i (
      moved cfg.max_trades_per_day e.state range_defined (is_some e.position) e.traded_today
          e.emitted ts arm v h (leaves_idle e.state v.settled (sym v.positioned ∙ h) i) refl,
      refl,
    )
  ]

  decide-IsValid :
      (profile : Profile Pr) (c : Candle) (event : Option StructureEvent)
      (pos : Option PositionState) (bias : Option Direction) (e : SmcEngine Pr)
      → is_some e.position ≡ is_some pos
      → IsValid cfg e
      → IsValid cfg (decide profile cfg c event pos bias e).1
  unfolding decide
  decide-IsValid profile c event (some pos) bias e h v = v
  decide-IsValid profile c event none none e h v = stand_down-IsValid c.ts.micros e h v
  decide-IsValid profile c event none (some bias) e h v =
      let f = stand_up c.ts.micros e in
      let (u, a) = stand_up-IsValid c.ts.micros e h v in
      elim (Bool-cases (leb cfg.max_trades_per_day f.traded_today)) [
        | inl b ↦ rw b u
        | inr b ↦ rw b (
            confluence-IsValid profile c event bias f u
              (record { armed = a; below = ground arith }))
      ]

  pub on_decision-IsValid :
      (profile : Profile Pr) (c : Candle) (event : Option StructureEvent) (e : SmcEngine Pr)
      → IsValid cfg e
      → IsValid cfg (on_decision profile cfg c event e).1
  unfolding on_decision
  on_decision-IsValid profile c event e v =
      decide-IsValid profile c event e.position (htf_bias e) e refl v

  flatten-IsValid :
      (ts : ℕ) (o : Option PositionState) (e : SmcEngine Pr)
      → is_some e.position ≡ is_some o
      → IsValid cfg e
      → IsValid cfg (flatten ts o e).1
  unfolding flatten emit_transition emit_signal
  flatten-IsValid ts none e h v = v
  flatten-IsValid ts (some pos) e h v =
      let a = is_breakout-eq e.state (sym v.positioned ∙ h) in
      let w =
        subst (λ x. Fits cfg.max_trades_per_day x (is_some e.position) e.traded_today e.emitted) a
          v in
      record {
        settled = λ x. absurd (ground arith);
        positioned = refl;
        capped = w.capped;
        balanced = let b = w.balanced in omega arith;
        traced = (refl, refl, w.traced);
      }

  pub force_flat-IsValid :
      (ts : ℕ) (e : SmcEngine Pr) → IsValid cfg e → IsValid cfg (force_flat ts e).1
  unfolding force_flat
  force_flat-IsValid ts e v = flatten-IsValid ts e.position e refl v
