-- ===== src/SmcEngine/Stages.antt =====
-- That the stages of a bar keep what a decision keeps of the state, of whether there is a position,
-- of the trades and the date of the day, and of what was emitted.
use freq_trading.Base.{
  Bool, true, false, List, ℕ, ◌≡◌, refl, if◌then◌else◌, subst, sym, Option, none, some, is_some,
}
use freq_trading.Num.{Float, zero_float}
use freq_trading.Models.{State, Candle, PositionState, Result, ok, err}
use freq_trading.Indicators.{WilderAtr, VolumeSma, update_atr, update_vsma}
use freq_trading.Structure.Defs.{StructureEvent, update_structure}
use freq_trading.Mtf.Defs.{update_aggregator}
use freq_trading.Smc.Config.{SmcConfig}
use freq_trading.Smc.Blocks.{update_blocks}
use freq_trading.Engine.State.{Emission}
use freq_trading.SmcEngine.State.{SmcEngine, Profile, M, and_then}
use freq_trading.SmcEngine.Step.{
  completed, with_atr, with_vsma, decide_and_keep, m15_bar, m15_stage, h4_bar, h4_stage, d1_bar,
  d1_stage, aged, age_position, on_decision,
}

module _ ⦃fl : Float⦄ (cfg : SmcConfig) {Pr : Type 0} (profile : Profile Pr)
    (P : State → Bool → ℕ → Option ℕ → List Emission → Type 0) where
  open fl use {Carrier, lt}

  abbrev pub Keeps : SmcEngine Pr → Type 0
  Keeps e = P e.state (is_some e.position) e.traded_today e.cur_date e.emitted

  module _
      (decides : (c : Candle) (event : Option StructureEvent) (e : SmcEngine Pr)
        → Keeps e
        → Keeps (on_decision profile cfg c event e).1) where
    and_then-Keeps :
        {A B : Type 0} (r : Result A × SmcEngine Pr)
        (f : A → SmcEngine Pr → Result B × SmcEngine Pr)
        → Keeps r.1
        → ((a : A) (e : SmcEngine Pr) → Keeps e → Keeps (f a e).1)
        → Keeps (and_then r f).1
    and_then-Keeps (ok a, e) f v g = g a e v
    and_then-Keeps (err x, e) f v g = v

    completed-Keeps :
        {A : Type 0} (a : A) (f : Candle → M Pr A) (o : Option Candle) (e : SmcEngine Pr)
        → Keeps e
        → ((c : Candle) → Keeps (f c e).1)
        → Keeps (completed a f o e).1
    completed-Keeps a f none e v g = v
    completed-Keeps a f (some c) e v g = g c

    if-Keeps :
        {A : Type 0} (b : Bool) (x y : A × SmcEngine Pr)
        → Keeps x.1
        → Keeps y.1
        → Keeps (if b then x else y).1
    if-Keeps true x y h k = h
    if-Keeps false x y h k = k

    with_atr-Keeps :
        (r : Result WilderAtr) (e : SmcEngine Pr) → Keeps e → Keeps (with_atr profile cfg r e).1
    with_atr-Keeps (ok w) e v = v
    with_atr-Keeps (err x) e v = v

    with_vsma-Keeps :
        (r : Result VolumeSma) (e : SmcEngine Pr) → Keeps e → Keeps (with_vsma profile cfg r e).1
    with_vsma-Keeps (ok w) e v = v
    with_vsma-Keeps (err x) e v = v

    decide_and_keep-Keeps :
        (c : Candle) (event : Option StructureEvent) (e : SmcEngine Pr)
        → Keeps e
        → Keeps (decide_and_keep profile cfg c event e).1
    unfolding decide_and_keep
    decide_and_keep-Keeps c event e v = decides c event e v

    m15_bar-Keeps : (c : Candle) (e : SmcEngine Pr) → Keeps e → Keeps (m15_bar profile cfg c e).1
    unfolding m15_bar
    m15_bar-Keeps c e v =
        let s = update_structure c e.struct_m15 in
        let e1 = record e { struct_m15 = s.1 } in
        and_then-Keeps (with_atr profile cfg (update_atr e1.atr c.high c.low c.close) e1) _
          (with_atr-Keeps (update_atr e1.atr c.high c.low c.close) e1 v)
          (λ _ e2 v2.
            and_then-Keeps
              (if lt zero_float c.volume
                then with_vsma profile cfg (update_vsma e2.vsma c.volume) e2
                else (ok tt, e2))
              (λ _ e3. decide_and_keep profile cfg c s.0 e3)
              (if-Keeps (lt zero_float c.volume)
                (with_vsma profile cfg (update_vsma e2.vsma c.volume) e2) (ok tt, e2)
                (with_vsma-Keeps (update_vsma e2.vsma c.volume) e2 v2) v2)
              (λ _ e3 v3. decide_and_keep-Keeps c s.0 e3 v3))

    m15_stage-Keeps :
        (c : Candle) (e : SmcEngine Pr) → Keeps e → Keeps (m15_stage profile cfg c e).1
    unfolding m15_stage
    m15_stage-Keeps c e v =
        let a = update_aggregator c e.agg_m15 in
        let f = record e { agg_m15 = a.1 } in
        completed-Keeps none (m15_bar profile cfg) a.0 f v (λ bar. m15_bar-Keeps bar f v)

    h4_bar-Keeps : (c : Candle) (e : SmcEngine Pr) → Keeps e → Keeps (h4_bar profile cfg c e).1
    unfolding h4_bar
    h4_bar-Keeps c e v =
        let s = update_structure c e.struct_h4 in
        let b = update_blocks c s.0 e.ob_h4 in
        and_then-Keeps (b.0, record e { struct_h4 = s.1; ob_h4 = b.1 })
          (λ _ f. (ok tt, record f { prior_h4_high = some c.high; prior_h4_low = some c.low })) v
          (λ _ f w. w)

    h4_stage-Keeps : (c : Candle) (e : SmcEngine Pr) → Keeps e → Keeps (h4_stage profile cfg c e).1
    unfolding h4_stage
    h4_stage-Keeps c e v =
        let a = update_aggregator c e.agg_h4 in
        let f = record e { agg_h4 = a.1 } in
        completed-Keeps tt (h4_bar profile cfg) a.0 f v (λ bar. h4_bar-Keeps bar f v)

    d1_stage-Keeps : (c : Candle) (e : SmcEngine Pr) → Keeps e → Keeps (d1_stage profile cfg c e).1
    unfolding d1_stage d1_bar
    d1_stage-Keeps c e v =
        let a = update_aggregator c e.agg_d1 in
        let f = record e { agg_d1 = a.1 } in
        completed-Keeps tt (d1_bar profile cfg) a.0 f v (λ bar. v)

    is_some-aged : (o : Option PositionState) → is_some (aged profile cfg o) ≡ is_some o
    is_some-aged none = refl
    is_some-aged (some pos) = refl

    age_position-Keeps : (e : SmcEngine Pr) → Keeps e → Keeps (age_position profile cfg e)
    unfolding age_position
    age_position-Keeps e v =
        subst (λ held. P e.state held e.traded_today e.cur_date e.emitted)
          (sym (is_some-aged e.position)) v

    -- a bar after the roll over to its day
    pub stages-Keeps :
        (c : Candle) (e : SmcEngine Pr)
        → Keeps e
        → Keeps
            (and_then (d1_stage profile cfg c e) (λ _ g1.
              and_then (h4_stage profile cfg c g1) (λ _ g2.
                and_then
                  (m15_stage profile cfg c g2)
                  (λ sig g3. (ok sig, age_position profile cfg g3))))).1
    stages-Keeps c e w =
        and_then-Keeps (d1_stage profile cfg c e) _ (d1_stage-Keeps c e w) (λ _ g1 v1.
          and_then-Keeps (h4_stage profile cfg c g1) _ (h4_stage-Keeps c g1 v1) (λ _ g2 v2.
            and_then-Keeps (m15_stage profile cfg c g2)
              (λ sig g3. (ok sig, age_position profile cfg g3)) (m15_stage-Keeps c g2 v2)
              (λ sig g3 v3. age_position-Keeps g3 v3)))
