-- ===== src/SmcEngine/Step.antt =====
-- `SmcEngine.on_candle` and the decision on a completed bar of the trigger timeframe.
use freq_trading.Base.{
  List, [], ◌∷◌, ◌++◌, ℕ, suc, ◌/◌, Bool, false, if◌then◌else◌, Option, none, some, leb, ◌==◌,
}
use freq_trading.Num.{Float, zero_float}
use freq_trading.Models.{
  Candle, validate, Direction, idle, is_idle, range_defined, is_range_defined, arm, disarm, Signal,
  PositionState, Result, ok, err, out_of_order_error,
}
use freq_trading.Indicators.{WilderAtr, VolumeSma, update_atr, update_vsma, append_bounded}
use freq_trading.Session.{day}
use freq_trading.Structure.Defs.{StructureEvent, update_structure}
use freq_trading.Mtf.Defs.{update_aggregator}
use freq_trading.Smc.Config.{SmcConfig}
use freq_trading.Smc.Blocks.{update_blocks}
use freq_trading.SmcEngine.State.{
  SmcEngine, Profile, PriorProfile, Levels, M, and_then, emit_transition,
}
use freq_trading.SmcEngine.Checks.{htf_bias}
use freq_trading.SmcEngine.Entry.{confluence}

module _ ⦃fl : Float⦄ {Pr : Type 0} where
  open fl use {Carrier, lt}

  -- what is done with the completed candle of a timeframe, if there is one
  abbrev pub completed : {A : Type 0} → A → (Candle → M Pr A) → Option Candle → M Pr A
  completed a f none e = (ok a, e)
  completed a f (some bar) e = f bar e

  -- without a bias the engine is disarmed
  unfoldable pub stand_down : ℕ → SmcEngine Pr → SmcEngine Pr
  unfolding emit_transition
  stand_down ts e =
      if is_idle e.state
      then e
      else record (emit_transition ts e.state idle disarm e) { state = idle }

  -- with one it is armed
  unfoldable pub stand_up : ℕ → SmcEngine Pr → SmcEngine Pr
  unfolding emit_transition
  stand_up ts e =
      if is_range_defined e.state
      then e
      else record (emit_transition ts e.state range_defined arm e) { state = range_defined }

  module _ (profile : Profile Pr) (cfg : SmcConfig) where
    -- `_on_decision` with the position and the bias
    unfoldable pub decide :
        Candle
        → Option StructureEvent
        → Option PositionState
        → Option Direction
        → SmcEngine Pr
        → Option Signal × SmcEngine Pr
    unfolding stand_down stand_up confluence
    decide c event (some pos) bias e = (none, e)
    decide c event none none e = (none, stand_down c.ts.micros e)
    decide c event none (some bias) e =
        let f = stand_up c.ts.micros e in
        if leb cfg.max_trades_per_day f.traded_today
        then (none, f)
        else confluence profile cfg c event bias f

    -- `_on_decision`
    unfoldable pub on_decision :
        Candle → Option StructureEvent → SmcEngine Pr → Option Signal × SmcEngine Pr
    unfolding decide htf_bias
    on_decision c event e = decide c event e.position (htf_bias e) e

    -- the updates of the two indicators
    abbrev pub with_atr : Result WilderAtr → M Pr (Unit {0})
    with_atr (ok w) e = (ok tt, record e { atr = w })
    with_atr (err x) e = (err x, e)

    abbrev pub with_vsma : Result VolumeSma → M Pr (Unit {0})
    with_vsma (ok w) e = (ok tt, record e { vsma = w })
    with_vsma (err x) e = (err x, e)

    -- the decision on a bar, which then joins the history
    unfoldable pub decide_and_keep : Candle → Option StructureEvent → M Pr (Option Signal)
    unfolding on_decision
    decide_and_keep c event e =
        let r = on_decision c event e in
        (ok r.0, record (r.1) { m15_hist = append_bounded 3 c r.1.m15_hist })

    -- the last part of `on_candle` on a completed bar of the trigger timeframe
    unfoldable pub m15_bar : Candle → M Pr (Option Signal)
    unfolding decide_and_keep
    m15_bar c e =
        let s = update_structure c e.struct_m15 in
        let e1 = record e { struct_m15 = s.1 } in
        and_then (with_atr (update_atr e1.atr c.high c.low c.close) e1) (λ _ e2.
          and_then
            (if lt zero_float c.volume
              then with_vsma (update_vsma e2.vsma c.volume) e2
              else (ok tt, e2))
            (λ _ e3. decide_and_keep c s.0 e3))

    -- the part of `on_candle` for the trigger timeframe
    unfoldable pub m15_stage : Candle → M Pr (Option Signal)
    unfolding m15_bar
    m15_stage c e =
        let a = update_aggregator c e.agg_m15 in
        completed none m15_bar a.0 (record e { agg_m15 = a.1 })

    -- a completed four hour bar
    unfoldable pub h4_bar : Candle → M Pr (Unit {0})
    h4_bar c e =
        let s = update_structure c e.struct_h4 in
        let b = update_blocks c s.0 e.ob_h4 in
        and_then (b.0, record e { struct_h4 = s.1; ob_h4 = b.1 })
          (λ _ f. (ok tt, record f { prior_h4_high = some c.high; prior_h4_low = some c.low }))

    unfoldable pub h4_stage : Candle → M Pr (Unit {0})
    unfolding h4_bar
    h4_stage c e =
        let a = update_aggregator c e.agg_h4 in completed tt h4_bar a.0 (record e { agg_h4 = a.1 })

    -- a completed bar of the day
    unfoldable pub d1_bar : Candle → M Pr (Unit {0})
    d1_bar c e =
        let s = update_structure c e.struct_d1 in
        let b = update_blocks c s.0 e.ob_d1 in (b.0, record e { struct_d1 = s.1; ob_d1 = b.1 })

    unfoldable pub d1_stage : Candle → M Pr (Unit {0})
    unfolding d1_bar
    d1_stage c e =
        let a = update_aggregator c e.agg_d1 in completed tt d1_bar a.0 (record e { agg_d1 = a.1 })

    -- `_snapshot_prior`
    unfoldable pub snapshot_prior : ℕ → Option Levels → Option PriorProfile
    snapshot_prior date none = none
    snapshot_prior date (some lv) =
        some (record { session_id = date; poc = lv.poc; vah = lv.vah; val = lv.val })

    -- the prior profile after a day that had begun
    abbrev pub carried_prior : Option ℕ → SmcEngine Pr → Option PriorProfile
    carried_prior none e = e.prior
    carried_prior (some date) e =
        if profile.ready e.day_profile
        then snapshot_prior date (profile.levels e.day_profile)
        else e.prior

    abbrev pub same_date : Option ℕ → ℕ → Bool
    same_date none d = false
    same_date (some date) d = date == d

    -- the roll over to a new day
    unfoldable pub roll_day : ℕ → SmcEngine Pr → SmcEngine Pr
    unfolding snapshot_prior
    roll_day d e = if same_date e.cur_date d then e else record e {
      prior = carried_prior e.cur_date e;
      day_profile = profile.fresh cfg;
      traded_today = 0;
      cur_date = some d;
    }

    -- one bar more for the open position
    abbrev pub aged : Option PositionState → Option PositionState
    aged none = none
    aged (some pos) = some (record pos { bars_held = suc pos.bars_held })

    unfoldable pub age_position : SmcEngine Pr → SmcEngine Pr
    age_position e = record e { position = aged e.position }

    -- `on_candle` after the ordering of the timestamps
    unfoldable pub process : Candle → M Pr (Option Signal)
    unfolding roll_day d1_stage h4_stage m15_stage age_position
    process c e =
        let f = roll_day (c.ts.micros / day) (record e { last_ts = some c.ts.micros }) in
        let g = record f { day_profile = profile.update c f.day_profile } in
        and_then (d1_stage c g) (λ _ g1.
          and_then (h4_stage c g1)
            (λ _ g2. and_then (m15_stage c g2) (λ sig g3. (ok sig, age_position g3))))

    -- the bar is not after the last one
    abbrev pub is_late : Option ℕ → ℕ → Bool
    is_late none ts = false
    is_late (some last) ts = leb ts last

    -- `on_candle` after the validation
    unfoldable pub accept : Result (Unit {0}) → Candle → M Pr (Option Signal)
    unfolding process
    accept (err x) c e = (err x, e)
    accept (ok _) c e =
        if is_late e.last_ts c.ts.micros
        then (if cfg.strict_monotonic then (err out_of_order_error, e) else (ok none, e))
        else process c e

    -- `on_candle`
    unfoldable pub on_candle : Candle → M Pr (Option Signal)
    unfolding accept
    on_candle c e = accept (validate c) c e

    -- the signals of `replay` so far, oldest first
    abbrev pub collect : Option Signal → List Signal → List Signal
    collect none out = out
    collect (some sig) out = out ++ (sig ∷ [])

    -- `replay` from the signals so far
    unfoldable pub replay_from : List Candle → List Signal → M Pr (List Signal)
    unfolding on_candle
    replay_from [] out e = (ok out, e)
    replay_from (c ∷ cs) out e =
        and_then (on_candle c e) (λ sig f. replay_from cs (collect sig out) f)

    -- `replay`
    unfoldable pub replay : List Candle → M Pr (List Signal)
    unfolding replay_from
    replay cs e = replay_from cs [] e
