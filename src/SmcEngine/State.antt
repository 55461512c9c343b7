-- ===== src/SmcEngine/State.antt =====
-- The fields of `SmcEngine`, the profile it uses, and its small state changes. A method takes the
-- engine and returns its result with the engine as it is left, also after an exception.
use freq_trading.Base.{ℕ, Bool, Option, none, some, List, [], ◌∷◌}
use freq_trading.Num.{Float}
use freq_trading.Models.{
  State, idle, breakout, range_defined, Event, exit_broker, Signal, SignalKind, exit, PositionState,
  Result, ok, err, Candle, Direction, Reason, closed_by, broker_closed,
}
use freq_trading.Indicators.{WilderAtr, VolumeSma, new_atr, new_vsma}
use freq_trading.Structure.Defs.{StructureTracker, new_tracker}
use freq_trading.Mtf.Defs.{TimeframeAggregator, new_aggregator}
use freq_trading.Smc.Config.{SmcConfig}
use freq_trading.Smc.Blocks.{OrderBlockTracker, new_blocks}
use freq_trading.Engine.State.{Emission, transition, signal}

module _ ⦃fl : Float⦄ where
  open fl use {Carrier, add, quot, lit}

  -- what the strategy reads of `ProfileLevels`
  pub record Levels : Type 0 where
    pub poc : Carrier
    pub vah : Carrier
    pub val : Carrier

  pub record PriorProfile : Type 0 where
    pub session_id : ℕ
    pub poc : Carrier
    pub vah : Carrier
    pub val : Carrier

  -- The volume profile as the strategy uses it; `fresh` is a new one for the configuration.
  pub record Profile (Pr : Type 0) : Type 0 where
    pub fresh : SmcConfig → Pr
    pub update : Candle → Pr → Pr
    pub ready : Pr → Bool
    pub poc : Pr → Option Carrier
    pub levels : Pr → Option Levels

  -- `emitted` has the newest first.
  pub record SmcEngine (Pr : Type 0) : Type 0 where
    pub agg_m15 : TimeframeAggregator
    pub agg_h4 : TimeframeAggregator
    pub agg_d1 : TimeframeAggregator
    pub struct_m15 : StructureTracker
    pub struct_h4 : StructureTracker
    pub struct_d1 : StructureTracker
    pub ob_h4 : OrderBlockTracker
    pub ob_d1 : OrderBlockTracker
    pub atr : WilderAtr
    pub vsma : VolumeSma
    pub day_profile : Pr
    pub prior : Option PriorProfile
    pub m15_hist : List Candle
    pub prior_h4_high : Option Carrier
    pub prior_h4_low : Option Carrier
    pub state : State
    pub position : Option PositionState
    pub last_ts : Option ℕ
    pub traded_today : ℕ
    pub cur_date : Option ℕ
    pub emitted : List Emission

  module _ {Pr : Type 0} (profile : Profile Pr) (cfg : SmcConfig) where
    -- the fields of a new engine
    unfoldable pub assemble :
        (m15 h4 d1 : TimeframeAggregator) → StructureTracker → OrderBlockTracker → SmcEngine Pr
    assemble m15 h4 d1 swings blocks = record {
      agg_m15 = m15;
      agg_h4 = h4;
      agg_d1 = d1;
      struct_m15 = swings;
      struct_h4 = swings;
      struct_d1 = swings;
      ob_h4 = blocks;
      ob_d1 = blocks;
      atr = new_atr cfg.atr_period;
      vsma = new_vsma cfg.vol_sma_period;
      day_profile = profile.fresh cfg;
      prior = none;
      m15_hist = [];
      prior_h4_high = none;
      prior_h4_low = none;
      state = idle;
      position = none;
      last_ts = none;
      traded_today = 0;
      cur_date = none;
      emitted = [];
    }

    -- the constructor raises where the constructor of a part does
    abbrev pub from_parts :
        (m15 h4 d1 : Option TimeframeAggregator)
        → Option StructureTracker
        → Option OrderBlockTracker
        → Option (SmcEngine Pr)
    from_parts none h4 d1 swings blocks = none
    from_parts (some m15) none d1 swings blocks = none
    from_parts (some m15) (some h4) none swings blocks = none
    from_parts (some m15) (some h4) (some d1) none blocks = none
    from_parts (some m15) (some h4) (some d1) (some swings) none = none
    from_parts (some m15) (some h4) (some d1) (some swings) (some blocks) =
        some (assemble m15 h4 d1 swings blocks)

    -- `SmcEngine(config)`; none where a part of it raises
    unfoldable pub new : Option (SmcEngine Pr)
    new =
        from_parts (new_aggregator cfg.trigger_tf_min) (new_aggregator cfg.htf_min)
          (new_aggregator cfg.d1_min) (new_tracker cfg.swing_lookback cfg.max_swings)
          (new_blocks cfg.disp_body_frac cfg.disp_atr_mult cfg.ob_confirm_bars cfg.max_blocks
            cfg.ob_expiry_bars cfg.atr_period)

    -- what was emitted survives a reset
    abbrev pub keep_emitted : List Emission → Option (SmcEngine Pr) → Option (SmcEngine Pr)
    keep_emitted xs none = none
    keep_emitted xs (some f) = some (record f { emitted = xs })

    -- `reset`; none where a part of it raises
    unfoldable pub reset : SmcEngine Pr → Option (SmcEngine Pr)
    unfolding new
    reset e = keep_emitted e.emitted new

  -- the signal that `_emit` builds
  abbrev pub signal_of :
      ℕ
      → SignalKind
      → Direction
      → Carrier
      → State
      → State
      → Reason
      → (stop atr : Option Carrier) → (bars_held : ℕ) → Signal
  signal_of ts kind direction price a b reason stop atr bars_held = record {
    ts = ts;
    kind = kind;
    direction = direction;
    price = price;
    state_from = a;
    state_to = b;
    reason = reason;
    range_high = none;
    range_low = none;
    roc = none;
    rvol = none;
    atr = atr;
    stop = stop;
    tp = none;
    qty = none;
    bars_held = some bars_held;
  }

  -- the signal of `force_flat`
  abbrev pub flat_signal : ℕ → PositionState → Signal
  flat_signal ts pos =
      signal_of ts exit pos.direction pos.stop breakout range_defined (closed_by broker_closed)
        (some pos.stop) none pos.bars_held

  abbrev pub M : Type 0 → Type 0 → Type 0
  M Pr A = SmcEngine Pr → Result A × SmcEngine Pr

  module _ {Pr : Type 0} where
    abbrev pub and_then :
        {A B : Type 0}
        → Result A × SmcEngine Pr
        → (A → SmcEngine Pr → Result B × SmcEngine Pr)
        → Result B × SmcEngine Pr
    and_then (ok a, e) f = f a e
    and_then (err x, e) f = (err x, e)

    -- `_transition`
    unfoldable pub emit_transition : ℕ → State → State → Event → SmcEngine Pr → SmcEngine Pr
    emit_transition ts a b ev e = record e {
      emitted =
          transition (record { ts = ts; state_from = a; state_to = b; event = ev }) ∷ e.emitted;
    }

    -- the call of `_on_signal`
    unfoldable pub emit_signal : Signal → SmcEngine Pr → SmcEngine Pr
    emit_signal s e = record e { emitted = signal s ∷ e.emitted }

    -- `force_flat` with the position that it reads
    unfoldable pub flatten : ℕ → Option PositionState → SmcEngine Pr → Option Signal × SmcEngine Pr
    unfolding emit_transition emit_signal
    flatten ts none e = (none, e)
    flatten ts (some pos) e =
        let f = emit_transition ts breakout range_defined exit_broker e in
        let sig = flat_signal ts pos in
        (some sig, record (emit_signal sig f) { position = none; state = range_defined })

    -- `force_flat`
    unfoldable pub force_flat : ℕ → SmcEngine Pr → Option Signal × SmcEngine Pr
    unfolding flatten
    force_flat ts e = flatten ts e.position e
