-- ===== src/SvpEngine/State.antt =====
-- The fields of `SvpEngine`, and the methods that change them without a decision. A method takes the
-- engine and returns its result with the engine as it is left.
use freq_trading.Base.{
  ℕ, ◌-◌, Bool, if◌then◌else◌, ◌&&◌, Option, none, some, List, [], ◌∷◌, ltb, leb,
}
use freq_trading.Num.{Float, zero_float}
use freq_trading.Num.Fixed.{ℤ}
use freq_trading.Models.{
  State, idle, breakout, range_defined, Event, exit_broker, session_reset, Signal, SignalKind, exit,
  PositionState, Direction, Reason, closed_by, broker_closed,
}
use freq_trading.Indicators.{WilderAtr, VolumeSma, new_atr, new_vsma}
use freq_trading.Engine.State.{Emission, transition, signal}
use freq_trading.Svp.Swings.{SwingStructure}
use freq_trading.Profile.Histogram.{VolumeProfile}
use freq_trading.Profile.Nodes.{ProfileLevels, Shape, levels}
use freq_trading.SvpEngine.Config.{SvpConfig, svp_row_size}

module _ ⦃fl : Float⦄ where
  open fl use {Carrier}

  pub record SvpPrior : Type 0 where
    pub session_id : ℕ
    pub poc : Carrier
    pub vah : Carrier
    pub val : Carrier
    pub shape : Shape

  -- `emitted` has the newest first.
  pub record SvpEngine : Type 0 where
    pub developing : VolumeProfile
    pub vsma : VolumeSma
    pub atr : WilderAtr
    pub swing : SwingStructure
    pub session_open_px : Option Carrier
    pub state : State
    pub position : Option PositionState
    pub prior : Option SvpPrior
    pub traded : ℕ
    pub prev_close : Option Carrier
    pub last_ts : Option ℕ
    pub session_id : Option ℕ
    pub emitted : List Emission

  -- `_transition`
  unfoldable pub emit_transition : ℕ → State → State → Event → SvpEngine → SvpEngine
  emit_transition ts a b ev e = record e {
    emitted = transition (record { ts = ts; state_from = a; state_to = b; event = ev }) ∷ e.emitted;
  }

  -- the signal that `_emit` builds
  abbrev pub svp_signal :
      ℕ
      → SignalKind
      → Direction
      → Carrier
      → State
      → State
      → Reason
      → (stop range_high range_low : Option Carrier) → (bars_held : ℕ) → Signal
  svp_signal ts kind direction price a b reason stop range_high range_low bars_held = record {
    ts = ts;
    kind = kind;
    direction = direction;
    price = price;
    state_from = a;
    state_to = b;
    reason = reason;
    range_high = range_high;
    range_low = range_low;
    roc = none;
    rvol = none;
    atr = none;
    stop = stop;
    tp = none;
    qty = none;
    bars_held = some bars_held;
  }

  -- the call of `_on_signal`
  unfoldable pub emit_signal : Signal → SvpEngine → SvpEngine
  emit_signal s e = record e { emitted = signal s ∷ e.emitted }

  -- an exit of the position at a price to a state
  unfoldable pub leave :
      ℕ → Event → Reason → Carrier → State → PositionState → SvpEngine → Signal × SvpEngine
  unfolding emit_transition emit_signal
  leave ts event reason price to_state pos e =
      let f = emit_transition ts breakout to_state event e in
      let sig =
        svp_signal ts exit pos.direction price breakout to_state reason (some pos.stop) none none
          pos.bars_held in
      (sig, record (emit_signal sig f) { position = none; state = to_state })

  -- `force_flat` with the position that it reads
  unfoldable pub go_flat : ℕ → Option PositionState → SvpEngine → Option Signal × SvpEngine
  unfolding leave
  go_flat ts none e = (none, e)
  go_flat ts (some pos) e =
      let r = leave ts exit_broker (closed_by broker_closed) pos.stop range_defined pos e in
      (some r.0, r.1)

  -- `force_flat`
  unfoldable pub force_flat : ℕ → SvpEngine → Option Signal × SvpEngine
  unfolding go_flat
  force_flat ts e = go_flat ts e.position e

  -- `_new_profile`
  unfoldable pub session_profile : SvpConfig → VolumeProfile
  session_profile k = record {
    row_size = svp_row_size k;
    value_area_pct = k.value_area_pct;
    hvn_frac = k.hvn_frac;
    lvn_frac = k.lvn_frac;
    min_bars = k.min_session_bars;
    max_rows_per_bar = k.max_rows_per_bar;
    tiebreak_up = k.tiebreak_up;
    i_max_peak = k.i_max_peak;
    tpo_fallback = k.tpo_fallback;
    anchor = none;
    hist = [];
    span = none;
    total = zero_float;
    bars = 0;
  }

  -- `SwingStructure(swing_lookback)`, which the checks of the configuration let through
  abbrev pub fresh_swings : SvpConfig → SwingStructure
  fresh_swings k = record {
    lookback = k.swing_lookback;
    highs = [];
    lows = [];
    swing_highs = [];
    swing_lows = [];
  }

  -- `SvpEngine(config)`, for a configuration that passes its checks
  unfoldable pub new : SvpConfig → SvpEngine
  unfolding session_profile
  new k = record {
    developing = session_profile k;
    vsma = new_vsma k.absorb_lookback;
    atr = new_atr k.atr_period;
    swing = fresh_swings k;
    session_open_px = none;
    state = idle;
    position = none;
    prior = none;
    traded = 0;
    prev_close = none;
    last_ts = none;
    session_id = none;
    emitted = [];
  }

  -- `reset`
  unfoldable pub reset : SvpConfig → SvpEngine → SvpEngine
  unfolding new
  reset k e = record (new k) { emitted = e.emitted }

  -- `_gap_ok`, of the days that name the sessions
  abbrev pub gap_ok : (prev_id new_id : ℕ) → Bool
  gap_ok prev_id new_id = ltb prev_id new_id && leb (new_id - prev_id) 3

  module _ (floor_int : Carrier → ℤ) (of_int : ℤ → Carrier) (of_count : ℕ → Carrier) where
    -- the profile that a session leaves to the next one
    unfoldable pub carry_prior : (prev_id new_id : ℕ) → Option ProfileLevels → Option SvpPrior
    carry_prior prev_id new_id none = none
    carry_prior prev_id new_id (some lv) =
        if gap_ok prev_id new_id
        then some (record {
          session_id = prev_id;
          poc = lv.poc;
          vah = lv.vah;
          val = lv.val;
          shape = lv.shape;
        })
        else none

    -- the part of `_roll_session` for a session that came before
    unfoldable pub close_session : Option ℕ → (new_id ts : ℕ) → SvpEngine → SvpEngine
    unfolding carry_prior emit_transition levels
    close_session none new_id ts e = e
    close_session (some prev_id) new_id ts e =
        emit_transition ts e.state idle session_reset (record e {
          prior = carry_prior prev_id new_id (levels floor_int of_int of_count e.developing);
        })

    -- `_roll_session`
    unfoldable pub roll_session : SvpConfig → (new_id ts : ℕ) → SvpEngine → SvpEngine
    unfolding close_session session_profile
    roll_session k new_id ts e = record (close_session e.session_id new_id ts e) {
      developing = session_profile k;
      vsma = new_vsma k.absorb_lookback;
      atr = new_atr k.atr_period;
      swing = fresh_swings k;
      session_open_px = none;
      state = idle;
      position = none;
      traded = 0;
      prev_close = none;
      session_id = some new_id;
    }
