-- ===== src/Engine/State.antt =====
-- The fields of `OrbEngine`, what it emits, and its small state changes. A method takes the engine
-- and returns its result with the engine as it is left, also after an exception.
use freq_trading.Base.{
  ℕ, Bool, false, if◌then◌else◌, not, ◌&&◌, ◌||◌, Option, none, some, List, [], ◌∷◌,
}
use freq_trading.Num.{Float, zero_float}
use freq_trading.Models.{
  State, idle, Event, StateTransition, Signal, PositionState, OrbConfig, Result, ok, err,
  session_reset,
}
use freq_trading.Indicators.{
  WilderAtr, Roc, VolumeSma, new_atr, new_roc, new_vsma, atr_ready, roc_ready, vsma_ready,
}

module _ ⦃fl : Float⦄ where
  open fl use {Carrier, lt}

  -- What the callbacks `on_transition` and `on_signal` receive.
  pub data Emission : Type 0 where
    transition : StateTransition → Emission
    signal : Signal → Emission

  -- `emitted` has the newest first.
  pub record Engine : Type 0 where
    pub atr : WilderAtr
    pub roc : Roc
    pub vsma : VolumeSma
    pub state : State
    pub range_hi : Option Carrier
    pub range_lo : Option Carrier
    pub range_bars : ℕ
    pub range_locked : Bool
    pub pos : Option PositionState
    pub rebuild : Bool
    pub traded_this_session : Bool
    pub last_ts : Option ℕ
    pub session_id : Option ℕ
    pub gate_disabled_logged : Bool
    pub emitted : List Emission

  abbrev pub M : Type 0 → Type 0
  M A = Engine → Result A × Engine

  -- `_transition`
  unfoldable pub emit_transition : ℕ → State → State → Event → Engine → Engine
  emit_transition ts a b ev e = record e {
    emitted = transition (record { ts = ts; state_from = a; state_to = b; event = ev }) ∷ e.emitted;
  }

  -- the call of `_on_signal`
  unfoldable pub emit_signal : Signal → Engine → Engine
  emit_signal s e = record e { emitted = signal s ∷ e.emitted }

  -- `_clear_range`
  unfoldable pub clear_range : Engine → Engine
  clear_range e = record e {
    range_hi = none;
    range_lo = none;
    range_bars = 0;
    range_locked = false;
  }

  -- whether `_state` is the given one
  abbrev pub in_state : (State → Bool) → Engine → Bool
  in_state is e = is e.state

  -- the result of a method that cannot raise, and a signal as an optional one
  abbrev pub just : {A B : Type 0} → A × B → Result A × B
  just (a, b) = (ok a, b)

  abbrev pub some_signal : Result Signal × Engine → Result (Option Signal) × Engine
  some_signal (ok s, e) = (ok (some s), e)
  some_signal (err x, e) = (err x, e)

  module _ (cfg : OrbConfig) where
    -- `OrbEngine(config)`
    unfoldable pub new : Engine
    new = record {
      atr = new_atr cfg.atr_period;
      roc = new_roc cfg.roc_period;
      vsma = new_vsma cfg.rvol_period;
      state = idle;
      range_hi = none;
      range_lo = none;
      range_bars = 0;
      range_locked = false;
      pos = none;
      rebuild = false;
      traded_this_session = false;
      last_ts = none;
      session_id = none;
      gate_disabled_logged = false;
      emitted = [];
    }

    -- `_build_indicators`
    unfoldable pub build_indicators : Engine → Engine
    build_indicators e = record e {
      atr = new_atr cfg.atr_period;
      roc = new_roc cfg.roc_period;
      vsma = new_vsma cfg.rvol_period;
    }

    -- `reset`
    unfoldable pub reset : Engine → Engine
    unfolding build_indicators clear_range
    reset e =
        let f = clear_range (build_indicators e) in
        record f {
          state = idle;
          pos = none;
          rebuild = false;
          traded_this_session = false;
          last_ts = none;
          session_id = none;
          gate_disabled_logged = false;
        }

    -- `_warm`
    unfoldable pub warm : Engine → Bool
    warm e =
        atr_ready e.atr
        && ((not cfg.use_roc || roc_ready e.roc) && (not cfg.use_rvol || vsma_ready e.vsma))

    -- `self.config.qty if self.config.qty > 0 else None`
    abbrev pub configured_qty : Option Carrier
    configured_qty = if lt zero_float cfg.qty then some cfg.qty else none

    -- the emission of `SESSION_RESET`, only where a session came before
    abbrev pub mark_session_end : Option ℕ → ℕ → Engine → Engine
    mark_session_end none ts e = e
    mark_session_end (some _) ts e = emit_transition ts e.state idle session_reset e

    -- `_reset_for_new_session`
    unfoldable pub reset_for_new_session : ℕ → ℕ → Engine → Engine
    unfolding build_indicators clear_range emit_transition
    reset_for_new_session new_id ts e =
        let f = clear_range (mark_session_end e.session_id ts (build_indicators e)) in
        record f {
          state = idle;
          pos = none;
          rebuild = false;
          traded_this_session = false;
          session_id = some new_id;
        }
