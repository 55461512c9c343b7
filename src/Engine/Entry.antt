-- ===== src/Engine/Entry.antt =====
-- Entries of `OrbEngine`: the breakout test, the momentum gate and the opening of a position.
use freq_trading.Base.{Bool, true, false, if◌then◌else◌, not, ◌&&◌, Option, none, some}
use freq_trading.Num.{Float, zero_float}
use freq_trading.Models.{
  State, range_defined, breakout, Direction, long, short, is_long, SignalKind, entry, reject,
  Reason, momentum_fail_roc, momentum_fail_rvol, breakout_of, Event, breakout_long, breakout_short,
  Signal, PositionState, OrbConfig, Result, ok, err, type_error, Candle,
}
use freq_trading.Indicators.{roc_value, vsma_value}
use freq_trading.Engine.State.{Engine, M, emit_transition, emit_signal, configured_qty}
use freq_trading.Engine.Exit.{stop_dist}

module _ ⦃fl : Float⦄ where
  open fl use {Carrier}

  -- what `_momentum` returns: the two values, and the reason if the gate fails
  pub record Momentum : Type 0 where
    pub roc : Option Carrier
    pub rvol : Option Carrier
    pub fail : Option Reason

module _ ⦃fl : Float⦄ (cfg : OrbConfig) where
  open fl use {Carrier, lit, add, sub, mul, quot, neg, abs, lt, le}

  -- the relative volume, 0.0 without a positive average
  unfoldable pub relative_volume : Candle → Option Carrier → Carrier
  relative_volume c none = zero_float
  relative_volume c (some sma) = if lt zero_float sma then quot c.volume sma else zero_float

  -- `self._roc.value if cfg.use_roc else None`
  abbrev pub current_roc : Engine → Result (Option Carrier)
  current_roc e = if cfg.use_roc then roc_value e.roc else ok none

  abbrev pub current_rvol : Candle → Engine → Option Carrier
  current_rvol c e = if cfg.use_rvol then some (relative_volume c (vsma_value e.vsma)) else none

  -- the rate of change against its threshold
  unfoldable pub roc_passes : Direction → Option Carrier → Result Bool
  roc_passes d none = if cfg.use_roc then err type_error else ok true
  roc_passes d (some r) =
      if cfg.use_roc
      then ok (if is_long d then le cfg.roc_min r else le r (neg cfg.roc_min))
      else ok true

  -- the relative volume against its threshold
  unfoldable pub rvol_passes : Option Carrier → Result Bool
  rvol_passes none = if cfg.use_rvol then err type_error else ok true
  rvol_passes (some r) = if cfg.use_rvol then ok (le cfg.rvol_min r) else ok true

  -- the two tests of `_momentum`, in their order
  unfoldable pub gate : Direction → Option Carrier → Option Carrier → Result Momentum
  gate d roc rvol = elim (roc_passes d roc) [
    | err x ↦ err x
    | ok false ↦ ok (record { roc = roc; rvol = rvol; fail = some momentum_fail_roc })
    | ok true ↦ elim (rvol_passes rvol) [
      | err x ↦ err x
      | ok false ↦ ok (record { roc = roc; rvol = rvol; fail = some momentum_fail_rvol })
      | ok true ↦ ok (record { roc = roc; rvol = rvol; fail = none })
    ]
  ]

  -- `_momentum`
  unfoldable pub momentum : Candle → Direction → M Momentum
  momentum c d e = elim (current_roc e) [
    | err x ↦ (err x, e)
    | ok roc ↦
        if not cfg.use_roc && not cfg.use_rvol
        then (
          ok (record { roc = roc; rvol = current_rvol c e; fail = none }),
          record e { gate_disabled_logged = true },
        )
        else (gate d roc (current_rvol c e), e)
  ]

  -- the direction of a close beyond the range
  unfoldable pub breakout_direction :
      Carrier → Option Carrier → Option Carrier → Result (Option Direction)
  breakout_direction close none lo = err type_error
  breakout_direction close (some hi) none = if lt hi close then ok (some long) else err type_error
  breakout_direction close (some hi) (some lo) =
      if lt hi close then ok (some long) else if lt close lo then ok (some short) else ok none

  abbrev pub allowed : Direction → Bool
  allowed long = cfg.allow_long
  allowed short = cfg.allow_short

  -- the signals of `_check_breakout`
  unfoldable pub entry_signal :
      Candle
      → SignalKind
      → Direction
      → State
      → Reason
      → Momentum
      → Option Carrier
      → Option Carrier
      → Engine
      → Signal
  entry_signal c kind d to_state reason m stop tp e = record {
    ts = c.ts.micros;
    kind = kind;
    direction = d;
    price = c.close;
    state_from = range_defined;
    state_to = to_state;
    reason = reason;
    range_high = e.range_hi;
    range_low = e.range_lo;
    roc = m.roc;
    rvol = m.rvol;
    atr = e.atr.atr;
    stop = stop;
    tp = tp;
    qty = configured_qty cfg;
    bars_held = elim kind [ entry ↦ some 0 | _ ↦ none ];
  }

  -- the take profit at `tp_rrr` times the initial risk
  unfoldable pub target : Direction → Carrier → Carrier → Option Carrier
  target d close stop = elim cfg.tp_rrr [
    | none ↦ none
    | some rrr ↦
        let risk = abs (sub stop close) in
        some (if is_long d then add close (mul rrr risk) else sub close (mul rrr risk))
  ]

  -- the position that a breakout opens
  unfoldable pub opened : Candle → Direction → Carrier → PositionState
  opened c d atr =
      let dist = stop_dist cfg atr in
      let stop = if is_long d then sub c.close dist else add c.close dist in
      record {
        direction = d;
        entry_ts = c.ts.micros;
        entry_price = c.close;
        stop = stop;
        atr_at_entry = atr;
        tp = target d c.close stop;
        bars_held = 0;
        mfe = zero_float;
        mae = zero_float;
      }

  abbrev pub breakout_event : Direction → Event
  breakout_event long = breakout_long
  breakout_event short = breakout_short

  -- the last part of `_check_breakout`: the simulated position
  unfoldable pub open_position : Candle → Direction → Momentum → Carrier → Engine → Signal × Engine
  open_position c d m atr e =
      let p = opened c d atr in
      let s = entry_signal c entry d breakout (breakout_of d) m (some p.stop) p.tp e in
      let f =
        emit_transition c.ts.micros range_defined breakout (breakout_event d)
          (record e { pos = some p; traded_this_session = true }) in
      (s, emit_signal s (record f { state = breakout }))

  -- `_check_breakout` once the gate has answered
  unfoldable pub judge : Candle → Direction → Momentum → M (Option Signal)
  judge c d m e = elim m.fail [
    | some why ↦
        let s = entry_signal c reject d range_defined why m none none e in
        (ok (some s), emit_signal s e)
    | none ↦ elim e.atr.atr [
      | none ↦ (err type_error, e)
      | some atr ↦ let (s, f) = open_position c d m atr e in (ok (some s), f)
    ]
  ]

  abbrev pub judged :
      Candle → Direction → Result Momentum × Engine → Result (Option Signal) × Engine
  judged c d (err x, e) = (err x, e)
  judged c d (ok m, e) = judge c d m e

  -- `_check_breakout`
  unfoldable pub check_breakout : Candle → M (Option Signal)
  check_breakout c e = elim (breakout_direction c.close e.range_hi e.range_lo) [
    | err x ↦ (err x, e)
    | ok none ↦ (ok none, e)
    | ok (some d) ↦ if not (allowed d) then (ok none, e) else judged c d (momentum c d e)
  ]
