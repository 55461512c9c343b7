-- ===== src/Engine/Exit.antt =====
-- Exits of `OrbEngine`: the stop distance, the tests of a position against a bar, the methods that
-- close a position, and `_on_breakout`.
use freq_trading.Base.{ℕ, ◌+◌, Bool, true, if◌then◌else◌, not, ◌&&◌, ◌||◌, Option, none, some}
use freq_trading.Num.{Float, zero_float, max, min}
use freq_trading.Models.{
  State, idle, range_defined, breakout, Direction, is_long, ExitReason, take_profit, trail_stop,
  broker_closed, range_reentry, session_end, gap_invalidate, exit, Reason, take_profit_partial,
  closed_by, Event, exit_tp, exit_trail, exit_reentry, exit_session, exit_gap, exit_broker,
  exit_tp_partial, rearm, trade_done, session_done, Signal, PositionState, OrbConfig, Result, ok,
  err, type_error, assertion_error, key_error, Candle, is_on_close, is_rebuild, is_range_defined,
  is_idle,
}
use freq_trading.Engine.State.{
  Engine, M, emit_transition, emit_signal, clear_range, configured_qty, just, some_signal,
}

-- the table of `_exit`, which has no entry for a close by the broker
abbrev pub exit_event : ExitReason → Option Event
exit_event take_profit = some exit_tp
exit_event trail_stop = some exit_trail
exit_event range_reentry = some exit_reentry
exit_event session_end = some exit_session
exit_event gap_invalidate = some exit_gap
exit_event broker_closed = none

abbrev pub done_event : ExitReason → Event
done_event session_end = session_done
done_event _ = trade_done

module _ ⦃fl : Float⦄ where
  open fl use {Carrier, lt, le}

  abbrev cap_above : Option Carrier → Carrier → Carrier
  cap_above none d = d
  cap_above (some m) d = min d m

  abbrev cap_below : Option Carrier → Carrier → Carrier
  cap_below none d = d
  cap_below (some m) d = max d m

  abbrev pub price_or : Option Carrier → Carrier → Carrier
  price_or none d = d
  price_or (some p) _ = p

  -- a comparison with an operand that may be None
  abbrev compare_opt : (Carrier → Carrier → Bool) → Carrier → Option Carrier → Result Bool
  compare_opt op x none = err type_error
  compare_opt op x (some y) = ok (op x y)

  abbrev ge : Carrier → Carrier → Bool
  ge a b = le b a

module _ ⦃fl : Float⦄ (cfg : OrbConfig) where
  open fl use {Carrier, lit, add, sub, mul, lt, le}

  -- `_stop_dist`
  unfoldable pub stop_dist : Carrier → Carrier
  stop_dist atr = cap_below cfg.stop_min_dist (cap_above cfg.stop_max_dist (mul cfg.atr_mult atr))

  -- `_post_exit_state`
  unfoldable pub post_exit_state : Engine → State
  post_exit_state e =
      if not cfg.one_trade_per_session
        && (cfg.rearm_after_exit && (is_rebuild cfg.rearm_range || e.range_locked))
      then range_defined
      else idle

  -- the re-arming at the end of `_exit` and `force_flat`
  unfoldable pub rearm_range_at : ℕ → Engine → Engine
  rearm_range_at ts e =
      let cleared = clear_range e in
      let f = if is_rebuild cfg.rearm_range then record cleared { rebuild = true } else e in
      emit_transition ts range_defined range_defined rearm f

  -- an EXIT signal of the position
  unfoldable pub exit_signal :
      ℕ → PositionState → Carrier → State → Reason → Option Carrier → Engine → Signal
  exit_signal ts p price to_state reason qty e = record {
    ts = ts;
    kind = exit;
    direction = p.direction;
    price = price;
    state_from = breakout;
    state_to = to_state;
    reason = reason;
    range_high = e.range_hi;
    range_low = e.range_lo;
    roc = none;
    rvol = none;
    atr = e.atr.atr;
    stop = some p.stop;
    tp = p.tp;
    qty = qty;
    bars_held = some p.bars_held;
  }

  -- the last part of `_exit`, once the position is gone
  unfoldable pub settle : ℕ → ExitReason → State → Engine → Engine
  settle ts reason to_state e =
      if is_idle to_state
      then emit_transition ts idle idle (done_event reason) e
      else rearm_range_at ts e

  -- `_exit` with the position and the event at hand
  unfoldable pub close_position :
      ℕ → PositionState → Event → ExitReason → State → Carrier → Engine → Signal × Engine
  close_position ts p ev reason to_state px e =
      let s = exit_signal ts p px to_state (closed_by reason) (configured_qty cfg) e in
      let f = emit_signal s (emit_transition ts breakout to_state ev e) in
      (s, settle ts reason to_state (record f { pos = none; state = to_state }))

  -- `_exit`
  unfoldable pub exit_position : Candle → ExitReason → State → Option Carrier → M Signal
  exit_position c reason to_state price e = elim e.pos [
    | none ↦ (err assertion_error, e)
    | some p ↦ elim (exit_event reason) [
      | none ↦ (err key_error, e)
      | some ev ↦ just (close_position c.ts.micros p ev reason to_state (price_or price c.close) e)
    ]
  ]

  -- `force_flat`
  unfoldable pub force_flat : ℕ → Engine → Option Signal × Engine
  force_flat ts e = elim e.pos [
    | none ↦ (none, e)
    | some p ↦
        let to_state = post_exit_state e in
        let s = exit_signal ts p p.stop to_state (closed_by broker_closed) (configured_qty cfg) e in
        let f = emit_signal s (emit_transition ts breakout to_state exit_broker e) in
        let g = record f { pos = none; state = to_state } in
        (some s, if is_range_defined to_state then rearm_range_at ts g else g)
  ]

  -- `_range_reentered`
  unfoldable pub range_reentered : Candle → Direction → Engine → Result Bool
  range_reentered c d e =
      if is_on_close cfg.reentry_on
      then if is_long d
        then compare_opt le c.close e.range_hi
        else compare_opt ge c.close e.range_lo
      else if is_long d
      then compare_opt le c.low e.range_hi
      else compare_opt ge c.high e.range_lo

  -- `_tp_hit` of a target that is set
  unfoldable pub tp_hit : Candle → Direction → Carrier → Bool
  tp_hit c d tp =
      if is_on_close cfg.reentry_on
      then if is_long d then le tp c.close else le c.close tp
      else if is_long d
      then le tp c.high
      else le c.low tp

  -- `_trail_hit`
  unfoldable pub trail_hit : Candle → PositionState → Bool
  trail_hit c p =
      if is_on_close cfg.reentry_on
      then if is_long p.direction then le c.close p.stop else le p.stop c.close
      else if is_long p.direction
      then le c.low p.stop
      else le p.stop c.high

  -- `_partial_tp`
  unfoldable pub partial_tp : Candle → PositionState → Carrier → Engine → Signal × Engine
  partial_tp c p price e =
      let closed = if lt zero_float cfg.qty then some (mul cfg.qty cfg.tp_close_frac) else none in
      let s = exit_signal c.ts.micros p price breakout take_profit_partial closed e in
      let f = emit_signal s (emit_transition c.ts.micros breakout breakout exit_tp_partial e) in
      (s, record f { pos = some (record p { tp = none }) })

  -- the count of bars and the excursions, which `_on_breakout` writes before it decides
  unfoldable pub track : Candle → PositionState → PositionState
  track c p =
      if is_long p.direction
      then record p {
        bars_held = p.bars_held + 1;
        mfe = max p.mfe (sub c.high p.entry_price);
        mae = max p.mae (sub p.entry_price c.low);
      }
      else record p {
        bars_held = p.bars_held + 1;
        mfe = max p.mfe (sub p.entry_price c.low);
        mae = max p.mae (sub c.high p.entry_price);
      }

  -- the ratchet: the stop follows the close, and never loosens
  unfoldable pub ratchet : Candle → PositionState → Carrier → PositionState
  ratchet c p dist =
      if is_long p.direction
      then record p { stop = max p.stop (sub c.close dist) }
      else record p { stop = min p.stop (add c.close dist) }

  -- the trail stop, and the ratchet where it is not hit
  unfoldable pub trail_step : Candle → PositionState → M (Option Signal)
  trail_step c p e =
      if trail_hit c p
      then some_signal (
          exit_position c trail_stop (post_exit_state e)
            (some (if is_on_close cfg.reentry_on then c.close else p.stop)) e)
      else elim e.atr.atr [
        | none ↦ (err type_error, e)
        | some a ↦ (ok none, record e { pos = some (ratchet c p (stop_dist a)) })
      ]

  -- a take profit that is hit: a partial close, or the exit
  unfoldable pub take_profit_exit : Candle → PositionState → Carrier → M (Option Signal)
  take_profit_exit c p tp e =
      let price = if is_on_close cfg.reentry_on then c.close else tp in
      if lt cfg.tp_close_frac (lit 1 0)
      then some_signal (just (partial_tp c p price e))
      else some_signal (exit_position c take_profit (post_exit_state e) (some price) e)

  -- the take profit, and what follows where there is none or it is not hit
  unfoldable pub take_profit_step : Candle → PositionState → M (Option Signal)
  take_profit_step c p e = elim p.tp [
    | none ↦ trail_step c p e
    | some tp ↦ if tp_hit c p.direction tp then take_profit_exit c p tp e else trail_step c p e
  ]

  -- `_on_breakout` after the bookkeeping: range re-entry, take profit, trail stop, ratchet
  unfoldable pub breakout_bar : Candle → PositionState → M (Option Signal)
  breakout_bar c p e = elim (range_reentered c p.direction e) [
    | err x ↦ (err x, e)
    | ok again ↦
        if again
        then some_signal (
            exit_position c range_reentry (post_exit_state e)
              (if is_on_close cfg.reentry_on
                then some c.close
                else if is_long p.direction
                then e.range_hi
                else e.range_lo)
              e)
        else take_profit_step c p e
  ]

  -- `_on_breakout`
  unfoldable pub on_breakout : Candle → M (Option Signal)
  on_breakout c e = elim e.pos [
    | none ↦ (err assertion_error, e)
    | some p ↦ breakout_bar c (track c p) (record e { pos = some (track c p) })
  ]
