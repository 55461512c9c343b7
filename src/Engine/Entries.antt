-- ===== src/Engine/Entries.antt =====
-- When a bar opens a position.
use freq_trading.Base.{
  ◌≡◌, ◌⊎◌, refl, sym, subst, inl, inr, Bool, true, false, Option, none, some, arith, Bool-cases,
  not, ◌||◌,
}
use freq_trading.Num.{Float}
use freq_trading.Models.{
  State, idle, range_defined, breakout, exit_state, is_breakout, OrbConfig, Result, ok, err, Candle,
  Direction, long, short, PositionState, Signal,
}
use freq_trading.Indicators.{roc_value}
use freq_trading.Session.{SessionInfo, classify}
use freq_trading.Engine.State.{
  Engine, emit_transition, emit_signal, clear_range, build_indicators, reset_for_new_session,
}
use freq_trading.Engine.Exit.{on_breakout}
use freq_trading.Engine.Entry.{
  gate, roc_passes, rvol_passes, momentum, breakout_direction, allowed, open_position, judge,
  judged, check_breakout, opened,
}
use freq_trading.Engine.Step.{
  lock_range, maybe_lock, open_range, on_idle, extend_range, build_range, armed_bar,
  on_range_defined, feed_indicators, handle, process, new_session, tear_down, check_gap,
  handle_gap_reset, gap_resets, restart_range, abandon_range, rebuild_after_gap, route, on_candle,
  stamp, or_process,
}
use freq_trading.Engine.Runs.{Reach, Reach-IsValid}

module _ ⦃fl : Float⦄ where
  open fl use {Carrier, lt, le, neg}

  -- the close lies outside the range, on the side of the direction
  abbrev pub beyond : Direction → Carrier → Option Carrier → Option Carrier → Bool
  beyond long close (some hi) lo = lt hi close
  beyond short close hi (some lo) = lt close lo
  beyond _ _ _ _ = false

  -- the rate of change reaches the threshold in the direction
  abbrev pub roc_confirms : Direction → Carrier → Result (Option Carrier) → Bool
  roc_confirms long least (ok (some r)) = le least r
  roc_confirms short least (ok (some r)) = le r (neg least)
  roc_confirms _ _ _ = false

  -- The engine `e` took the position `p` on the bar `c`, and is `f` after it.
  pub record IsEntry (cfg : OrbConfig) (c : Candle) (e f : Engine) (p : PositionState)
      : Type 0 where
    pub armed : e.state ≡ range_defined
    pub at_close : p.entry_price ≡ c.close
    pub outside : beyond p.direction c.close e.range_hi e.range_lo ≡ true
    pub permitted : allowed cfg p.direction ≡ true
    pub measured : f.atr.atr ≡ some p.atr_at_entry
    pub confirmed :
        (not cfg.use_roc || roc_confirms p.direction cfg.roc_min (roc_value f.roc)) ≡ true

  module _ (cfg : OrbConfig) where
    judged-IsEntry :
        (c : Candle) (d : Direction) (e : Engine) {p : PositionState}
        → e.pos ≡ none
        → e.state ≡ range_defined
        → beyond d c.close e.range_hi e.range_lo ≡ true
        → allowed cfg d ≡ true
        → (judged cfg c d (momentum cfg c d e)).1.pos ≡ some p
        → IsEntry cfg c e (judged cfg c d (momentum cfg c d e)).1 p
    unfolding momentum gate roc_passes rvol_passes judge open_position opened emit_transition
        emit_signal
    judged-IsEntry c long e n s b a h = ground arith
    judged-IsEntry c short e n s b a h = ground arith

    check_breakout-IsEntry :
        (c : Candle) (e : Engine) {p : PositionState}
        → e.pos ≡ none
        → e.state ≡ range_defined
        → (check_breakout cfg c e).1.pos ≡ some p
        → IsEntry cfg c e (check_breakout cfg c e).1 p
    unfolding check_breakout breakout_direction
    check_breakout-IsEntry c e {p} n s h =
        ground (arith, judged-IsEntry c long e {p = p} n s, judged-IsEntry c short e {p = p} n s)

    armed_bar-IsEntry :
        (c : Candle) (i : SessionInfo) (e : Engine) {p : PositionState}
        → e.pos ≡ none
        → e.state ≡ range_defined
        → (armed_bar cfg c i e).1.pos ≡ some p
        → IsEntry cfg c e (armed_bar cfg c i e).1 p
    unfolding armed_bar lock_range emit_transition
    armed_bar-IsEntry c i e {p} n s h = ground (
      arith,
      check_breakout-IsEntry c e {p = p} n s,
      check_breakout-IsEntry c (lock_range cfg c e) {p = p} n s,
    )

    build_range-pos : (c : Candle) (e : Engine) → (build_range cfg c e).1.pos ≡ e.pos
    unfolding build_range extend_range maybe_lock lock_range emit_transition
    build_range-pos c e = ground arith

    on_idle-pos : (c : Candle) (i : SessionInfo) (e : Engine) → (on_idle cfg c i e).pos ≡ e.pos
    unfolding on_idle open_range maybe_lock lock_range emit_transition
    on_idle-pos c i e = ground arith

    on_range_defined-IsEntry :
        (c : Candle) (i : SessionInfo) (e : Engine) {p : PositionState}
        → e.pos ≡ none
        → e.state ≡ range_defined
        → (on_range_defined cfg c i e).1.pos ≡ some p
        → IsEntry cfg c e (on_range_defined cfg c i e).1 p
    unfolding on_range_defined
    on_range_defined-IsEntry c i e {p} n s h =
        ground (arith, build_range-pos c e, armed_bar-IsEntry c i e {p = p} n s)

    handle-IsEntry :
        (t : State) (c : Candle) (i : SessionInfo) (e : Engine) {p : PositionState}
        → e.state ≡ t
        → e.pos ≡ none
        → (handle cfg t c i e).1.pos ≡ some p
        → IsEntry cfg c e (handle cfg t c i e).1 p
    unfolding handle on_breakout
    handle-IsEntry idle c i e s n h = absurd (let q = on_idle-pos c i e in ground arith)
    handle-IsEntry range_defined c i e s n h = on_range_defined-IsEntry c i e n s h
    handle-IsEntry breakout c i e s n h = absurd (ground arith)
    handle-IsEntry exit_state c i e s n h = absurd (ground arith)

    feed_indicators-same :
        (c : Candle) (i : SessionInfo) (e : Engine)
        → let f = (feed_indicators cfg c i e).1 in
          (f.pos ≡ e.pos)
          × (f.state ≡ e.state)
          × (f.range_hi ≡ e.range_hi)
          × (f.range_lo ≡ e.range_lo)
          × (f.rebuild ≡ e.rebuild)
          × (f.range_locked ≡ e.range_locked)
    unfolding feed_indicators
    feed_indicators-same c i e = ground arith

    process-IsEntry :
        (c : Candle) (i : SessionInfo) (e : Engine) {p : PositionState}
        → e.pos ≡ none
        → (process cfg c i e).1.pos ≡ some p
        → IsEntry cfg c e (process cfg c i e).1 p
    unfolding process
    process-IsEntry c i e {p} n h =
        let f = (feed_indicators cfg c i e).1 in
        ground (arith, feed_indicators-same c i e, handle-IsEntry f.state c i f {p = p} refl)

    -- an engine that cannot enter on this bar: idle, or about to rebuild its range
    abbrev IsUnarmed : Engine → Type 0
    IsUnarmed e =
        (e.pos ≡ none) × ((e.state ≡ idle) ⊎ ((e.rebuild ≡ true) × (e.range_locked ≡ false)))

    process-pos_unarmed :
        (c : Candle) (i : SessionInfo) (e : Engine) → IsUnarmed e → (process cfg c i e).1.pos ≡ none
    unfolding process handle on_range_defined on_breakout
    process-pos_unarmed c i e u =
        let f = (feed_indicators cfg c i e).1 in
        ground (arith, feed_indicators-same c i e, build_range-pos c f, on_idle-pos c i f)

    or_process-pos_unarmed :
        (c : Candle) (i : SessionInfo) (r : Result (Option Signal) × Engine)
        → IsUnarmed r.1
        → (or_process cfg c i r).1.pos ≡ none
    or_process-pos_unarmed c i (err x, e) u = u.0
    or_process-pos_unarmed c i (ok (some s), e) u = u.0
    or_process-pos_unarmed c i (ok none, e) u = process-pos_unarmed c i e u

    new_session-IsUnarmed :
        (c : Candle) (i : SessionInfo) (e : Engine)
        → e.pos ≡ none
        → is_breakout e.state ≡ false
        → IsUnarmed (new_session cfg c i e).1
    unfolding new_session reset_for_new_session
    new_session-IsUnarmed c i e n s = ground arith

    handle_gap_reset-IsUnarmed :
        (c : Candle) (e : Engine)
        → e.pos ≡ none
        → is_breakout e.state ≡ false
        → IsUnarmed (handle_gap_reset cfg c e).1
    unfolding handle_gap_reset rebuild_after_gap restart_range abandon_range build_indicators
        clear_range emit_transition
    handle_gap_reset-IsUnarmed c e n s = ground arith

    check_gap-cases :
        (c : Candle) (e : Engine)
        → e.pos ≡ none
        → is_breakout e.state ≡ false
        → IsUnarmed (check_gap cfg c e).1 ⊎ (check_gap cfg c e ≡ (ok none, stamp cfg c e))
    unfolding check_gap
    check_gap-cases c e n s = elim (Bool-cases (gap_resets cfg c e.last_ts)) [
      | inl g ↦ inl (rw g (let u = handle_gap_reset-IsUnarmed c e n s in ground arith))
      | inr g ↦ inr (rw g refl)
    ]

    check_gap-IsEntry :
        (c : Candle) (i : SessionInfo) (e : Engine) {p : PositionState}
        → e.pos ≡ none
        → is_breakout e.state ≡ false
        → (or_process cfg c i (check_gap cfg c e)).1.pos ≡ some p
        → IsEntry cfg c e (or_process cfg c i (check_gap cfg c e)).1 p
    check_gap-IsEntry c i e {p} n s h = elim (check_gap-cases c e n s) [
      | inl u ↦ absurd (let q = or_process-pos_unarmed c i (check_gap cfg c e) u in ground arith)
      | inr q ↦
          let E =
            λ (r : Result (Option Signal) × Engine). IsEntry cfg c e (or_process cfg c i r).1 p in
          let k = process-IsEntry c i (stamp cfg c e) {p = p} n (rw q at h) in
          subst E (sym q) (ground (arith, k))
    ]

    route-IsEntry :
        (c : Candle) (i : SessionInfo) (e : Engine) {p : PositionState}
        → e.pos ≡ none
        → is_breakout e.state ≡ false
        → (route cfg c i e).1.pos ≡ some p
        → IsEntry cfg c e (route cfg c i e).1 p
    unfolding route tear_down clear_range emit_transition
    route-IsEntry c i e {p} n s h = ground (
      arith,
      or_process-pos_unarmed c i (new_session cfg c i e) (new_session-IsUnarmed c i e n s),
      check_gap-IsEntry c i e {p = p} n s,
    )

    -- A bar opens a position only from an armed range, at its close, in an allowed direction, with
    -- the close strictly outside the range, an ATR that is ready and, where the gate is on, a rate
    -- of change that reaches the threshold in that direction.
    pub on_candle-IsEntry :
        (c : Candle) {e : Engine} {p : PositionState}
        → Reach cfg e
        → e.pos ≡ none
        → (on_candle cfg c e).1.pos ≡ some p
        → IsEntry cfg c e (on_candle cfg c e).1 p
    unfolding on_candle
    on_candle-IsEntry c {e} {p} r n h =
        let v = (Reach-IsValid cfg r).positioned in
        ground (arith, route-IsEntry c (classify cfg c.ts.micros) e {p = p} n)
