-- ===== src/Engine/Sound/Bars.antt =====
-- The dispatch, the resets and `on_candle` on a valid engine.
use freq_trading.Base.{ℕ, ◌≡◌, refl, true, false, Option, none, some, arith, is_some}
use freq_trading.Num.{Float}
use freq_trading.Models.{
  State, idle, range_defined, breakout, exit_state, is_breakout, OrbConfig, Result, ok, err, Candle,
  session_end, gap_invalidate,
}
use freq_trading.Models.Sanity.{validate_cases}
use freq_trading.Indicators.{update_atr, absorb, update_roc, update_vsma}
use freq_trading.Session.{SessionInfo, classify}
use freq_trading.Engine.State.{
  Engine, emit_transition, clear_range, build_indicators, reset_for_new_session, some_signal,
}
use freq_trading.Engine.Exit.{exit_position}
use freq_trading.Engine.Step.{
  restart_range, abandon_range, rebuild_after_gap, handle_gap_reset, feed_indicators, handle,
  process, new_session, tear_down, check_gap, route, on_candle, stamp, or_process,
}
use freq_trading.Engine.Invariant.{IsValid, IsSound}
use freq_trading.Engine.Sound.Ranges.{on_idle-IsValid, on_range_defined-IsSound}
use freq_trading.Engine.Sound.Exits.{exit_position-IsSound, on_breakout-IsSound}

module _ ⦃fl : Float⦄ (cfg : OrbConfig) where
  open fl use {Carrier}

  handle-IsSound :
      (s : State) (c : Candle) (i : SessionInfo) (e : Engine)
      → IsValid e
      → e.state ≡ s
      → is_some e.session_id ≡ true
      → IsSound (handle cfg s c i e)
  unfolding handle
  handle-IsSound idle c i e v h q = (refl, on_idle-IsValid cfg c i e v h q)
  handle-IsSound range_defined c i e v h q = on_range_defined-IsSound cfg c i e v h
  handle-IsSound breakout c i e v h q = on_breakout-IsSound cfg c e v (rw h refl)
  handle-IsSound exit_state c i e v h q = absurd (v.settled h)

  -- Feeding keeps the invariant: an ATR that has a value keeps one.
  feed_indicators-IsSound :
      (c : Candle) (i : SessionInfo) (e : Engine)
      → IsValid e
      → IsSound (feed_indicators cfg c i e)
        × ((feed_indicators cfg c i e).1.session_id ≡ e.session_id)
  unfolding feed_indicators update_atr absorb update_roc update_vsma
  feed_indicators-IsSound c i e v = ground arith

  process-IsSound :
      (c : Candle) (i : SessionInfo) (e : Engine)
      → IsValid e
      → is_some e.session_id ≡ true
      → IsSound (process cfg c i e)
  unfolding process
  process-IsSound c i e v q = ground (
    arith,
    feed_indicators-IsSound c i e v,
    handle-IsSound (feed_indicators cfg c i e).1.state c i (feed_indicators cfg c i e).1,
  )

  or_process-IsSound :
      (c : Candle) (i : SessionInfo) (r : Result (Option _) × Engine)
      → IsSound r
      → is_some r.1.session_id ≡ true
      → IsSound (or_process cfg c i r)
  or_process-IsSound c i (err x, e) h q = h
  or_process-IsSound c i (ok (some s), e) h q = h
  or_process-IsSound c i (ok none, e) h q = process-IsSound c i e h.1 q

  -- The half of a reset that follows the exit, on an engine without a position.
  rebuild_after_gap-IsValid :
      (c : Candle) (e : Engine)
      → IsValid e
      → is_breakout e.state ≡ false
      → is_some e.session_id ≡ true
      → IsValid (rebuild_after_gap cfg c e)
        × (is_some (rebuild_after_gap cfg c e).session_id ≡ true)
  unfolding rebuild_after_gap restart_range abandon_range build_indicators clear_range
      emit_transition
  rebuild_after_gap-IsValid c e v h q = ground arith

  reset_for_new_session-IsValid :
      (n ts : ℕ) (e : Engine)
      → IsValid e
      → is_breakout e.state ≡ false
      → IsValid (reset_for_new_session cfg n ts e)
        × (is_some (reset_for_new_session cfg n ts e).session_id ≡ true)
  unfolding reset_for_new_session build_indicators clear_range emit_transition
  reset_for_new_session-IsValid n ts e v h = ground arith

  stamp-IsValid : (c : Candle) (e : Engine) → IsValid e → IsValid (stamp cfg c e)
  stamp-IsValid c e v = ground arith

  handle_gap_reset-IsSound :
      (c : Candle) (e : Engine)
      → IsValid e
      → is_some e.session_id ≡ true
      → IsSound (handle_gap_reset cfg c e)
        × (is_some (handle_gap_reset cfg c e).1.session_id ≡ true)
  unfolding handle_gap_reset
  handle_gap_reset-IsSound c e v q = ground (
    arith,
    exit_position-IsSound cfg c gap_invalidate idle none e v,
    rebuild_after_gap-IsValid c e v,
    rebuild_after_gap-IsValid c (some_signal (exit_position cfg c gap_invalidate idle none e)).1,
  )

  new_session-IsSound :
      (c : Candle) (i : SessionInfo) (e : Engine)
      → IsValid e
      → IsSound (new_session cfg c i e) × (is_some (new_session cfg c i e).1.session_id ≡ true)
  unfolding new_session
  new_session-IsSound c i e v =
      let left = (some_signal (exit_position cfg c session_end idle none e)).1 in
      ground (
        arith,
        exit_position-IsSound cfg c session_end idle none e v,
        reset_for_new_session-IsValid i.session_id c.ts.micros e v,
        reset_for_new_session-IsValid i.session_id c.ts.micros left,
        stamp-IsValid c (reset_for_new_session cfg i.session_id c.ts.micros e),
        stamp-IsValid c (reset_for_new_session cfg i.session_id c.ts.micros left),
      )

  tear_down-IsSound : (c : Candle) (e : Engine) → IsValid e → IsSound (tear_down cfg c e)
  unfolding tear_down clear_range emit_transition
  tear_down-IsSound c e v = ground (arith, exit_position-IsSound cfg c session_end idle none e v)

  check_gap-IsSound :
      (c : Candle) (e : Engine)
      → IsValid e
      → is_some e.session_id ≡ true
      → IsSound (check_gap cfg c e) × (is_some (check_gap cfg c e).1.session_id ≡ true)
  unfolding check_gap
  check_gap-IsSound c e v q = ground (arith, handle_gap_reset-IsSound c e v q)

  route-IsSound :
      (c : Candle) (i : SessionInfo) (e : Engine) → IsValid e → IsSound (route cfg c i e)
  unfolding route
  route-IsSound c i e v = ground (
    arith,
    or_process-IsSound c i (new_session cfg c i e),
    new_session-IsSound c i e v,
    or_process-IsSound c i (check_gap cfg c e),
    check_gap-IsSound c e v,
    tear_down-IsSound c (stamp cfg c e) (stamp-IsValid c e v),
  )

  -- Whatever bar arrives, a valid engine stays valid, and the call raises at most the errors that
  -- the engine documents: no operand is None, no assertion fails.
  pub on_candle-IsSound : (c : Candle) (e : Engine) → IsValid e → IsSound (on_candle cfg c e)
  unfolding on_candle
  on_candle-IsSound c e v =
      ground (arith, validate_cases c, route-IsSound c (classify cfg c.ts.micros) e v)
