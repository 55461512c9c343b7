-- ===== src/Engine/Stops.antt =====
-- What a bar does to an open position, over the whole of `on_candle`.
use freq_trading.Base.{
  ℕ, ◌≡◌, refl, sym, ◌∙◌, subst, inl, inr, true, if◌then◌else◌, Option, none, some, arith, is_some,
  Bool-cases,
}
use freq_trading.Num.{Float}
use freq_trading.Models.{
  breakout, OrbConfig, Result, ok, err, Candle, PositionState, Signal, session_end, gap_invalidate,
  idle, validate, out_of_order_error,
}
use freq_trading.Session.{SessionInfo, classify}
use freq_trading.Engine.State.{
  Engine, some_signal, emit_transition, clear_range, build_indicators, reset_for_new_session,
}
use freq_trading.Engine.Exit.{exit_position, track, breakout_bar, on_breakout}
use freq_trading.Engine.Step.{
  feed_indicators, handle, process, gap_resets, same_id, is_after, not_after, new_session,
  tear_down, check_gap, handle_gap_reset, route, on_candle, stamp, or_process, after_feed,
  rebuild_after_gap, restart_range, abandon_range,
}
use freq_trading.Engine.Runs.{Reach, Reach-IsValid}
use freq_trading.Engine.Trail.{
  Keeps, signalled, exit_position-pos, Continues-refl, breakout_bar-Keeps,
}

module _ ⦃fl : Float⦄ (cfg : OrbConfig) where
  open fl use {Carrier, le, is_finite}

  -- the bookkeeping of a bar leaves alone what `Continues` compares
  Keeps-track :
      (c : Candle) (p : PositionState) (o : Option PositionState)
      → Keeps (track cfg c p) o
      → Keeps p o
  unfolding track
  Keeps-track c p none k = tt
  Keeps-track c p (some q) k = ground arith

  finite-track :
      (c : Candle) (p : PositionState)
      → is_finite p.stop ≡ true
      → is_finite (track cfg c p).stop ≡ true
  unfolding track
  finite-track c p f = ground arith

  on_breakout-eq :
      (c : Candle) (p : PositionState) (e : Engine)
      → e.pos ≡ some p
      → on_breakout cfg c e
        ≡ breakout_bar cfg c (track cfg c p) (record e { pos = some (track cfg c p) })
  unfolding on_breakout
  on_breakout-eq c p e h = ground arith

  on_breakout-Keeps :
      (c : Candle) (p : PositionState) (e : Engine)
      → is_finite p.stop ≡ true
      → e.pos ≡ some p
      → Keeps p (on_breakout cfg c e).1.pos
  on_breakout-Keeps c p e f h = rw (on_breakout-eq c p e h) (
      Keeps-track c p _ (
        breakout_bar-Keeps cfg c (track cfg c p) (record e { pos = some (track cfg c p) })
          (finite-track c p f) refl))

  after_feed-Keeps :
      (c : Candle) (i : SessionInfo) (p : PositionState) (r : Result (Unit {0}) × Engine)
      → is_finite p.stop ≡ true
      → r.1.pos ≡ some p
      → r.1.state ≡ breakout
      → Keeps p (after_feed cfg c i r).1.pos
  unfolding handle
  after_feed-Keeps c i p (err x, e) f h s = subst (Keeps p) (sym h) (Continues-refl cfg p f)
  after_feed-Keeps c i p (ok _, e) f h s =
      subst (λ t. Keeps p (handle cfg t c i e).1.pos) (sym s) (on_breakout-Keeps c p e f h)

  feed_indicators-pos :
      (c : Candle) (i : SessionInfo) (e : Engine)
      → ((feed_indicators cfg c i e).1.pos ≡ e.pos)
        × ((feed_indicators cfg c i e).1.state ≡ e.state)
  unfolding feed_indicators
  feed_indicators-pos c i e = ground arith

  process-Keeps :
      (c : Candle) (i : SessionInfo) (p : PositionState) (e : Engine)
      → is_finite p.stop ≡ true
      → e.pos ≡ some p
      → e.state ≡ breakout
      → Keeps p (process cfg c i e).1.pos
  unfolding process
  process-Keeps c i p e f h s =
      let (q, t) = feed_indicators-pos c i e in
      after_feed-Keeps c i p (feed_indicators cfg c i e) f (q ∙ h) (t ∙ s)

  -- a signal that came with the end of the position is returned at once
  or_process-Keeps :
      (c : Candle) (i : SessionInfo) (p : PositionState) (r : Result (Option Signal) × Engine)
      → signalled r.0 ≡ true
      → r.1.pos ≡ none
      → Keeps p (or_process cfg c i r).1.pos
  or_process-Keeps c i p (err x, e) h q = cc
  or_process-Keeps c i p (ok none, e) h q = cc
  or_process-Keeps c i p (ok (some s), e) h q = subst (Keeps p) (sym q) tt

  rebuild_after_gap-pos : (c : Candle) (e : Engine) → (rebuild_after_gap cfg c e).pos ≡ e.pos
  unfolding rebuild_after_gap restart_range abandon_range build_indicators clear_range
      emit_transition
  rebuild_after_gap-pos c e = ground arith

  reset_for_new_session-pos :
      (n ts : ℕ) (e : Engine) → (reset_for_new_session cfg n ts e).pos ≡ none
  unfolding reset_for_new_session
  reset_for_new_session-pos n ts e = refl

  -- both resets close a position first, and hand its signal on
  new_session-closes :
      (c : Candle) (i : SessionInfo) (e : Engine)
      → is_some e.pos ≡ true
      → e.state ≡ breakout
      → (signalled (new_session cfg c i e).0 ≡ true) × ((new_session cfg c i e).1.pos ≡ none)
  unfolding new_session
  new_session-closes c i e h s =
      let left = (some_signal (exit_position cfg c session_end idle none e)).1 in
      ground (
        arith,
        exit_position-pos cfg c session_end idle none e h refl,
        reset_for_new_session-pos i.session_id c.ts.micros left,
      )

  handle_gap_reset-closes :
      (c : Candle) (e : Engine)
      → is_some e.pos ≡ true
      → e.state ≡ breakout
      → (signalled (handle_gap_reset cfg c e).0 ≡ true) × ((handle_gap_reset cfg c e).1.pos ≡ none)
  unfolding handle_gap_reset
  handle_gap_reset-closes c e h s =
      let left = (some_signal (exit_position cfg c gap_invalidate idle none e)).1 in
      ground (
        arith,
        exit_position-pos cfg c gap_invalidate idle none e h refl,
        rebuild_after_gap-pos c left,
      )

  check_gap-closes :
      (c : Candle) (e : Engine)
      → is_some e.pos ≡ true
      → e.state ≡ breakout
      → gap_resets cfg c e.last_ts ≡ true
      → (signalled (check_gap cfg c e).0 ≡ true) × ((check_gap cfg c e).1.pos ≡ none)
  unfolding check_gap
  check_gap-closes c e h s g = ground (arith, handle_gap_reset-closes c e h s)

  check_gap-Keeps :
      (c : Candle) (i : SessionInfo) (p : PositionState) (e : Engine)
      → is_finite p.stop ≡ true
      → e.pos ≡ some p
      → e.state ≡ breakout
      → Keeps p (or_process cfg c i (check_gap cfg c e)).1.pos
  unfolding check_gap
  check_gap-Keeps c i p e f h s = elim (Bool-cases (gap_resets cfg c e.last_ts)) [
    | inl g ↦
        let (q, n) = check_gap-closes c e (rw h refl) s g in
        or_process-Keeps c i p (check_gap cfg c e) q n
    | inr g ↦ rw g (process-Keeps c i p (stamp cfg c e) f h s)
  ]

  tear_down-Keeps :
      (c : Candle) (p : PositionState) (e : Engine)
      → e.pos ≡ some p
      → e.state ≡ breakout
      → Keeps p (tear_down cfg c e).1.pos
  unfolding tear_down
  tear_down-Keeps c p e h s =
      subst (Keeps p)
        (let (q, n) = exit_position-pos cfg c session_end idle none e (rw h refl) refl in
          let t : (tear_down cfg c e).1.pos ≡ none = ground arith in sym t)
        tt

  route-Keeps :
      (c : Candle) (i : SessionInfo) (p : PositionState) (e : Engine)
      → is_finite p.stop ≡ true
      → e.pos ≡ some p
      → e.state ≡ breakout
      → Keeps p (route cfg c i e).1.pos
  unfolding route
  route-Keeps c i p e f h s = elim (Bool-cases (same_id i.session_id e.session_id)) [
    | inr other ↦
        let (q, n) = new_session-closes c i e (rw h refl) s in
        rw other (or_process-Keeps c i p (new_session cfg c i e) q n)
    | inl same ↦ elim (Bool-cases (is_after i.zone)) [
      | inl late ↦ rw (same, late) (tear_down-Keeps c p (stamp cfg c e) h s)
      | inr live ↦ rw (same, live) (check_gap-Keeps c i p e f h s)
    ]
  ]

  -- After any bar an open position with a finite stop is gone, or it has the same direction and
  -- entry price and its stop is at least as tight: never lower for a long, never higher for a short.
  pub on_candle-Keeps :
      (c : Candle) (p : PositionState) {e : Engine}
      → Reach cfg e
      → e.pos ≡ some p
      → is_finite p.stop ≡ true
      → Keeps p (on_candle cfg c e).1.pos
  unfolding on_candle
  on_candle-Keeps c p {e} r h f = by_checks (validate c)
    where
      kept : Keeps p e.pos
      kept = subst (Keeps p) (sym h) (Continues-refl cfg p f)

      in_trade : e.state ≡ breakout
      in_trade = let v = (Reach-IsValid cfg r).positioned in ground arith

      by_checks :
          (v : Result (Unit {0}))
          → Keeps p
              (elim v as (λ _. Result (Option Signal) × Engine) [
                | err x ↦ (err x, e)
                | ok _ ↦
                    if not_after c.ts.micros e.last_ts
                    then (if cfg.strict_monotonic then err out_of_order_error else ok none, e)
                    else route cfg c (classify cfg c.ts.micros) e
              ]).1.pos
      by_checks (err x) = kept
      by_checks (ok _) = elim (Bool-cases (not_after c.ts.micros e.last_ts)) [
        | inl late ↦ rw late kept
        | inr due ↦ rw due (route-Keeps c (classify cfg c.ts.micros) p e f h in_trade)
      ]
