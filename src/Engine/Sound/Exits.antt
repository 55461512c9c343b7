-- ===== src/Engine/Sound/Exits.antt =====
-- The exits, `_on_breakout` and `force_flat` on a valid engine.
use freq_trading.Base.{
  ℕ, ◌≡◌, ◌⊎◌, refl, inl, inr, true, if◌then◌else◌, Option, some, arith, is_some, Option-cases,
}
use freq_trading.Num.{Float}
use freq_trading.Models.{
  State, idle, range_defined, is_breakout, ExitReason, trail_stop, take_profit, range_reentry,
  is_on_close, is_long, OrbConfig, Candle, PositionState, Event,
}
use freq_trading.Engine.State.{Engine, some_signal, just, emit_transition, emit_signal, clear_range}
use freq_trading.Engine.Exit.{
  exit_event, post_exit_state, exit_position, close_position, exit_signal, force_flat, partial_tp,
  track, trail_step, take_profit_exit, take_profit_step, breakout_bar, on_breakout, range_reentered,
  price_or, settle, rearm_range_at,
}
use freq_trading.Engine.Invariant.{IsValid, IsSound}

module _ ⦃fl : Float⦄ (cfg : OrbConfig) where
  open fl use {Carrier}

  pub post_exit_state_cases :
      (e : Engine) → (post_exit_state cfg e ≡ idle) ⊎ (post_exit_state cfg e ≡ range_defined)
  unfolding post_exit_state
  post_exit_state_cases e = ground arith

  close_position-IsValid :
      (ts : ℕ) (p : PositionState) (ev : Event) (r : ExitReason) (to : State) (px : Carrier)
      (e : Engine)
      → IsValid e
      → is_breakout e.state ≡ true
      → (to ≡ idle) ⊎ (to ≡ range_defined)
      → IsValid (close_position cfg ts p ev r to px e).1
  unfolding close_position exit_signal settle rearm_range_at emit_transition emit_signal clear_range
  close_position-IsValid ts p ev r to px e v h k = ground arith

  -- With a position and a reason of the table, `_exit` closes the position.
  pub exit_position-eq :
      (c : Candle) (r : ExitReason) (to : State) (px : Option Carrier) (e : Engine)
      {p : PositionState} {ev : Event}
      → e.pos ≡ some p
      → exit_event r ≡ some ev
      → exit_position cfg c r to px e
        ≡ just (close_position cfg c.ts.micros p ev r to (price_or px c.close) e)
  unfolding exit_position
  exit_position-eq c r to px e h k = ground arith

  close_position-state :
      (ts : ℕ) (p : PositionState) (ev : Event) (r : ExitReason) (to : State) (px : Carrier)
      (e : Engine)
      → ((close_position cfg ts p ev r to px e).1.state ≡ to)
        × ((close_position cfg ts p ev r to px e).1.session_id ≡ e.session_id)
  unfolding close_position settle rearm_range_at emit_transition emit_signal clear_range
  close_position-state ts p ev r to px e = ground arith

  pub exit_position-IsSound :
      (c : Candle) (r : ExitReason) (to : State) (px : Option Carrier) (e : Engine)
      → IsValid e
      → is_breakout e.state ≡ true
      → is_some (exit_event r) ≡ true
      → (to ≡ idle) ⊎ (to ≡ range_defined)
      → IsSound (some_signal (exit_position cfg c r to px e))
        × ((some_signal (exit_position cfg c r to px e)).1.state ≡ to)
        × ((some_signal (exit_position cfg c r to px e)).1.session_id ≡ e.session_id)
  exit_position-IsSound c r to px e v h k t = elim (Option-cases e.pos) [
    | inl q ↦ absurd (let w = v.positioned in ground arith)
    | inr (p, q) ↦ elim (Option-cases (exit_event r)) [
      | inl q' ↦ absurd (ground arith)
      | inr (ev, q') ↦ rw (exit_position-eq c r to px e q q') (
        (refl, close_position-IsValid c.ts.micros p ev r to (price_or px c.close) e v h t),
        (close_position-state c.ts.micros p ev r to (price_or px c.close) e).0,
        (close_position-state c.ts.micros p ev r to (price_or px c.close) e).1,
      )
    ]
  ]

  partial_tp-IsValid :
      (c : Candle) (p : PositionState) (px : Carrier) (e : Engine)
      → IsValid e
      → is_breakout e.state ≡ true
      → IsValid (partial_tp cfg c p px e).1
  unfolding partial_tp exit_signal emit_transition emit_signal
  partial_tp-IsValid c p px e v h = ground arith

  trail_step-IsSound :
      (c : Candle) (p : PositionState) (e : Engine)
      → IsValid e
      → is_breakout e.state ≡ true
      → IsSound (trail_step cfg c p e)
  unfolding trail_step
  trail_step-IsSound c p e v h = ground (
    arith,
    exit_position-IsSound c trail_stop (post_exit_state cfg e)
        (some (if is_on_close cfg.reentry_on then c.close else p.stop)) e v h refl
        (post_exit_state_cases e),
  )

  take_profit_exit-IsSound :
      (c : Candle) (p : PositionState) (tp : Carrier) (e : Engine)
      → IsValid e
      → is_breakout e.state ≡ true
      → IsSound (take_profit_exit cfg c p tp e)
  unfolding take_profit_exit
  take_profit_exit-IsSound c p tp e v h =
      let px = if is_on_close cfg.reentry_on then c.close else tp in
      ground (
        arith,
        partial_tp-IsValid c p px e v h,
        exit_position-IsSound c take_profit (post_exit_state cfg e) (some px) e v h refl
            (post_exit_state_cases e),
      )

  take_profit_step-IsSound :
      (c : Candle) (p : PositionState) (e : Engine)
      → IsValid e
      → is_breakout e.state ≡ true
      → IsSound (take_profit_step cfg c p e)
  unfolding take_profit_step
  take_profit_step-IsSound c p e v h = elim (Option-cases p.tp) [
    | inl q ↦ ground (arith, trail_step-IsSound c p e v h)
    | inr (tp, q) ↦
        ground (arith, take_profit_exit-IsSound c p tp e v h, trail_step-IsSound c p e v h)
  ]

  breakout_bar-IsSound :
      (c : Candle) (p : PositionState) (e : Engine)
      → IsValid e
      → is_breakout e.state ≡ true
      → IsSound (breakout_bar cfg c p e)
  unfolding breakout_bar range_reentered
  breakout_bar-IsSound c p e v h =
      let px =
        if is_on_close cfg.reentry_on
        then some c.close
        else if is_long p.direction
        then e.range_hi
        else e.range_lo in
      ground (
        arith,
        take_profit_step-IsSound c p e v h,
        exit_position-IsSound c range_reentry (post_exit_state cfg e) px e v h refl
            (post_exit_state_cases e),
      )

  pub on_breakout-IsSound :
      (c : Candle) (e : Engine)
      → IsValid e
      → is_breakout e.state ≡ true
      → IsSound (on_breakout cfg c e)
  unfolding on_breakout
  on_breakout-IsSound c e v h = elim (Option-cases e.pos) [
    | inl q ↦ absurd (let w = v.positioned in ground arith)
    | inr (p, q) ↦ rw q (
        breakout_bar-IsSound c (track cfg c p) (record e { pos = some (track cfg c p) })
          (ground arith) h)
  ]

  pub force_flat-IsValid : (ts : ℕ) (e : Engine) → IsValid e → IsValid (force_flat cfg ts e).1
  unfolding force_flat post_exit_state exit_signal rearm_range_at emit_transition emit_signal
      clear_range
  force_flat-IsValid ts e v = ground arith
