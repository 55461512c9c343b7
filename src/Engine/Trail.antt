-- ===== src/Engine/Trail.antt =====
-- What a bar does to an open position: it closes it, or keeps its direction and entry and never
-- loosens its stop.
use freq_trading.Base.{
  ℕ, ◌≡◌, refl, sym, subst, inl, inr, Bool, true, false, if◌then◌else◌, Option, none, some, arith,
  is_some, Option-cases, Bool-cases,
}
use freq_trading.Num.{Float}
use freq_trading.Num.Order.{le-max_left, min-le_left}
use freq_trading.Models.{
  State, is_long, is_on_close, OrbConfig, Result, ok, err, Candle, ExitReason, PositionState,
  Signal, Event, trail_stop, take_profit, range_reentry,
}
use freq_trading.Engine.State.{Engine, some_signal, emit_transition, emit_signal, clear_range}
use freq_trading.Engine.Exit.{
  exit_event, price_or, post_exit_state, exit_position, close_position, settle, rearm_range_at,
  partial_tp, ratchet, stop_dist, trail_hit, trail_step, take_profit_exit, take_profit_step,
  breakout_bar, tp_hit, range_reentered,
}
use freq_trading.Engine.Sound.{exit_position-eq}

module _ ⦃fl : Float⦄ where
  open fl use {Carrier, le, is_finite, le_refl, add, sub, lt, lit}

  -- `q` is the position `p` at a later time.
  pub record Continues (p q : PositionState) : Type 0 where
    pub same_direction : q.direction ≡ p.direction
    pub same_entry : q.entry_price ≡ p.entry_price
    pub tightened : (if is_long p.direction then le p.stop q.stop else le q.stop p.stop) ≡ true

  -- no position, or the given one at a later time
  abbrev pub Keeps : PositionState → Option PositionState → Type 0
  Keeps p none = Unit
  Keeps p (some q) = Continues p q

  -- whether a call returned a signal
  abbrev pub signalled : Result (Option Signal) → Bool
  signalled (ok (some _)) = true
  signalled _ = false

  module _ (cfg : OrbConfig) where
    close_position-pos :
        (ts : ℕ) (p : PositionState) (ev : Event) (r : ExitReason) (to : State) (px : Carrier)
        (e : Engine)
        → (close_position cfg ts p ev r to px e).1.pos ≡ none
    unfolding close_position settle rearm_range_at emit_transition emit_signal clear_range
    close_position-pos ts p ev r to px e = ground arith

    -- An exit with a position at hand returns a signal and leaves no position.
    pub exit_position-pos :
        (c : Candle) (r : ExitReason) (to : State) (px : Option Carrier) (e : Engine)
        → is_some e.pos ≡ true
        → is_some (exit_event r) ≡ true
        → (signalled (some_signal (exit_position cfg c r to px e)).0 ≡ true)
          × ((some_signal (exit_position cfg c r to px e)).1.pos ≡ none)
    exit_position-pos c r to px e h k = elim (Option-cases e.pos) [
      | inl q ↦ absurd (ground arith)
      | inr (p, q) ↦ elim (Option-cases (exit_event r)) [
        | inl q' ↦ absurd (ground arith)
        | inr (ev, q') ↦
            rw (exit_position-eq cfg c r to px e q q')
              (refl, close_position-pos c.ts.micros p ev r to (price_or px c.close) e)
      ]
    ]

    pub Continues-refl : (p : PositionState) → is_finite p.stop ≡ true → Continues p p
    Continues-refl p f = ground (arith, le_refl p.stop f)

    ratchet-Continues :
        (c : Candle) (p : PositionState) (d : Carrier)
        → is_finite p.stop ≡ true
        → Continues p (ratchet cfg c p d)
    unfolding ratchet
    ratchet-Continues c p d f =
        ground (arith, le-max_left p.stop (sub c.close d) f, min-le_left p.stop (add c.close d) f)

    -- what an exit leaves is no position, which any position may become
    pub Keeps-exit :
        (c : Candle) (p : PositionState) (r : ExitReason) (to : State) (px : Option Carrier)
        (e : Engine)
        → is_some e.pos ≡ true
        → is_some (exit_event r) ≡ true
        → Keeps p (some_signal (exit_position cfg c r to px e)).1.pos
    Keeps-exit c p r to px e h k = subst (Keeps p) (sym (exit_position-pos c r to px e h k).1) tt

    trail_step-Keeps :
        (c : Candle) (p : PositionState) (e : Engine)
        → is_finite p.stop ≡ true
        → e.pos ≡ some p
        → Keeps p (trail_step cfg c p e).1.pos
    unfolding trail_step
    trail_step-Keeps c p e f h =
        let px = some (if is_on_close cfg.reentry_on then c.close else p.stop) in
        elim (Bool-cases (trail_hit cfg c p)) [
          | inl hit ↦
              rw hit (Keeps-exit c p trail_stop (post_exit_state cfg e) px e (rw h refl) refl)
          | inr miss ↦ elim (Option-cases e.atr.atr) [
            | inl cold ↦ rw (miss, cold) (subst (Keeps p) (sym h) (Continues-refl p f))
            | inr (a, warm) ↦ rw (miss, warm) (ratchet-Continues c p (stop_dist cfg a) f)
          ]
        ]

    partial_tp-Continues :
        (c : Candle) (p : PositionState) (px : Carrier) (e : Engine)
        → is_finite p.stop ≡ true
        → Keeps p (partial_tp cfg c p px e).1.pos
    unfolding partial_tp emit_transition emit_signal
    partial_tp-Continues c p px e f = ground (arith, le_refl p.stop f)

    take_profit_exit-Keeps :
        (c : Candle) (p : PositionState) (tp : Carrier) (e : Engine)
        → is_finite p.stop ≡ true
        → e.pos ≡ some p
        → Keeps p (take_profit_exit cfg c p tp e).1.pos
    unfolding take_profit_exit
    take_profit_exit-Keeps c p tp e f h =
        let px = if is_on_close cfg.reentry_on then c.close else tp in
        elim (Bool-cases (lt cfg.tp_close_frac (lit 1 0))) [
          | inl part ↦ rw part (partial_tp-Continues c p px e f)
          | inr whole ↦
              rw whole
                (Keeps-exit c p take_profit (post_exit_state cfg e) (some px) e (rw h refl) refl)
        ]

    take_profit_step-Keeps :
        (c : Candle) (p : PositionState) (e : Engine)
        → is_finite p.stop ≡ true
        → e.pos ≡ some p
        → Keeps p (take_profit_step cfg c p e).1.pos
    unfolding take_profit_step
    take_profit_step-Keeps c p e f h = by_target p.tp
      where
        by_target :
            (o : Option Carrier)
            → Keeps p
                (elim o as (λ _. Result (Option Signal) × Engine) [
                  | none ↦ trail_step cfg c p e
                  | some tp ↦
                      if tp_hit cfg c p.direction tp
                      then take_profit_exit cfg c p tp e
                      else trail_step cfg c p e
                ]).1.pos
        by_target none = trail_step-Keeps c p e f h
        by_target (some tp) = elim (Bool-cases (tp_hit cfg c p.direction tp)) [
          | inl hit ↦ rw hit (take_profit_exit-Keeps c p tp e f h)
          | inr miss ↦ rw miss (trail_step-Keeps c p e f h)
        ]

    pub breakout_bar-Keeps :
        (c : Candle) (p : PositionState) (e : Engine)
        → is_finite p.stop ≡ true
        → e.pos ≡ some p
        → Keeps p (breakout_bar cfg c p e).1.pos
    unfolding breakout_bar
    breakout_bar-Keeps c p e f h = by_range (range_reentered cfg c p.direction e)
      where
        px : Option Carrier
        px =
            if is_on_close cfg.reentry_on
            then some c.close
            else if is_long p.direction
            then e.range_hi
            else e.range_lo

        by_range :
            (r : Result Bool)
            → Keeps p
                (elim r as (λ _. Result (Option Signal) × Engine) [
                  | err x ↦ (err x, e)
                  | ok again ↦
                      if again
                      then some_signal
                          (exit_position cfg c range_reentry (post_exit_state cfg e) px e)
                      else take_profit_step cfg c p e
                ]).1.pos
        by_range (err x) = subst (Keeps p) (sym h) (Continues-refl p f)
        by_range (ok true) =
            Keeps-exit c p range_reentry (post_exit_state cfg e) px e (rw h refl) refl
        by_range (ok false) = take_profit_step-Keeps c p e f h
