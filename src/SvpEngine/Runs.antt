-- ===== src/SvpEngine/Runs.antt =====
-- The engines of `SvpEngine` that calls of its methods reach.
use freq_trading.Base.{
  ℕ, ◌+◌, ◌≤◌, ◌≡◌, inl, inr, refl, Bool, true, false, if◌then◌else◌, ap, Option, none, some, arith,
  is_some, Bool-cases,
}
use freq_trading.Num.{Float}
use freq_trading.Num.Fixed.{ℤ}
use freq_trading.Models.{
  Candle, validate, idle, is_breakout, PositionState, Result, ok, err, out_of_order_error,
  exit_session, closed_by, session_end,
}
use freq_trading.Session.{SessionInfo}
use freq_trading.SvpEngine.Config.{SvpConfig}
use freq_trading.SvpEngine.State.{
  SvpEngine, new, leave, force_flat, emit_transition, emit_signal, roll_session, close_session,
}
use freq_trading.Engine.Invariant.{entries, exits}
use freq_trading.SvpEngine.Step.{
  is_past_end, bind_step, force_exit_of, force_exit, not_newer, same_session, process_bar,
  next_session, after_session, route_bar, admit_bar, on_candle,
}
use freq_trading.SvpEngine.Invariant.{
  entries_since, IsRunning, IsConsistent, if-IsRunning, leave-IsRunning, leave_closes,
  go_flat-IsConsistent, after_session-IsRunning, process_bar-IsRunning,
}

module _ ⦃fl : Float⦄ (k : SvpConfig) where
  open fl use {Carrier}

  module _ (floor_int : Carrier → ℤ) (of_int : ℤ → Carrier) (of_count : ℕ → Carrier) where
    -- what a roll emits
    close_session-emitted :
        (o : Option ℕ) (id ts : ℕ) (e : SvpEngine)
        → (o ≡ none → entries_since e.emitted ≡ 0)
        → let xs = (close_session floor_int of_int of_count o id ts e).emitted in
          (entries_since xs ≡ 0) × (entries xs ≡ entries e.emitted) × (exits xs ≡ exits e.emitted)
    unfolding close_session emit_transition
    close_session-emitted none id ts e h = (h refl, refl, refl)
    close_session-emitted (some old) id ts e h = (refl, omega arith, omega arith)

    roll_session-IsRunning :
        (id ts : ℕ) (e : SvpEngine)
        → (e.session_id ≡ none → entries_since e.emitted ≡ 0)
        → entries e.emitted ≡ exits e.emitted
        → IsRunning k (roll_session floor_int of_int of_count k id ts e)
    unfolding roll_session
    roll_session-IsRunning id ts e h g =
        let (since, opened, closed) = close_session-emitted e.session_id id ts e h in
        record {
          positioned = refl;
          capped = omega arith;
          counted = since;
          balanced = omega (arith, opened, closed, g);
          started = refl;
        }

    -- a running engine has no session to forget, and one that is fresh has emitted nothing
    unstarted-silent :
        (e : SvpEngine) → IsConsistent k e → e.session_id ≡ none → entries_since e.emitted ≡ 0
    unstarted-silent e (inl v) h = absurd (let s = v.started in ground arith)
    unstarted-silent e (inr v) h = ap entries_since v.silent

    settled :
        (e : SvpEngine)
        → IsConsistent k e
        → is_breakout e.state ≡ false
        → entries e.emitted ≡ exits e.emitted
    settled e (inl v) b = let q = v.balanced in ground arith
    settled e (inr v) b = rw (v.silent) refl

    next_session-IsConsistent :
        (info : SessionInfo) (c : Candle) (e : SvpEngine)
        → IsConsistent k e
        → IsConsistent k (next_session k floor_int of_int of_count info c e).1
    unfolding next_session force_exit force_exit_of leave emit_transition emit_signal
    next_session-IsConsistent info c e v = elim (Bool-cases (is_breakout e.state)) [
      | inl b ↦ rw b (exits_first e.position refl v)
      | inr b ↦ rw b (
          inl (
            process_bar-IsRunning k floor_int of_int of_count info.zone c (rolled e) (
              roll_session-IsRunning info.session_id c.ts.micros e (unstarted-silent e v)
                (settled e v b))))
    ]
      where
        rolled : SvpEngine → SvpEngine
        rolled f = record (roll_session floor_int of_int of_count k info.session_id c.ts.micros f) {
          last_ts = some c.ts.micros;
        }

        exits_first :
            (p : Option PositionState)
            → e.position ≡ p
            → IsConsistent k e
            → IsConsistent k
                (bind_step (force_exit_of c idle p e) (λ sig f. (ok (some sig), rolled f))).1
        exits_first none h w = w
        exits_first (some pos) h (inl w) =
            let f = (leave c.ts.micros exit_session (closed_by session_end) c.close idle pos e).1 in
            let u =
              leave-IsRunning k c.ts.micros exit_session (closed_by session_end) c.close idle pos e
                refl (leave_closes k c.ts.micros exit_session session_end c.close idle pos e refl)
                refl h w in
            inl (
              roll_session-IsRunning info.session_id c.ts.micros f (unstarted-silent f (inl u))
                (settled f (inl u) refl))
        exits_first (some pos) h (inr w) = absurd (let q = w.flat in ground arith)

    same_session-IsRunning :
        (e : SvpEngine) (d : ℕ)
        → same_session e.session_id d ≡ true
        → IsConsistent k e
        → IsRunning k e
    same_session-IsRunning e d h (inl v) = v
    same_session-IsRunning e d h (inr v) = absurd (let q = v.unstarted in ground arith)

    route_bar-IsConsistent :
        (info : SessionInfo) (c : Candle) (e : SvpEngine)
        → IsConsistent k e
        → IsConsistent k (route_bar k floor_int of_int of_count info c e).1
    unfolding route_bar
    route_bar-IsConsistent info c e v =
        let f = record e { last_ts = some c.ts.micros } in
        let past = after_session k floor_int of_int of_count c f in
        let now = process_bar k floor_int of_int of_count info.zone c f in
        elim (Bool-cases (same_session e.session_id info.session_id)) [
          | inl b ↦
              let w : IsRunning k f = same_session-IsRunning e info.session_id b v in
              rw b (
                inl (
                  if-IsRunning k (is_past_end info.zone) past now
                    (after_session-IsRunning k floor_int of_int of_count c f w)
                    (process_bar-IsRunning k floor_int of_int of_count info.zone c f w)))
          | inr b ↦ rw b (next_session-IsConsistent info c e v)
        ]

    if-IsConsistent :
        {A : Type 0} (b : Bool) (x y : A × SvpEngine)
        → IsConsistent k x.1
        → IsConsistent k y.1
        → IsConsistent k (if b then x else y).1
    if-IsConsistent true x y h g = h
    if-IsConsistent false x y h g = g

    admit_bar-IsConsistent :
        (r : Result (Unit {0})) (c : Candle) (e : SvpEngine)
        → IsConsistent k e
        → IsConsistent k (admit_bar k floor_int of_int of_count r c e).1
    unfolding admit_bar
    admit_bar-IsConsistent (err x) c e v = v
    admit_bar-IsConsistent (ok _) c e v = elim (Bool-cases (not_newer e.last_ts c.ts.micros)) [
      | inl b ↦
          rw b (if-IsConsistent k.strict_monotonic (err out_of_order_error, e) (ok none, e) v v)
      | inr b ↦ rw b (route_bar-IsConsistent _ c e v)
    ]

    -- a new engine, and the engine after each call of `on_candle`, also one that raises, and of
    -- `force_flat`
    pub data Reach : SvpEngine → Type 0 where
      start : Reach (new k)
      bar :
          {e : SvpEngine}
          → Reach e
          → (c : Candle) → Reach (on_candle k floor_int of_int of_count c e).1
      flat : {e : SvpEngine} → Reach e → (ts : ℕ) → Reach (force_flat ts e).1

    Reach-IsRunning : {e : SvpEngine} → Reach e → IsConsistent k e
    unfolding new on_candle force_flat
    Reach-IsRunning start =
        inr (record { idles = refl; flat = refl; unstarted = refl; silent = refl })
    Reach-IsRunning (bar {e} r c) = admit_bar-IsConsistent (validate c) c e (Reach-IsRunning r)
    Reach-IsRunning (flat {e} r ts) =
        go_flat-IsConsistent k ts e.position e refl (Reach-IsRunning r)

    conclude :
        (e : SvpEngine)
        → IsConsistent k e
        → (is_some e.position ≡ is_breakout e.state)
          × (entries e.emitted ≡ exits e.emitted + (if is_breakout e.state then 1 else 0))
          × (entries_since e.emitted ≤ k.max_trades_per_session)
    conclude e (inl v) =
        (v.positioned, v.balanced, (let m = v.counted in let n = v.capped in omega arith))
    conclude e (inr v) =
        (rw (v.idles, v.flat) refl, rw (v.idles, v.silent) refl, rw (v.silent) (omega arith))

    -- On every engine that calls of on_candle and force_flat reach from a new one, calls that raise
    -- included, a position exists exactly in BREAKOUT, the ENTRY signals emitted so far are as many as
    -- the EXIT signals, and one more while a position is open, and since the last SESSION_RESET no
    -- more ENTRY signals were emitted than the maximum of trades per session.
    pub Reach-IsConsistent :
        {e : SvpEngine}
        → Reach e
        → (is_some e.position ≡ is_breakout e.state)
          × (entries e.emitted ≡ exits e.emitted + (if is_breakout e.state then 1 else 0))
          × (entries_since e.emitted ≤ k.max_trades_per_session)
    Reach-IsConsistent {e} r = conclude e (Reach-IsRunning r)
