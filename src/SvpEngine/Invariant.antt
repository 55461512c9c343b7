-- ===== src/SvpEngine/Invariant.antt =====
-- What holds of `SvpEngine` between two calls, and that its parts keep it.
use freq_trading.Base.{
  ℕ, suc, ◌+◌, ◌≤◌, ◌<◌, ◌≡◌, ◌⊎◌, inl, inr, refl, Bool, true, false, if◌then◌else◌, ◌∙◌, sym, ap,
  subst, Option, none, some, List, [], ◌∷◌, arith, is_some, leb, Bool-cases,
}
use freq_trading.Num.{Float}
use freq_trading.Num.Fixed.{ℤ}
use freq_trading.Models.{
  Candle, State, idle, range_defined, breakout, exit_state, is_breakout, is_idle, PositionState,
  Result, ok, err, Event, session_reset, exit_broker, exit_session, Reason, closed_by, ExitReason,
  broker_closed, session_end, Direction, long, short, SvpSetup,
}
use freq_trading.Indicators.{update_atr, update_vsma, vsma_value, WilderAtr, VolumeSma}
use freq_trading.Session.{Zone}
use freq_trading.Profile.Nodes.{ProfileLevels}
use freq_trading.Profile.Histogram.{update_profile}
use freq_trading.SvpEngine.Config.{SvpConfig}
use freq_trading.SvpEngine.State.{SvpEngine, leave, go_flat, emit_transition, emit_signal}
use freq_trading.SvpEngine.Setups.{open_setup}
use freq_trading.SvpEngine.Detect.{detect_setup-EntersOr}
use freq_trading.SvpEngine.Filters.{risk_stop}
use freq_trading.SmcEngine.Entry.{entry_event}
use freq_trading.Engine.Invariant.{opens, closes, entries, exits}
use freq_trading.Engine.State.{Emission, transition, signal}
use freq_trading.SvpEngine.Step.{
  in_profile, bind_step, Step, force_exit_of, force_exit, on_idle, held_longer, on_in_position,
  feed_vsma, feed_atr, feed_prices, on_armed, dispatch_state, feed_bar, process_bar, after_session,
}

module _ ⦃fl : Float⦄ where
  open fl use {Carrier}

  abbrev pub is_reset : Event → Bool
  is_reset session_reset = true
  is_reset _ = false

  -- the ENTRY signals since the last SESSION_RESET, of what was emitted, newest first
  abbrev pub entries_since : List Emission → ℕ
  entries_since [] = 0
  entries_since (transition t ∷ xs) =
      let rest = entries_since xs in if is_reset t.event then 0 else rest
  entries_since (signal s ∷ xs) = opens (signal s) + entries_since xs

module _ ⦃fl : Float⦄ (k : SvpConfig) where
  open fl use {Carrier}

  -- of the state, whether there is a position, the count of trades, whether a session has begun, and
  -- what was emitted
  pub record Fits (state : State) (held : Bool) (traded : ℕ) (begun : Bool)
      (emitted : List Emission) : Type 0 where
    pub positioned : held ≡ is_breakout state
    pub capped : traded ≤ k.max_trades_per_session
    pub counted : entries_since emitted ≡ traded
    pub balanced : entries emitted ≡ exits emitted + (if is_breakout state then 1 else 0)
    pub started : begun ≡ true

  abbrev pub IsRunning : SvpEngine → Type 0
  IsRunning e = Fits e.state (is_some e.position) e.traded (is_some e.session_id) e.emitted

  -- before the first session
  pub record IsFresh (e : SvpEngine) : Type 0 where
    pub idles : e.state ≡ idle
    pub flat : e.position ≡ none
    pub unstarted : e.session_id ≡ none
    pub silent : e.emitted ≡ []

  abbrev pub IsConsistent : SvpEngine → Type 0
  IsConsistent e = IsRunning e ⊎ IsFresh e

  bind_step-IsRunning :
      {A B : Type 0} (r : Result A × SvpEngine) (f : A → Step B)
      → IsRunning r.1
      → ((a : A) (e : SvpEngine) → IsRunning e → IsRunning (f a e).1)
      → IsRunning (bind_step r f).1
  bind_step-IsRunning (ok a, e) f v h = h a e v
  bind_step-IsRunning (err x, e) f v h = v

  pub if-IsRunning :
      {A : Type 0} (b : Bool) (x y : A × SvpEngine)
      → IsRunning x.1
      → IsRunning y.1
      → IsRunning (if b then x else y).1
  if-IsRunning true x y h g = h
  if-IsRunning false x y h g = g

  -- an exit of the open position to a state without one
  pub leave-IsRunning :
      (ts : ℕ) (event : Event) (reason : Reason) (price : Carrier) (to : State)
      (pos : PositionState) (e : SvpEngine)
      → is_reset event ≡ false
      → closes (signal (leave ts event reason price to pos e).0) ≡ 1
      → is_breakout to ≡ false
      → e.position ≡ some pos
      → IsRunning e
      → IsRunning (leave ts event reason price to pos e).1
  unfolding leave emit_transition emit_signal
  leave-IsRunning ts event reason price to pos e n x b h v =
      let held : is_breakout e.state ≡ true = sym v.positioned ∙ ap is_some h in
      let q = v.balanced in
      record {
        positioned = sym b;
        capped = v.capped;
        counted = rw n (let m = v.counted in omega arith);
        balanced = ground arith;
        started = v.started;
      }

  pub leave_closes :
      (ts : ℕ) (event : Event) (why : ExitReason) (price : Carrier) (to : State)
      (pos : PositionState) (e : SvpEngine)
      → is_breakout to ≡ false
      → closes (signal (leave ts event (closed_by why) price to pos e).0) ≡ 1
  unfolding leave
  leave_closes ts event why price to pos e b = rw b refl

  pub go_flat-IsConsistent :
      (ts : ℕ) (p : Option PositionState) (e : SvpEngine)
      → e.position ≡ p
      → IsConsistent e
      → IsConsistent (go_flat ts p e).1
  unfolding go_flat
  go_flat-IsConsistent ts none e h v = v
  go_flat-IsConsistent ts (some pos) e h (inl v) = inl (
      leave-IsRunning ts exit_broker (closed_by broker_closed) pos.stop range_defined pos e refl
        (leave_closes ts exit_broker broker_closed pos.stop range_defined pos e refl) refl h v)
  go_flat-IsConsistent ts (some pos) e h (inr v) = absurd (let q = v.flat in ground arith)

  on_idle-IsRunning :
      (zone : Zone) (ts : ℕ) (e : SvpEngine)
      → e.state ≡ idle
      → IsRunning e
      → IsRunning (on_idle zone ts e)
  unfolding on_idle emit_transition
  on_idle-IsRunning zone ts e h v =
      let p = v.positioned in
      let q = v.balanced in
      elim (Bool-cases (in_profile zone)) [
        | inl b ↦ rw b (record {
          positioned = p ∙ ap is_breakout h;
          capped = v.capped;
          counted = v.counted;
          balanced =
              let r = q ∙ ap (λ s. exits e.emitted + (if is_breakout s then 1 else 0)) h in
              omega arith;
          started = v.started;
        })
        | inr b ↦ rw b v
      ]

  held_longer-eq : (p : Option PositionState) → is_some (held_longer p) ≡ is_some p
  held_longer-eq none = refl
  held_longer-eq (some pos) = refl

  on_armed-IsRunning :
      (c : Candle) (prev_close : Option Carrier) (lv : Option ProfileLevels) (avg : Option Carrier)
      (e : SvpEngine)
      → e.state ≡ range_defined
      → IsRunning e
      → IsRunning (on_armed k c prev_close lv avg e).1
  unfolding on_armed open_setup emit_transition emit_signal
  on_armed-IsRunning c prev_close none avg e h v = v
  on_armed-IsRunning c prev_close (some lv) avg e h v =
      elim (Bool-cases (leb k.max_trades_per_session e.traded)) [
        | inl b ↦ rw b v
        | inr b ↦ rw b (elim (detect_setup-EntersOr k c lv prev_close avg e) [
          | inl p ↦ subst (λ r. IsRunning r.1) (sym p) v
          | inr (d, structural, setup, a, g, i, p) ↦
              subst (λ r. IsRunning r.1) (sym p)
                (entered d (risk_stop k c d structural e.atr.atr) setup lv (ground arith))
        ])
      ]
    where
      entered :
          (d : Direction) (stop : Carrier) (setup : SvpSetup) (lv : ProfileLevels)
          → e.traded < k.max_trades_per_session
          → IsRunning (open_setup c d stop setup lv e).1
      entered d stop setup lv n =
          let q = v.balanced in
          let m = v.counted in
          record {
            positioned = refl;
            capped = n;
            counted = by_event d m;
            balanced = ground arith;
            started = v.started;
          }
        where
          by_event :
              (d : Direction)
              → entries_since e.emitted ≡ e.traded
              → 1 + (if is_reset (entry_event d) then 0 else entries_since e.emitted) ≡ suc e.traded
          by_event long m = omega (arith, m)
          by_event short m = omega (arith, m)

  dispatch_state-IsRunning :
      (s : State) (c : Candle) (zone : Zone) (prev_close : Option Carrier)
      (lv : Option ProfileLevels) (avg : Option Carrier) (e : SvpEngine)
      → e.state ≡ s
      → IsRunning e
      → IsRunning (dispatch_state k s c zone prev_close lv avg e).1
  unfolding dispatch_state on_in_position
  dispatch_state-IsRunning idle c zone prev_close lv avg e h v =
      on_idle-IsRunning zone c.ts.micros e h v
  dispatch_state-IsRunning range_defined c zone prev_close lv avg e h v =
      on_armed-IsRunning c prev_close lv avg e h v
  dispatch_state-IsRunning breakout c zone prev_close lv avg e h v =
      subst (λ p. Fits e.state p e.traded (is_some e.session_id) e.emitted)
        (sym (held_longer-eq e.position)) v
  dispatch_state-IsRunning exit_state c zone prev_close lv avg e h v = v

  feed_vsma-IsRunning :
      (r : Result VolumeSma) (e : SvpEngine) → IsRunning e → IsRunning (feed_vsma r e).1
  feed_vsma-IsRunning (ok w) e v = v
  feed_vsma-IsRunning (err x) e v = v

  feed_atr-IsRunning :
      (r : Result WilderAtr) (e : SvpEngine) → IsRunning e → IsRunning (feed_atr r e).1
  feed_atr-IsRunning (ok w) e v = v
  feed_atr-IsRunning (err x) e v = v

  force_exit_of-IsRunning :
      (c : Candle) (p : Option PositionState) (e : SvpEngine)
      → e.position ≡ p
      → IsRunning e
      → IsRunning (force_exit_of c idle p e).1
  unfolding force_exit_of
  force_exit_of-IsRunning c none e h v = v
  force_exit_of-IsRunning c (some pos) e h v =
      leave-IsRunning c.ts.micros exit_session (closed_by session_end) c.close idle pos e refl
        (leave_closes c.ts.micros exit_session session_end c.close idle pos e refl) refl h v

  module _ (floor_int : Carrier → ℤ) (of_int : ℤ → Carrier) (of_count : ℕ → Carrier) where
    pub after_session-IsRunning :
        (c : Candle) (e : SvpEngine)
        → IsRunning e
        → IsRunning (after_session k floor_int of_int of_count c e).1
    unfolding after_session force_exit emit_transition
    after_session-IsRunning c e v =
        let q = v.balanced in
        elim (Bool-cases (is_breakout e.state)) [
          | inl b ↦ rw b (
              bind_step-IsRunning (force_exit_of c idle e.position e) (λ sig f. (ok (some sig), f))
                (force_exit_of-IsRunning c e.position e refl v) (λ _ f w. w))
          | inr b ↦ rw b (elim (Bool-cases (is_idle e.state)) [
            | inl i ↦ rw i v
            | inr i ↦ rw i (record {
              positioned = v.positioned ∙ b;
              capped = v.capped;
              counted = v.counted;
              balanced =
                  let r = q ∙ ap (λ x. exits e.emitted + (if x then 1 else 0)) b in omega arith;
              started = v.started;
            })
          ])
        ]

    feed_bar-IsRunning :
        (c : Candle) (e : SvpEngine)
        → IsRunning e
        → IsRunning (feed_bar k floor_int of_int of_count c e).1
    unfolding feed_bar feed_prices
    feed_bar-IsRunning c e v =
        let f = record e { developing = update_profile floor_int of_int of_count c e.developing } in
        bind_step-IsRunning (feed_vsma (update_vsma f.vsma c.volume) f) _
          (feed_vsma-IsRunning (update_vsma f.vsma c.volume) f v)
          (λ _ g w.
            bind_step-IsRunning (feed_atr (update_atr g.atr c.high c.low c.close) g) _
              (feed_atr-IsRunning (update_atr g.atr c.high c.low c.close) g w) (λ _ h u. u))

    pub process_bar-IsRunning :
        (zone : Zone) (c : Candle) (e : SvpEngine)
        → IsRunning e
        → IsRunning (process_bar k floor_int of_int of_count zone c e).1
    unfolding process_bar
    process_bar-IsRunning zone c e v =
        let fed = feed_bar k floor_int of_int of_count c e in
        bind_step-IsRunning (if in_profile zone then fed else (ok none, e)) _
          (if-IsRunning (in_profile zone) fed (ok none, e) (feed_bar-IsRunning c e v) v)
          (λ lv f w.
            dispatch_state-IsRunning f.state c zone e.prev_close lv (vsma_value e.vsma) f refl w)
