-- ===== src/SvpEngine/Step.antt =====
-- `SvpEngine.on_candle`, the handlers of its states, and `replay`. The parameters are `math.floor`
-- and the conversions to a float, which the profile uses.
use freq_trading.Base.{
  ℕ, suc, Bool, true, false, if◌then◌else◌, not, Option, none, some, List, [], ◌∷◌, ◌++◌, leb, ◌==◌,
}
use freq_trading.Num.{Float}
use freq_trading.Num.Fixed.{ℤ}
use freq_trading.Models.{
  Candle, validate, State, idle, range_defined, breakout, exit_state, is_breakout, is_idle,
  exit_session, session_done, session_open, session_end, closed_by, Signal, PositionState, Result,
  ok, err, assertion_error, out_of_order_error,
}
use freq_trading.Indicators.{WilderAtr, VolumeSma, update_atr, update_vsma, vsma_value}
use freq_trading.Session.{Zone, in_range_window, in_session, after, SessionInfo, classify_at}
use freq_trading.Svp.Swings.{update_swings}
use freq_trading.Profile.Histogram.{update_profile}
use freq_trading.Profile.Nodes.{ProfileLevels, levels}
use freq_trading.SvpEngine.Config.{SvpConfig}
use freq_trading.SvpEngine.State.{SvpEngine, emit_transition, leave, roll_session}
use freq_trading.SvpEngine.Setups.{detect_setup}

-- the zones that feed the profile
abbrev pub in_profile : Zone → Bool
in_profile in_range_window = true
in_profile in_session = true
in_profile _ = false

abbrev pub is_past_end : Zone → Bool
is_past_end after = true
is_past_end _ = false

module _ ⦃fl : Float⦄ where
  open fl use {Carrier}

  abbrev pub Step : Type 0 → Type 0
  Step A = SvpEngine → Result A × SvpEngine

  abbrev pub bind_step : {A B : Type 0} → Result A × SvpEngine → (A → Step B) → Result B × SvpEngine
  bind_step (ok a, e) f = f a e
  bind_step (err x, e) f = (err x, e)

  -- `_force_exit` with the position that it reads
  unfoldable pub force_exit_of : Candle → State → Option PositionState → Step Signal
  unfolding leave
  force_exit_of c to_state none e = (err assertion_error, e)
  force_exit_of c to_state (some pos) e =
      let r = leave c.ts.micros exit_session (closed_by session_end) c.close to_state pos e in
      (ok r.0, r.1)

  -- `_force_exit` at the end of a session
  unfoldable pub force_exit : Candle → State → Step Signal
  unfolding force_exit_of
  force_exit c to_state e = force_exit_of c to_state e.position e

  -- `_on_idle`
  unfoldable pub on_idle : Zone → ℕ → SvpEngine → SvpEngine
  unfolding emit_transition
  on_idle zone ts e =
      if in_profile zone
      then record (emit_transition ts idle range_defined session_open e) { state = range_defined }
      else e

  -- one bar more for the open position
  abbrev pub held_longer : Option PositionState → Option PositionState
  held_longer none = none
  held_longer (some pos) = some (record pos { bars_held = suc pos.bars_held })

  -- `_on_in_position`
  unfoldable pub on_in_position : SvpEngine → SvpEngine
  on_in_position e = record e { position = held_longer e.position }

  -- the updates of the two indicators
  abbrev pub feed_vsma : Result VolumeSma → Step (Unit {0})
  feed_vsma (ok w) e = (ok tt, record e { vsma = w })
  feed_vsma (err x) e = (err x, e)

  abbrev pub feed_atr : Result WilderAtr → Step (Unit {0})
  feed_atr (ok w) e = (ok tt, record e { atr = w })
  feed_atr (err x) e = (err x, e)

  -- the open of the session, from its first bar
  abbrev pub session_open_of : Option Carrier → Carrier → Carrier
  session_open_of none px = px
  session_open_of (some open_px) px = open_px

  -- the swings, the open of the session and the last close
  unfoldable pub feed_prices : Candle → SvpEngine → SvpEngine
  unfolding update_swings
  feed_prices c e = record e {
    swing = update_swings c.high c.low e.swing;
    session_open_px = some (session_open_of e.session_open_px c.open_price);
    prev_close = some c.close;
  }

  -- the bar is not after the last one
  abbrev pub not_newer : Option ℕ → ℕ → Bool
  not_newer none ts = false
  not_newer (some last) ts = leb ts last

  abbrev pub same_session : Option ℕ → ℕ → Bool
  same_session none d = false
  same_session (some id) d = id == d

  -- the signals of `replay` so far, oldest first
  abbrev pub append_signal : Option Signal → List Signal → List Signal
  append_signal none out = out
  append_signal (some sig) out = out ++ (sig ∷ [])

  module _ (k : SvpConfig) where
    -- `_on_armed`
    unfoldable pub on_armed :
        Candle
        → (prev_close : Option Carrier) → Option ProfileLevels
        → (avg : Option Carrier) → SvpEngine
        → Option Signal × SvpEngine
    unfolding detect_setup
    on_armed c prev_close none avg e = (none, e)
    on_armed c prev_close (some lv) avg e =
        if leb k.max_trades_per_session e.traded
        then (none, e)
        else detect_setup k c lv prev_close avg e

    -- the dispatch of `on_candle` on the state
    unfoldable pub dispatch_state :
        State
        → Candle
        → Zone
        → (prev_close : Option Carrier) → Option ProfileLevels
        → (avg : Option Carrier) → SvpEngine
        → Option Signal × SvpEngine
    unfolding on_idle on_armed on_in_position
    dispatch_state idle c zone prev_close lv avg e = (none, on_idle zone c.ts.micros e)
    dispatch_state range_defined c zone prev_close lv avg e = on_armed c prev_close lv avg e
    dispatch_state breakout c zone prev_close lv avg e = (none, on_in_position e)
    dispatch_state exit_state c zone prev_close lv avg e = (none, e)

    module _ (floor_int : Carrier → ℤ) (of_int : ℤ → Carrier) (of_count : ℕ → Carrier) where
      -- the feed of the profile and the indicators, after the levels before the bar
      unfoldable pub feed_bar : Candle → Step (Option ProfileLevels)
      unfolding levels update_profile feed_prices
      feed_bar c e =
          let lv = levels floor_int of_int of_count e.developing in
          let f = record e {
            developing = update_profile floor_int of_int of_count c e.developing;
          } in
          bind_step (feed_vsma (update_vsma f.vsma c.volume) f) (λ _ g.
            bind_step (feed_atr (update_atr g.atr c.high c.low c.close) g)
              (λ _ h. (ok lv, feed_prices c h)))

      -- `on_candle` from the feed on
      unfoldable pub process_bar : Zone → Candle → Step (Option Signal)
      unfolding feed_bar dispatch_state vsma_value
      process_bar zone c e =
          let prev_close = e.prev_close in
          let avg = vsma_value e.vsma in
          bind_step (if in_profile zone then feed_bar c e else (ok none, e))
            (λ lv f. let r = dispatch_state f.state c zone prev_close lv avg f in (ok r.0, r.1))

      -- the first bar of another session
      unfoldable pub next_session : SessionInfo → Candle → Step (Option Signal)
      unfolding force_exit roll_session process_bar
      next_session info c e =
          let roll : SvpEngine → SvpEngine = λ f.
            record (roll_session floor_int of_int of_count k info.session_id c.ts.micros f) {
              last_ts = some c.ts.micros;
            } in
          if is_breakout e.state
          then bind_step (force_exit c idle e) (λ sig f. (ok (some sig), roll f))
          else process_bar info.zone c (roll e)

      -- a bar after the end of the same session
      unfoldable pub after_session : Candle → Step (Option Signal)
      unfolding force_exit emit_transition
      after_session c e =
          if is_breakout e.state
          then bind_step (force_exit c idle e) (λ sig f. (ok (some sig), f))
          else if is_idle e.state
          then (ok none, e)
          else (
            ok none,
            record (emit_transition c.ts.micros e.state idle session_done e) { state = idle },
          )

      -- `on_candle` after the ordering of the timestamps
      unfoldable pub route_bar : SessionInfo → Candle → Step (Option Signal)
      unfolding next_session after_session process_bar
      route_bar info c e =
          if not (same_session e.session_id info.session_id)
          then next_session info c e
          else (let f = record e { last_ts = some c.ts.micros } in
              if is_past_end info.zone then after_session c f else process_bar info.zone c f)

      -- `on_candle` after the validation
      unfoldable pub admit_bar : Result (Unit {0}) → Candle → Step (Option Signal)
      unfolding route_bar classify_at
      admit_bar (err x) c e = (err x, e)
      admit_bar (ok _) c e =
          if not_newer e.last_ts c.ts.micros
          then (if k.strict_monotonic then (err out_of_order_error, e) else (ok none, e))
          else route_bar (classify_at k.session_open_utc 1 k.session_len_min c.ts.micros) c e

      -- `on_candle`
      unfoldable pub on_candle : Candle → Step (Option Signal)
      unfolding admit_bar
      on_candle c e = admit_bar (validate c) c e

      -- `replay` from the signals so far
      unfoldable pub replay_from : List Candle → List Signal → Step (List Signal)
      unfolding on_candle
      replay_from [] out e = (ok out, e)
      replay_from (c ∷ cs) out e =
          bind_step (on_candle c e) (λ sig f. replay_from cs (append_signal sig out) f)

      -- `replay`
      unfoldable pub replay : List Candle → Step (List Signal)
      unfolding replay_from
      replay cs e = replay_from cs [] e
