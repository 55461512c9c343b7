-- ===== src/SvpEngine/Outcomes.antt =====
-- What an armed `SvpEngine` does with a bar.
use freq_trading.Base.{
  ◌+◌, ◌<◌, ◌≡◌, ◌⊎◌, inl, inr, refl, true, false, if◌then◌else◌, sym, subst, Option, none, some,
  ◌∷◌, arith, leb, Bool-cases,
}
use freq_trading.Num.{Float, zero_float, max, min}
use freq_trading.Models.{
  Candle, Direction, long, short, Signal, SvpSetup, svp_setup, PositionState, entry, range_defined,
  breakout, Event, entry_long, entry_short,
}
use freq_trading.Engine.State.{transition, signal}
use freq_trading.SmcEngine.Entry.{entry_event}
use freq_trading.Profile.Nodes.{ProfileLevels}
use freq_trading.SvpEngine.Config.{SvpConfig}
use freq_trading.SvpEngine.State.{SvpEngine, emit_transition, emit_signal}
use freq_trading.SvpEngine.Filters.{
  entry_allowed, in_blackout, trend_ok, delta_confirms, risk_stop, stop_at, wider,
}
use freq_trading.SvpEngine.Setups.{open_setup}
use freq_trading.SvpEngine.Step.{on_armed}
use freq_trading.SvpEngine.Triggers.{permits, IsTrigger}
use freq_trading.SvpEngine.Detect.{detect_setup-EntersOr}

module _ ⦃fl : Float⦄ (k : SvpConfig) (c : Candle) where
  open fl use {Carrier, add, sub, mul, le}

  -- the stop at the multiple of the ATR from the close, not nearer than the structural one where the
  -- configuration says so
  abbrev pub IsAtrStop : Direction → (structural atr stop : Carrier) → Type 0
  IsAtrStop long structural atr stop = stop ≡ (
      if k.atr_stop_floor_structural
      then min (sub c.close (mul k.atr_stop_mult atr)) structural
      else sub c.close (mul k.atr_stop_mult atr))
  IsAtrStop short structural atr stop = stop ≡ (
      if k.atr_stop_floor_structural
      then max (add c.close (mul k.atr_stop_mult atr)) structural
      else add c.close (mul k.atr_stop_mult atr))

  -- the structural stop without an ATR or a multiple of it, otherwise the stop of the ATR
  abbrev pub IsStop :
      Direction → (structural : Carrier) → Option Carrier → (stop : Carrier) → Type 0
  IsStop direction structural none stop = stop ≡ structural
  IsStop direction structural (some atr) stop =
      ((le k.atr_stop_mult zero_float ≡ true) × (stop ≡ structural))
      ⊎ ((le k.atr_stop_mult zero_float ≡ false) × IsAtrStop direction structural atr stop)

  -- the event of an entry
  abbrev pub IsEntryEvent : Direction → Event → Type 0
  IsEntryEvent long event = event ≡ entry_long
  IsEntryEvent short event = event ≡ entry_short

  -- The position, the count, the state, and what was emitted after an entry.
  pub record IsEntered (lv : ProfileLevels) (direction : Direction) (stop : Carrier)
      (setup : SvpSetup) (e f : SvpEngine) (sig : Signal) (pos : PositionState) (event : Event)
      : Type 0 where
    pub state : f.state ≡ breakout
    pub traded : f.traded ≡ e.traded + 1
    pub position : f.position ≡ some pos
    pub pos_direction : pos.direction ≡ direction
    pub pos_entry_ts : pos.entry_ts ≡ c.ts.micros
    pub pos_entry_price : pos.entry_price ≡ c.close
    pub pos_stop : pos.stop ≡ stop
    pub pos_tp : pos.tp ≡ none
    pub pos_bars_held : pos.bars_held ≡ 0
    pub kind : sig.kind ≡ entry
    pub direction_same : sig.direction ≡ direction
    pub price : sig.price ≡ c.close
    pub stop_same : sig.stop ≡ some stop
    pub reason : sig.reason ≡ svp_setup setup
    pub range_high : sig.range_high ≡ some lv.vah
    pub range_low : sig.range_low ≡ some lv.val
    pub event_named : IsEntryEvent direction event
    pub emitted :
        f.emitted
        ≡ signal sig
          ∷ transition (record {
            ts = c.ts.micros;
            state_from = range_defined;
            state_to = breakout;
            event = event;
          })
          ∷ e.emitted

  -- A bar changes nothing and gives no signal; or the session has a trade left, there are levels, a
  -- setup is set off in a permitted direction, no filter objects, and the engine enters.
  abbrev pub Enters :
      (prev_close : Option Carrier)
      → Option ProfileLevels
      → (avg : Option Carrier) → SvpEngine
      → Option Signal × SvpEngine
      → Type 0
  Enters prev_close levels avg e r =
      (r ≡ (none, e))
      ⊎ ((e.traded < k.max_trades_per_session)
          × ((lv : ProfileLevels) × (direction : Direction) × (structural : Carrier)
              × (stop : Carrier) × (setup : SvpSetup) × (sig : Signal) × (pos : PositionState)
              × (event : Event) × (levels ≡ some lv)
              × (permits k c direction ≡ true)
              × (in_blackout k c.ts.micros ≡ false)
              × (trend_ok k direction e ≡ true)
              × (delta_confirms k c e ≡ true)
              × IsTrigger k c lv prev_close avg setup direction structural
              × IsStop direction structural e.atr.atr stop
              × (r.0 ≡ some sig)
              × IsEntered lv direction stop setup e r.1 sig pos event))

  risk_stop-IsStop :
      (direction : Direction) (structural : Carrier) (o : Option Carrier)
      → IsStop direction structural o (risk_stop k c direction structural o)
  unfolding risk_stop
  risk_stop-IsStop direction structural none = refl
  risk_stop-IsStop direction structural (some atr) =
      elim (Bool-cases (le k.atr_stop_mult zero_float)) [
        | inl b ↦ rw b (inl (refl, refl))
        | inr b ↦ rw b (inr (refl, by_direction direction))
      ]
    where
      by_direction :
          (d : Direction)
          → IsAtrStop d structural atr (
              if k.atr_stop_floor_structural
              then wider d (stop_at d c.close (mul k.atr_stop_mult atr)) structural
              else stop_at d c.close (mul k.atr_stop_mult atr))
      by_direction long = refl
      by_direction short = refl

  entry_allowed-filters :
      (direction : Direction) (e : SvpEngine)
      → entry_allowed k c direction e ≡ true
      → (in_blackout k c.ts.micros ≡ false)
        × (trend_ok k direction e ≡ true)
        × (delta_confirms k c e ≡ true)
  unfolding entry_allowed
  entry_allowed-filters direction e h = ground arith

  entry_event-IsEntryEvent : (d : Direction) → IsEntryEvent d (entry_event d)
  entry_event-IsEntryEvent long = refl
  entry_event-IsEntryEvent short = refl

  open_setup-Enters :
      (prev_close avg : Option Carrier) (lv : ProfileLevels) (direction : Direction)
      (structural : Carrier) (setup : SvpSetup) (e : SvpEngine)
      → e.traded < k.max_trades_per_session
      → permits k c direction ≡ true
      → entry_allowed k c direction e ≡ true
      → IsTrigger k c lv prev_close avg setup direction structural
      → Enters prev_close
          (some lv)
          avg
          e
          (open_setup c direction (risk_stop k c direction structural e.atr.atr) setup lv e)
  unfolding open_setup emit_transition emit_signal
  open_setup-Enters prev_close avg lv direction structural setup e n a h g =
      let (b, t, d) = entry_allowed-filters direction e h in
      inr (
        n,
        (
          lv,
          direction,
          structural,
          risk_stop k c direction structural e.atr.atr,
          setup,
          _,
          _,
          entry_event direction,
          refl,
          a,
          b,
          t,
          d,
          g,
          risk_stop-IsStop direction structural e.atr.atr,
          refl,
          record {
            state = refl;
            traded = omega arith;
            position = refl;
            pos_direction = refl;
            pos_entry_ts = refl;
            pos_entry_price = refl;
            pos_stop = refl;
            pos_tp = refl;
            pos_bars_held = refl;
            kind = refl;
            direction_same = refl;
            price = refl;
            stop_same = refl;
            reason = refl;
            range_high = refl;
            range_low = refl;
            event_named = entry_event-IsEntryEvent direction;
            emitted = refl;
          },
        ),
      )

  -- On an armed engine a bar changes nothing and gives no signal; or the session has a trade left,
  -- there are levels, the bar shows an enabled setup in a permitted direction and no filter objects:
  -- then the engine is in BREAKOUT with a position of that direction at the close, one trade more is
  -- counted, the ENTRY signal and its transition are emitted, and the stop is the setup's, or the
  -- one at the multiple of the ATR.
  pub on_armed-Enters :
      (prev_close : Option Carrier) (levels : Option ProfileLevels) (avg : Option Carrier)
      (e : SvpEngine)
      → Enters prev_close levels avg e (on_armed k c prev_close levels avg e)
  unfolding on_armed
  on_armed-Enters prev_close none avg e = inl refl
  on_armed-Enters prev_close (some lv) avg e =
      elim (Bool-cases (leb k.max_trades_per_session e.traded)) [
        | inl b ↦ rw b (inl refl)
        | inr b ↦ rw b (elim (detect_setup-EntersOr k c lv prev_close avg e) [
          | inl p ↦ inl p
          | inr (d, structural, setup, a, h, g, p) ↦
              subst (Enters prev_close (some lv) avg e) (sym p)
                (open_setup-Enters prev_close avg lv d structural setup e (ground arith) a h g)
        ])
      ]
