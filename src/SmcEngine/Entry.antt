-- ===== src/SmcEngine/Entry.antt =====
-- The methods of `SmcEngine` that resolve a point of interest and enter.
use freq_trading.Base.{
  suc, ◌+◌, Bool, false, if◌then◌else◌, ◌||◌, Option, none, some, List, [], ◌∷◌, ◌++◌, length, ltb,
}
use freq_trading.Num.{Float, zero_float, max, min}
use freq_trading.Models.{
  Candle, Direction, long, short, Confluence, poi, PoiSource, poc, prior_poc, d1_ob, h4_ob, Signal,
  entry, PositionState, Event, entry_long, entry_short, range_defined, breakout, smc_setup,
}
use freq_trading.Structure.Defs.{StructureEvent}
use freq_trading.Smc.Config.{SmcConfig}
use freq_trading.Smc.Blocks.{OrderBlock, OrderBlockTracker, poi_at}
use freq_trading.SmcEngine.State.{
  SmcEngine, Profile, PriorProfile, signal_of, emit_transition, emit_signal,
}
use freq_trading.SmcEngine.Checks.{check_sweep, fired_checks}

module _ ⦃fl : Float⦄ where
  open fl use {Carrier, add, sub, abs, lt, le, eq}

  -- a price that is close enough to a point of control, where there is one
  abbrev pub near : SmcConfig → Carrier → Option Carrier → Bool
  near cfg price none = false
  near cfg price (some p) = le (abs (sub price p)) cfg.poc_tol

  abbrev pub prior_poc_of : Option PriorProfile → Option Carrier
  prior_poc_of none = none
  prior_poc_of (some p) = some p.poc

  -- the lower edge, or the upper edge, lowered or raised by a block and by the swept level
  abbrev pub widen : Direction → Carrier → Option Carrier → Carrier
  widen _ edge none = edge
  widen long edge (some x) = min edge x
  widen short edge (some x) = max edge x

  abbrev pub far_edge : Direction → Option OrderBlock → Option Carrier
  far_edge _ none = none
  far_edge long (some ob) = some ob.bottom
  far_edge short (some ob) = some ob.top

  abbrev pub own_edge : Direction → Candle → Carrier
  own_edge long c = c.low
  own_edge short c = c.high

  -- the price beyond which the setup is invalid
  abbrev pub invalidation : Direction → Candle → Option OrderBlock → Option Carrier → Carrier
  invalidation d c ob swept = widen d (widen d (own_edge d c) (far_edge d ob)) swept

  -- the stop of `_enter`
  unfoldable pub structural_stop :
      SmcConfig → Direction → Candle → Option OrderBlock → Option Carrier → Carrier
  structural_stop cfg long c ob swept = sub (invalidation long c ob swept) cfg.stop_buffer
  structural_stop cfg short c ob swept = add (invalidation short c ob swept) cfg.stop_buffer

  -- `self._atr.value or 0.0`
  abbrev pub atr_or_zero : Option Carrier → Carrier
  atr_or_zero none = zero_float
  atr_or_zero (some a) = if eq a zero_float then zero_float else a

  abbrev pub entry_event : Direction → Event
  entry_event long = entry_long
  entry_event short = entry_short

  -- the distance of the stop is refused
  abbrev pub bad_distance : SmcConfig → Carrier → Bool
  bad_distance cfg dist = le dist zero_float || lt cfg.stop_max_dist dist

  -- a found point of interest: its source and the block that it consumed, if one
  abbrev pub Found : Type 0
  Found = Option (PoiSource × Option OrderBlock)

  module _ {Pr : Type 0} where
    -- the block of the four hour timeframe, after the one of the day gave none
    abbrev pub found_h4 :
        Option OrderBlock × OrderBlockTracker → SmcEngine Pr → Found × SmcEngine Pr
    found_h4 (none, t) e = (none, record e { ob_h4 = t })
    found_h4 (some ob, t) e = (some (h4_ob, some ob), record e { ob_h4 = t })

    abbrev pub found_d1 :
        Candle
        → Direction
        → Option OrderBlock × OrderBlockTracker
        → SmcEngine Pr
        → Found × SmcEngine Pr
    found_d1 c bias (none, t) e =
        let f = record e { ob_d1 = t } in found_h4 (poi_at c.low c.high bias e.ob_h4) f
    found_d1 c bias (some ob, t) e = (some (d1_ob, some ob), record e { ob_d1 = t })

    -- `_resolve_poi`
    unfoldable pub resolve_poi :
        Profile Pr → SmcConfig → Candle → Direction → SmcEngine Pr → Found × SmcEngine Pr
    unfolding poi_at
    resolve_poi profile cfg c bias e =
        if near cfg c.close (profile.poc e.day_profile)
        then (some (poc, none), e)
        else if near cfg c.close (prior_poc_of e.prior)
        then (some (prior_poc, none), e)
        else found_d1 c bias (poi_at c.low c.high bias e.ob_d1) e

    -- the position, the count and the records of an entry at a stop
    unfoldable pub commit :
        Candle
        → Direction
        → List Confluence
        → PoiSource
        → (stop : Carrier) → SmcEngine Pr
        → Option Signal × SmcEngine Pr
    unfolding emit_transition emit_signal
    commit c direction fired source stop e =
        let atr = atr_or_zero e.atr.atr in
        let pos : PositionState = record {
          direction = direction;
          entry_ts = c.ts.micros;
          entry_price = c.close;
          stop = stop;
          atr_at_entry = atr;
          tp = none;
          bars_held = 0;
          mfe = zero_float;
          mae = zero_float;
        } in
        let f = record e { position = some pos; traded_today = suc e.traded_today } in
        let g = emit_transition c.ts.micros range_defined breakout (entry_event direction) f in
        let sig =
          signal_of c.ts.micros entry direction c.close range_defined breakout
            (smc_setup direction fired source) (some stop) (some atr) 0 in
        (some sig, emit_signal sig (record g { state = breakout }))

    -- `_enter`
    unfoldable pub enter :
        SmcConfig
        → Candle
        → Direction
        → List Confluence
        → PoiSource
        → Option OrderBlock
        → Option Carrier
        → SmcEngine Pr
        → Option Signal × SmcEngine Pr
    unfolding structural_stop commit
    enter cfg c direction fired source ob swept e =
        let stop = structural_stop cfg direction c ob swept in
        if bad_distance cfg (abs (sub c.close stop))
        then (none, e)
        else commit c direction fired source stop e

    -- the last part of `_confluence`, with what `_resolve_poi` found
    unfoldable pub conclude :
        SmcConfig
        → Candle
        → Direction
        → List Confluence
        → Option Carrier
        → Found × SmcEngine Pr
        → Option Signal × SmcEngine Pr
    unfolding enter
    conclude cfg c bias fired swept (none, e) = (none, e)
    conclude cfg c bias fired swept (some (source, ob), e) =
        let all = fired ++ (poi ∷ []) in
        if ltb (length all) cfg.min_confluences
        then (none, e)
        else enter cfg c bias all source ob swept e

    -- `_confluence`
    unfoldable pub confluence :
        Profile Pr
        → SmcConfig
        → Candle
        → Option StructureEvent
        → Direction
        → SmcEngine Pr
        → Option Signal × SmcEngine Pr
    unfolding conclude resolve_poi fired_checks check_sweep
    confluence profile cfg c event bias e =
        let fired = fired_checks profile cfg c event bias e in
        if ltb (length fired + 1) cfg.min_confluences
        then (none, e)
        else conclude cfg c bias fired (check_sweep c bias e) (resolve_poi profile cfg c bias e)
