-- ===== src/SvpEngine/Setups.antt =====
-- The setups of `SvpEngine` and the entry that they share.
use freq_trading.Base.{
  suc, Bool, false, true, if◌then◌else◌, not, ◌&&◌, ◌||◌, Option, none, some, List, [], ◌∷◌,
}
use freq_trading.Num.{Float, zero_float, max, min}
use freq_trading.Models.{
  Candle, Direction, long, short, Signal, entry, PositionState, range_defined, breakout, SvpSetup,
  edge_rot_vah_fade, edge_rot_val_fade, lvn_break_long, lvn_break_short, absorb_long, absorb_short,
  svp_setup,
}
use freq_trading.Profile.Nodes.{ProfileLevels, Shape, balanced}
use freq_trading.SmcEngine.Entry.{entry_event, atr_or_zero}
use freq_trading.SvpEngine.Config.{SvpConfig, svp_row_size, buffer}
use freq_trading.SvpEngine.State.{SvpEngine, svp_signal, emit_transition, emit_signal}
use freq_trading.SvpEngine.Filters.{entry_allowed, risk_stop}

module _ ⦃fl : Float⦄ where
  open fl use {Carrier, lit, add, sub, mul, abs, lt, le, eq}

  -- the position, the count and the records of an entry at a stop
  unfoldable pub open_setup :
      Candle
      → Direction
      → (stop : Carrier) → SvpSetup
      → ProfileLevels
      → SvpEngine
      → Option Signal × SvpEngine
  unfolding emit_transition emit_signal
  open_setup c direction stop setup lv e =
      let pos : PositionState = record {
        direction = direction;
        entry_ts = c.ts.micros;
        entry_price = c.close;
        stop = stop;
        atr_at_entry = atr_or_zero e.atr.atr;
        tp = none;
        bars_held = 0;
        mfe = zero_float;
        mae = zero_float;
      } in
      let f = record e { position = some pos; traded = suc e.traded } in
      let g = emit_transition c.ts.micros range_defined breakout (entry_event direction) f in
      let sig =
        svp_signal c.ts.micros entry direction c.close range_defined breakout (svp_setup setup)
          (some stop) (some lv.vah) (some lv.val) 0 in
      (some sig, emit_signal sig (record g { state = breakout }))

  module _ (k : SvpConfig) (c : Candle) (lv : ProfileLevels) where
    -- `_enter`
    unfoldable pub enter_setup :
        Direction → (stop : Carrier) → SvpSetup → SvpEngine → Option Signal × SvpEngine
    unfolding entry_allowed risk_stop open_setup
    enter_setup direction stop setup e =
        if entry_allowed k c direction e
        then open_setup c direction (risk_stop k c direction stop e.atr.atr) setup lv e
        else (none, e)

    -- `_edge_rotation` on a day of the balanced shape
    unfoldable pub fade_edge : SvpEngine → Option Signal × SvpEngine
    unfolding enter_setup
    fade_edge e =
        let pierced_high = le lv.vah c.high in
        let pierced_low = le c.low lv.val in
        let closed_inside = lt lv.val c.close && lt c.close lv.vah in
        if ((pierced_high && not pierced_low) && closed_inside) && k.allow_short
        then enter_setup short (add lv.vah (buffer k)) edge_rot_vah_fade e
        else if ((pierced_low && not pierced_high) && closed_inside) && k.allow_long
        then enter_setup long (sub lv.val (buffer k)) edge_rot_val_fade e
        else (none, e)

    abbrev pub is_d : Shape → Bool
    is_d balanced = true
    is_d _ = false

    -- `_edge_rotation`
    unfoldable pub edge_rotation : SvpEngine → Option Signal × SvpEngine
    unfolding fade_edge
    edge_rotation e = if is_d lv.shape then fade_edge e else (none, e)

    -- the loop of `_lvn_break`
    unfoldable pub break_from :
        (prev_close : Carrier) → List Carrier → SvpEngine → Option Signal × SvpEngine
    unfolding enter_setup
    break_from prev_close [] e = (none, e)
    break_from prev_close (lvn ∷ lvns) e =
        let rest = break_from prev_close lvns e in
        if (le prev_close lvn && lt lvn c.close) && k.allow_long
        then enter_setup long (sub lvn (buffer k)) lvn_break_long e
        else if (le lvn prev_close && lt c.close lvn) && k.allow_short
        then enter_setup short (add lvn (buffer k)) lvn_break_short e
        else rest

    -- `_lvn_break`
    unfoldable pub lvn_break : Option Carrier → SvpEngine → Option Signal × SvpEngine
    unfolding break_from
    lvn_break none e = (none, e)
    lvn_break (some prev_close) e = break_from prev_close lv.lvns e

    -- some node is within a row of the close
    abbrev pub near_node : Carrier → List Carrier → Bool
    near_node row [] = false
    near_node row (h ∷ hs) = le (abs (sub c.close h)) row || near_node row hs

    -- the volume is heavy for the average
    abbrev pub is_heavy : Option Carrier → Bool
    is_heavy none = false
    is_heavy (some avg) =
        not ((eq avg zero_float || le avg zero_float) || lt c.volume (mul k.absorb_vol_mult avg))

    -- the part of `_absorption_proxy` that reads the wicks
    unfoldable pub reject_wick : (body : Carrier) → SvpEngine → Option Signal × SvpEngine
    unfolding enter_setup
    reject_wick body e =
        let upper = sub c.high (max c.open_price c.close) in
        let lower = sub (min c.open_price c.close) c.low in
        let wick_min = mul k.absorb_wick_mult (max body k.tick_size) in
        if (le wick_min lower && le upper lower) && k.allow_long
        then enter_setup long (sub c.low (buffer k)) absorb_long e
        else if (le wick_min upper && lt lower upper) && k.allow_short
        then enter_setup short (add c.high (buffer k)) absorb_short e
        else (none, e)

    -- `_absorption_proxy`
    unfoldable pub absorption_proxy : Option Carrier → SvpEngine → Option Signal × SvpEngine
    unfolding reject_wick
    absorption_proxy avg e =
        let body = abs (sub c.close c.open_price) in
        if not (is_heavy avg)
        then (none, e)
        else if lt (mul k.absorb_body_ticks k.tick_size) body
        then (none, e)
        else if not (near_node (svp_row_size k) lv.hvns)
        then (none, e)
        else reject_wick body e

    -- a setup that is enabled, then the others if it gave no signal
    abbrev pub try_setup :
        Bool
        → (SvpEngine → Option Signal × SvpEngine)
        → (SvpEngine → Option Signal × SvpEngine)
        → SvpEngine
        → Option Signal × SvpEngine
    try_setup false f g e = g e
    try_setup true f g e = first_of (f e)
      where
        first_of : Option Signal × SvpEngine → Option Signal × SvpEngine
        first_of (none, e1) = g e1
        first_of (some sig, e1) = (some sig, e1)

    -- `_detect_setup`
    unfoldable pub detect_setup :
        (prev_close avg : Option Carrier) → SvpEngine → Option Signal × SvpEngine
    unfolding edge_rotation lvn_break absorption_proxy
    detect_setup prev_close avg e =
        try_setup k.enable_edge_rotation edge_rotation
          (try_setup k.enable_lvn (lvn_break prev_close)
            (try_setup k.enable_absorption_proxy (absorption_proxy avg) (λ f. (none, f))))
          e
