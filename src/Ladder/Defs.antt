-- ===== src/Ladder/Defs.antt =====
-- `LadderExitManager` of orb/smc/exits.py. Positions, actions and the dict of trades are those of
-- the babysitter. `spread_fn` is what the callable answers for each ticket of the bar.
use freq_trading.Base.{
  ℕ, ◌+◌, Bool, true, false, if◌then◌else◌, not, ◌&&◌, ◌||◌, Option, none, some, List, [], ◌∷◌,
  ◌++◌, ◌==◌,
}
use freq_trading.Num.{Float, zero_float, max, min}
use freq_trading.Models.{Candle}
use freq_trading.Babysitter.Defs.{
  BrokerPosition, Action, partial_close, update_sl, is_long_position, has_stop, current_stop,
  contains, get, put, retain, tickets,
}

-- `del dict[t]`
abbrev pub remove {ℓ} : {V : Type ℓ} → ℕ → List (ℕ × V) → List (ℕ × V)
remove t [] = []
remove t ((u, v) ∷ m) = let rest = remove t m in if u == t then rest else (u, v) ∷ rest

module _ ⦃fl : Float⦄ where
  open fl use {Carrier, lit, add, sub, mul, quot, abs, round_to, floor, lt, le, eq}

  -- `_PosState`; `filled` is a set of indices
  pub record PosState : Type 0 where
    pub entry : Carrier
    pub d : Carrier
    pub vol0 : Carrier
    pub filled : List ℕ
    pub stage1_done : Bool
    pub stage2_done : Bool

  pub record LadderExitManager : Type 0 where
    pub partial_levels : List (Carrier × Carrier)
    pub final_tp_r : Carrier
    pub stage1_at_r : Carrier
    pub stage2_at_r : Carrier
    pub stage2_min_lock_r : Carrier
    pub stage2_buffer : Carrier
    pub comm_per_lot : Carrier
    pub value_per_move : Carrier
    pub spread : Carrier
    pub vol_min : Carrier
    pub vol_step : Carrier
    pub default_d : Carrier

  -- the fields that change: `_trades` and `_prev_candle`
  pub record LadderState : Type 0 where
    pub trades : List (ℕ × PosState)
    pub prev_candle : Option Candle

  -- the checks of the constructor
  unfoldable pub valid_ladder : LadderExitManager → Bool
  valid_ladder k =
      if le k.vol_step zero_float || le k.vol_min zero_float
      then false
      else if le k.default_d zero_float
      then false
      else if le k.stage1_at_r zero_float
      then false
      else if le k.stage2_at_r k.stage1_at_r
      then false
      else if le k.stage2_min_lock_r zero_float
      then false
      else if le k.value_per_move zero_float
      then false
      else true

  abbrev pub eps : Carrier
  eps = lit 1 9

  -- `_snap_down`
  unfoldable pub snap_down : Carrier → Carrier → Carrier
  snap_down v step = round_to (mul (floor (add (quot v step) eps)) step) 10

  module _ (k : LadderExitManager) where
    -- `_current_spread`
    abbrev pub current_spread : Option (ℕ → Carrier) → ℕ → Carrier
    current_spread none t = k.spread
    current_spread (some f) t = f t

    -- `_stage1_level`
    unfoldable pub stage1_level : Carrier → Carrier → Bool → Carrier
    stage1_level spread_now entry long_pos =
        let buf = add spread_now (quot k.comm_per_lot k.value_per_move) in
        if long_pos then add entry buf else sub entry buf

    -- `_stage2_level`
    unfoldable pub stage2_level : Carrier → Carrier → Candle → Bool → Carrier
    stage2_level entry d candidate long_pos =
        if long_pos
        then max (sub candidate.low k.stage2_buffer) (add entry (mul k.stage2_min_lock_r d))
        else min (add candidate.high k.stage2_buffer) (sub entry (mul k.stage2_min_lock_r d))

    -- the state of a ticket that is not tracked yet
    unfoldable pub new_state : BrokerPosition → PosState
    new_state p =
        let d = if has_stop p then abs (sub p.price_open p.sl) else k.default_d in
        record {
          entry = p.price_open;
          d = if le d zero_float then k.default_d else d;
          vol0 = p.volume;
          filled = [];
          stage1_done = false;
          stage2_done = false;
        }

    unfoldable pub state_of : BrokerPosition → List (ℕ × PosState) → PosState
    state_of p m = elim (get p.ticket m) [ some st ↦ st | none ↦ new_state p ]

    -- the profit at a close, in units of the distance
    unfoldable pub r_at : BrokerPosition → PosState → Carrier → Carrier
    r_at p st close =
        quot (if is_long_position p then sub close st.entry else sub st.entry close) st.d

    -- a rung that is due: filled, and its order where it can be filled
    unfoldable pub fill_rung :
        BrokerPosition → ℕ → Carrier → Carrier → PosState → PosState × Carrier × List Action
    fill_rung p i frac emitted st =
        let vol = snap_down (mul st.vol0 frac) k.vol_step in
        let residual = sub (sub p.volume emitted) vol in
        let least = sub k.vol_min eps in
        let marked = record st { filled = i ∷ st.filled } in
        if lt vol least || lt residual least
        then (marked, emitted, [])
        else (marked, add emitted vol, partial_close p.ticket vol ∷ [])

    -- one turn of the loop over the rungs, at the index `i`
    unfoldable pub rung_step :
        BrokerPosition
        → Carrier
        → ℕ
        → Carrier
        → Carrier
        → Carrier
        → PosState
        → PosState × Carrier × List Action
    rung_step p r i r_lvl frac emitted st =
        if contains i st.filled || lt r r_lvl
        then (st, emitted, [])
        else fill_rung p i frac emitted st

    -- the loop over the rungs from the index `i` on, with the volume closed so far on this bar
    unfoldable pub rungs :
        BrokerPosition
        → Carrier
        → ℕ
        → List (Carrier × Carrier)
        → Carrier
        → PosState
        → PosState × Carrier × List Action
    rungs p r i [] emitted st = (st, emitted, [])
    rungs p r i ((r_lvl, frac) ∷ ls) emitted st =
        let (st', emitted', acts) = rung_step p r i r_lvl frac emitted st in
        let (st'', emitted'', rest) = rungs p r (i + 1) ls emitted' st' in
        (st'', emitted'', acts ++ rest)

    -- the stop that a stage asks for, and whether it is stage 2
    unfoldable pub staged_sl :
        Option (ℕ → Carrier) → BrokerPosition → Candle → PosState → Option (Carrier × Bool)
    staged_sl fn p candidate st =
        let r_n = r_at p st candidate.close in
        if le k.stage2_at_r r_n
        then some (stage2_level st.entry st.d candidate (is_long_position p), true)
        else if not st.stage1_done && le k.stage1_at_r r_n
        then some (stage1_level (current_spread fn p.ticket) st.entry (is_long_position p), false)
        else none

    -- the new stop is strictly tighter than the old one, and on the right side of the close
    unfoldable pub accepts : BrokerPosition → Carrier → Carrier → Bool
    accepts p close new_sl =
        (eq (current_stop p) zero_float
          || ((is_long_position p && lt (current_stop p) new_sl)
              || (not (is_long_position p) && lt new_sl (current_stop p))))
        && (if is_long_position p then lt new_sl close else lt close new_sl)

    -- part 3 of the loop: the two-stage stop
    unfoldable pub stage_stop :
        Option (ℕ → Carrier)
        → BrokerPosition
        → Carrier
        → Option Candle
        → PosState
        → PosState × List Action
    stage_stop fn p close none st = (st, [])
    stage_stop fn p close (some candidate) st =
        if st.stage2_done then (st, []) else elim (staged_sl fn p candidate st) [
          | none ↦ (st, [])
          | some (new_sl, second) ↦
              if accepts p close new_sl
              then (
                record st {
                  stage1_done = true;
                  stage2_done = if second then true else st.stage2_done;
                },
                update_sl p.ticket new_sl ∷ [],
              )
              else (st, [])
        ]

    -- part 2: the remainder at the final target
    unfoldable pub final_close : BrokerPosition → Carrier → List Action
    final_close p emitted =
        let remainder = sub p.volume emitted in
        if lt eps remainder then partial_close p.ticket remainder ∷ [] else []

    -- the body of the loop of `on_bar` for a trade: its state, none once it is forgotten
    unfoldable pub step_trade :
        Option (ℕ → Carrier)
        → BrokerPosition
        → Carrier
        → Option Candle
        → PosState
        → Option PosState × List Action
    step_trade fn p close candidate st =
        let r = r_at p st close in
        let (st', emitted, acts) = rungs p r 0 k.partial_levels zero_float st in
        if lt zero_float k.final_tp_r && le k.final_tp_r r
        then (none, acts ++ final_close p emitted)
        else let (st'', moved) = stage_stop fn p close candidate st' in (some st'', acts ++ moved)

    abbrev pub store : ℕ → Option PosState → List (ℕ × PosState) → List (ℕ × PosState)
    store t none m = remove t m
    store t (some st) m = put t st m

    -- the loop of `on_bar`
    unfoldable pub ladder_all :
        Option (ℕ → Carrier)
        → List BrokerPosition
        → Carrier
        → Option Candle
        → List (ℕ × PosState)
        → List (ℕ × PosState) × List Action
    ladder_all fn [] close candidate m = (m, [])
    ladder_all fn (p ∷ ps) close candidate m =
        let (o, acts) = step_trade fn p close candidate (state_of p m) in
        let (m', rest) = ladder_all fn ps close candidate (store p.ticket o m) in (m', acts ++ rest)

    -- `on_bar`
    unfoldable pub ladder_on_bar :
        Option (ℕ → Carrier)
        → List BrokerPosition
        → Candle
        → LadderState
        → LadderState × List Action
    ladder_on_bar fn ps c s =
        let (m, acts) = ladder_all fn ps c.close s.prev_candle s.trades in
        (record { trades = retain (tickets ps) m; prev_candle = some c }, acts)
