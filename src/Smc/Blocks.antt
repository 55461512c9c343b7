-- ===== src/Smc/Blocks.antt =====
-- `OrderBlockTracker` of orb/smc/orderblocks.py. The dicts over the two directions are two fields
-- each.
use freq_trading.Base.{
  ℕ, ◌+◌, ◌-◌, Bool, true, false, if◌then◌else◌, not, ◌&&◌, Option, none, some, List, [], ◌∷◌, ltb,
  leb,
}
use freq_trading.Num.{Float, zero_float}
use freq_trading.Models.{Candle, Direction, long, short, Result, ok, err}
use freq_trading.Indicators.{WilderAtr, new_atr, update_atr, append_bounded}
use freq_trading.Structure.Defs.{StructureEvent}

module _ ⦃fl : Float⦄ where
  open fl use {Carrier, sub, mul, quot, abs, lt, le, eq, lit}

  pub record OrderBlock : Type 0 where
    pub ts : ℕ
    pub direction : Direction
    pub top : Carrier
    pub bottom : Carrier
    pub mitigated : Bool
    pub born_bar : ℕ

  pub record OrderBlockTracker : Type 0 where
    pub disp_body_frac : Carrier
    pub disp_atr_mult : Carrier
    pub confirm_bars : ℕ
    pub max_blocks : ℕ
    pub expiry_bars : ℕ
    pub atr_period : ℕ
    pub atr : WilderAtr
    pub recent : List Candle
    pub bar : ℕ
    pub pending_long : List OrderBlock
    pub pending_short : List OrderBlock
    pub active_long : List OrderBlock
    pub active_short : List OrderBlock

  -- `_RECENT_BARS` and `_MAX_PENDING`
  abbrev pub recent_bars : ℕ
  recent_bars = 10

  abbrev pub max_pending : ℕ
  max_pending = 5

  -- `OrderBlockTracker(...)`; none where it raises ValueError
  unfoldable pub new_blocks :
      (frac mult : Carrier) (confirm max_blocks expiry period : ℕ) → Option OrderBlockTracker
  new_blocks frac mult confirm max_blocks expiry period =
      if not (lt zero_float frac && le frac (lit 1 0))
      then none
      else if le mult zero_float
      then none
      else if ltb max_blocks 1
      then none
      else if ltb expiry 1
      then none
      else if ltb period 1
      then none
      else some (record {
        disp_body_frac = frac;
        disp_atr_mult = mult;
        confirm_bars = confirm;
        max_blocks = max_blocks;
        expiry_bars = expiry;
        atr_period = period;
        atr = new_atr period;
        recent = [];
        bar = 0;
        pending_long = [];
        pending_short = [];
        active_long = [];
        active_short = [];
      })

  -- whether an active block is neither expired nor closed through
  unfoldable pub survives : Direction → ℕ → ℕ → Candle → OrderBlock → Bool
  survives d expiry bar c ob =
      if leb expiry (bar - ob.born_bar)
      then false
      else not (elim d [ long ↦ lt c.close ob.bottom | short ↦ lt ob.top c.close ])

  -- the first touch of the zone
  unfoldable pub touch : Candle → OrderBlock → OrderBlock
  touch c ob =
      if not ob.mitigated && (le c.low ob.top && le ob.bottom c.high)
      then record ob { mitigated = true }
      else ob

  -- step 1 of `update`, for one direction
  unfoldable pub refresh : Direction → ℕ → ℕ → Candle → List OrderBlock → List OrderBlock
  refresh d expiry bar c [] = []
  refresh d expiry bar c (ob ∷ obs) =
      let rest = refresh d expiry bar c obs in
      if survives d expiry bar c ob then touch c ob ∷ rest else rest

  -- the test of step 2
  unfoldable pub is_displacement : OrderBlockTracker → Candle → Bool
  is_displacement s c =
      let rng = sub c.high c.low in
      elim s.atr.atr [
        | none ↦ false
        | some atr ↦
            lt zero_float rng
            && (not (eq c.close c.open_price)
                && (le s.disp_body_frac (quot (abs (sub c.close c.open_price)) rng)
                    && le (mul s.disp_atr_mult atr) rng))
      ]

  abbrev pub or_else {ℓ} : {A : Type ℓ} → Option A → Option A → Option A
  or_else (some x) _ = some x
  or_else none o = o

  -- the last bar of the opposite colour
  unfoldable pub last_opposite : Direction → List Candle → Option Candle
  last_opposite d [] = none
  last_opposite d (c ∷ cs) = or_else (last_opposite d cs) (
      if (elim d [ long ↦ lt c.close c.open_price | short ↦ lt c.open_price c.close ])
      then some c
      else none)

  -- a candidate at the bar `prev`, kept with at most four before it
  unfoldable pub add_candidate : Direction → Candle → OrderBlockTracker → OrderBlockTracker
  add_candidate d prev s =
      let ob : OrderBlock = record {
        ts = prev.ts.micros;
        direction = d;
        top = prev.high;
        bottom = prev.low;
        mitigated = false;
        born_bar = s.bar;
      } in
      elim d [
        | long ↦ record s { pending_long = append_bounded max_pending ob s.pending_long }
        | short ↦ record s { pending_short = append_bounded max_pending ob s.pending_short }
      ]

  -- step 2
  unfoldable pub propose : Candle → OrderBlockTracker → OrderBlockTracker
  propose c s =
      let d = if lt c.open_price c.close then long else short in
      if is_displacement s c
      then elim (last_opposite d s.recent) [ none ↦ s | some prev ↦ add_candidate d prev s ]
      else s

  -- the loop of step 3
  unfoldable pub promote_all :
      (confirm most bar : ℕ) → List OrderBlock → List OrderBlock → List OrderBlock
  promote_all confirm most bar [] reg = reg
  promote_all confirm most bar (ob ∷ obs) reg =
      promote_all confirm most bar obs
        (if leb (bar - ob.born_bar) confirm then append_bounded most ob reg else reg)

  -- step 3
  unfoldable pub promote : Option StructureEvent → OrderBlockTracker → OrderBlockTracker
  promote none s = s
  promote (some ev) s = elim ev.direction [
    | long ↦ record s {
      active_long = promote_all s.confirm_bars s.max_blocks s.bar s.pending_long s.active_long;
      pending_long = [];
    }
    | short ↦ record s {
      active_short = promote_all s.confirm_bars s.max_blocks s.bar s.pending_short s.active_short;
      pending_short = [];
    }
  ]

  -- step 4, for one direction
  unfoldable pub drop_stale : (confirm bar : ℕ) → List OrderBlock → List OrderBlock
  drop_stale confirm bar [] = []
  drop_stale confirm bar (ob ∷ obs) =
      let rest = drop_stale confirm bar obs in
      if ltb confirm (bar - ob.born_bar) then rest else ob ∷ obs

  -- steps 1 to 4
  unfoldable pub sweep : Candle → Option StructureEvent → OrderBlockTracker → OrderBlockTracker
  sweep c event s =
      let bar = s.bar + 1 in
      let fresh = record s {
        bar = bar;
        active_long = refresh long s.expiry_bars bar c s.active_long;
        active_short = refresh short s.expiry_bars bar c s.active_short;
      } in
      let t = promote event (propose c fresh) in
      record t {
        pending_long = drop_stale s.confirm_bars bar t.pending_long;
        pending_short = drop_stale s.confirm_bars bar t.pending_short;
      }

  -- `update`; the ATR may raise, and the bar is not among the recent ones then
  unfoldable pub update_blocks :
      Candle → Option StructureEvent → OrderBlockTracker → Result (Unit {0}) × OrderBlockTracker
  update_blocks c event s =
      let t = sweep c event s in
      elim (update_atr t.atr c.high c.low c.close) [
        | err x ↦ (err x, t)
        | ok w ↦ (ok tt, record t { atr = w; recent = append_bounded recent_bars c t.recent })
      ]

  -- the test of `poi_at`
  unfoldable pub qualifies : (lo hi : Carrier) → OrderBlock → Bool
  qualifies lo hi ob = not ob.mitigated && (le ob.bottom hi && le lo ob.top)

  -- the loop of `poi_at`, from the last block on: the block, and the list with it marked
  unfoldable pub consume :
      (lo hi : Carrier) → List OrderBlock → Option (OrderBlock × List OrderBlock)
  consume lo hi [] = none
  consume lo hi (ob ∷ obs) = elim (consume lo hi obs) [
    | some (found, rest) ↦ some (found, ob ∷ rest)
    | none ↦
        let marked : OrderBlock = record ob { mitigated = true } in
        if qualifies lo hi ob then some (marked, marked ∷ obs) else none
  ]

  -- `poi_at`
  unfoldable pub poi_at :
      (lo hi : Carrier) → Direction → OrderBlockTracker → Option OrderBlock × OrderBlockTracker
  poi_at lo hi long s = elim (consume lo hi s.active_long) [
    | none ↦ (none, s)
    | some (ob, reg) ↦ (some ob, record s { active_long = reg })
  ]
  poi_at lo hi short s = elim (consume lo hi s.active_short) [
    | none ↦ (none, s)
    | some (ob, reg) ↦ (some ob, record s { active_short = reg })
  ]

  -- `reset`
  unfoldable pub reset_blocks : OrderBlockTracker → OrderBlockTracker
  reset_blocks s = record s {
    atr = new_atr s.atr_period;
    recent = [];
    bar = 0;
    pending_long = [];
    pending_short = [];
    active_long = [];
    active_short = [];
  }
