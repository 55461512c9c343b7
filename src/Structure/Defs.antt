-- ===== src/Structure/Defs.antt =====
-- `StructureTracker` of orb/smc/structure.py. The bound of a deque is its `maxlen`.
use freq_trading.Base.{
  ℕ, ◌+◌, ◌*◌, Bool, true, false, if◌then◌else◌, ◌&&◌, ◌||◌, Option, none, some, List, [], ◌∷◌,
  length, get_elem?, last?, ltb, ◌==◌,
}
use freq_trading.Num.{Float}
use freq_trading.Models.{Candle, Direction, long, short}
use freq_trading.Indicators.{append_bounded}

pub data BreakKind : Type 0 where
  bos choch : BreakKind

module _ ⦃fl : Float⦄ where
  open fl use {Carrier, lt, le}

  pub record SwingPoint : Type 0 where
    pub ts : ℕ
    pub price : Carrier

  pub record StructureEvent : Type 0 where
    pub ts : ℕ
    pub kind : BreakKind
    pub direction : Direction
    pub level : Carrier

  -- an entry of the window: time, high and low
  pub record Bar : Type 0 where
    pub ts : ℕ
    pub high : Carrier
    pub low : Carrier

  pub record StructureTracker : Type 0 where
    pub lookback : ℕ
    pub max_swings : ℕ
    pub window : List Bar
    pub highs : List SwingPoint
    pub lows : List SwingPoint
    pub ref_high : Option SwingPoint
    pub ref_low : Option SwingPoint
    pub trend : Option Direction

  -- `StructureTracker(...)`; none where it raises ValueError
  unfoldable pub new_tracker : ℕ → ℕ → Option StructureTracker
  new_tracker lookback max_swings =
      if ltb lookback 1
      then none
      else if ltb max_swings 1
      then none
      else some (record {
        lookback = lookback;
        max_swings = max_swings;
        window = [];
        highs = [];
        lows = [];
        ref_high = none;
        ref_low = none;
        trend = none;
      })

  -- `all(hi > w[j] for j in range(w) if j != k)`; `j` counts the bars already passed
  abbrev pub all_below : Carrier → ℕ → ℕ → List Bar → Bool
  all_below hi k j [] = true
  all_below hi k j (b ∷ bs) = (j == k || lt b.high hi) && all_below hi k (j + 1) bs

  abbrev pub all_above : Carrier → ℕ → ℕ → List Bar → Bool
  all_above lo k j [] = true
  all_above lo k j (b ∷ bs) = (j == k || lt lo b.low) && all_above lo k (j + 1) bs

  -- the bar at the centre is a swing high
  unfoldable pub confirm_high : Bar → StructureTracker → StructureTracker
  confirm_high b s =
      let sp : SwingPoint = record { ts = b.ts; price = b.high } in
      if all_below b.high s.lookback 0 s.window
      then record s { highs = append_bounded s.max_swings sp s.highs; ref_high = some sp }
      else s

  -- the bar at the centre is a swing low
  unfoldable pub confirm_low : Bar → StructureTracker → StructureTracker
  confirm_low b s =
      let sp : SwingPoint = record { ts = b.ts; price = b.low } in
      if all_above b.low s.lookback 0 s.window
      then record s { lows = append_bounded s.max_swings sp s.lows; ref_low = some sp }
      else s

  -- the first part of `update`: the window, and the swings that it confirms
  unfoldable pub confirm : Candle → StructureTracker → StructureTracker
  confirm c s =
      let w = 2 * s.lookback + 1 in
      let b : Bar = record { ts = c.ts.micros; high = c.high; low = c.low } in
      let s1 = record s { window = append_bounded w b s.window } in
      if length s1.window == w
      then elim (get_elem? s1.window s.lookback) [
        | none ↦ s1
        | some m ↦ confirm_low m (confirm_high m s1)
      ]
      else s1

  -- a close above the reference high, or below the reference low
  unfoldable pub breaks_up : Candle → StructureTracker → Bool
  breaks_up c s = elim s.ref_high [ none ↦ false | some r ↦ lt r.price c.close ]

  unfoldable pub breaks_down : Candle → StructureTracker → Bool
  breaks_down c s = elim s.ref_low [ none ↦ false | some r ↦ lt c.close r.price ]

  -- the direction of the break; if a bar breaks both, its body decides
  unfoldable pub break_direction : Candle → StructureTracker → Option Direction
  break_direction c s =
      let up = breaks_up c s in
      let down = breaks_down c s in
      if up && down
      then some (if le c.open_price c.close then long else short)
      else if up
      then some long
      else if down
      then some short
      else none

  abbrev pub is_trend : Direction → Option Direction → Bool
  is_trend long (some long) = true
  is_trend short (some short) = true
  is_trend _ _ = false

  -- the event of a break upwards through the reference
  unfoldable pub break_up :
      Candle → SwingPoint → StructureTracker → Option StructureEvent × StructureTracker
  break_up c r s = (
    some (record {
      ts = c.ts.micros;
      kind = if is_trend short s.trend then choch else bos;
      direction = long;
      level = r.price;
    }),
    record s { ref_high = none; trend = some long },
  )

  unfoldable pub break_down :
      Candle → SwingPoint → StructureTracker → Option StructureEvent × StructureTracker
  break_down c r s = (
    some (record {
      ts = c.ts.micros;
      kind = if is_trend long s.trend then choch else bos;
      direction = short;
      level = r.price;
    }),
    record s { ref_low = none; trend = some short },
  )

  -- the second part of `update`; a break has a reference on its side
  unfoldable pub break_structure :
      Candle → StructureTracker → Option StructureEvent × StructureTracker
  break_structure c s = elim (break_direction c s) [
    | none ↦ (none, s)
    | some long ↦ elim s.ref_high [ none ↦ (none, s) | some r ↦ break_up c r s ]
    | some short ↦ elim s.ref_low [ none ↦ (none, s) | some r ↦ break_down c r s ]
  ]

  -- `StructureTracker.update`
  unfoldable pub update_structure :
      Candle → StructureTracker → Option StructureEvent × StructureTracker
  update_structure c s = break_structure c (confirm c s)

  -- `last_swing_high` and `last_swing_low`
  abbrev pub last_swing_high : StructureTracker → Option SwingPoint
  last_swing_high s = last? s.highs

  abbrev pub last_swing_low : StructureTracker → Option SwingPoint
  last_swing_low s = last? s.lows

  -- `swept_low`
  unfoldable pub swept_low : Candle → StructureTracker → Option Carrier
  swept_low c s = elim (last_swing_low s) [
    | none ↦ none
    | some sl ↦ if lt c.low sl.price && lt sl.price c.close then some sl.price else none
  ]

  -- `swept_high`
  unfoldable pub swept_high : Candle → StructureTracker → Option Carrier
  swept_high c s = elim (last_swing_high s) [
    | none ↦ none
    | some sh ↦ if lt sh.price c.high && lt c.close sh.price then some sh.price else none
  ]

  -- `reset`
  unfoldable pub reset_structure : StructureTracker → StructureTracker
  reset_structure s = record s {
    window = [];
    highs = [];
    lows = [];
    ref_high = none;
    ref_low = none;
    trend = none;
  }
