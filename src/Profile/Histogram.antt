-- ===== src/Profile/Histogram.antt =====
-- `VolumeProfile`: its fields, the distribution of a bar over the rows, and the point of control.
-- `floor_int` and `of_int` are `math.floor` and the conversion of an integer to a float. The dict
-- is a list in the order of its keys, which is how the code reads it.
use freq_trading.Base.{
  ℕ, zero, suc, Bool, false, if◌then◌else◌, ◌&&◌, Option, none, some, List, [], ◌∷◌, ltb, leb,
}
use freq_trading.Num.{Float, zero_float}
use freq_trading.Num.Fixed.{ℤ}
use freq_trading.Models.{Candle}
use freq_trading.Profile.Rows.{suc_row, lt_row, same_row, rows_from}

module _ ⦃fl : Float⦄ where
  open fl use {Carrier, lit, add, sub, mul, quot, neg, lt, le}

  abbrev pub Hist : Type 0
  Hist = List (ℤ × Carrier)

  pub record VolumeProfile : Type 0 where
    pub row_size : Carrier
    pub value_area_pct : Carrier
    pub hvn_frac : Carrier
    pub lvn_frac : Carrier
    pub min_bars : ℕ
    pub max_rows_per_bar : ℕ
    -- `va_tiebreak` is "up"
    pub tiebreak_up : Bool
    pub i_max_peak : Carrier
    pub tpo_fallback : Bool
    pub anchor : Option Carrier
    pub hist : Hist
    -- the lowest and the highest row, which are set together
    pub span : Option (ℤ × ℤ)
    pub total : Carrier
    pub bars : ℕ

  -- the checks of the constructor on the two numbers
  unfoldable pub valid_profile : (row_size value_area_pct : Carrier) → Bool
  valid_profile row_size value_area_pct =
      if le row_size zero_float
      then false
      else lt zero_float value_area_pct && le value_area_pct (lit 1 0)

  -- `reset`
  unfoldable pub reset_profile : VolumeProfile → VolumeProfile
  reset_profile p = record p { anchor = none; hist = []; span = none; total = zero_float; bars = 0 }

  -- `h.get(r, 0.0)`
  unfoldable pub row_vol : Hist → ℤ → Carrier
  row_vol [] r = zero_float
  row_vol ((k, v) ∷ rest) r = let later = row_vol rest r in if same_row k r then v else later

  -- `h[r] = h.get(r, 0.0) + share`
  unfoldable pub add_share : ℤ → Carrier → Hist → Hist
  add_share r share [] = (r, add zero_float share) ∷ []
  add_share r share ((k, v) ∷ rest) =
      let later = add_share r share rest in
      if same_row k r
      then (k, add v share) ∷ rest
      else if lt_row r k
      then (r, add zero_float share) ∷ (k, v) ∷ rest
      else (k, v) ∷ later

  -- the loop over so many rows from a row up
  unfoldable pub spread_over : ℕ → ℤ → Carrier → Hist → Hist
  unfolding add_share
  spread_over zero r share h = h
  spread_over (suc n) r share h = spread_over n (suc_row r) share (add_share r share h)

  -- the loop of `_poc_row` over the rows in ascending order
  unfoldable pub scan_poc : Hist → Option ℤ → Carrier → Option ℤ
  scan_poc [] best_r best_v = best_r
  scan_poc ((r, v) ∷ rest) best_r best_v =
      scan_poc rest (if lt best_v v then some r else best_r) (if lt best_v v then v else best_v)

  -- `_poc_row`
  unfoldable pub poc_row : Hist → Option ℤ
  unfolding scan_poc
  poc_row h = scan_poc h none (neg (lit 1 0))

  -- the rows spanned so far together with a bar's
  abbrev pub widen_span : ℤ → ℤ → Option (ℤ × ℤ) → ℤ × ℤ
  widen_span lo hi none = (lo, hi)
  widen_span lo hi (some (mn, mx)) =
      (if lt_row lo mn then lo else mn, if lt_row mx hi then hi else mx)

  -- `ready`
  unfoldable pub is_ready : VolumeProfile → Bool
  is_ready p = leb p.min_bars p.bars && lt zero_float p.total

  -- the weight of a bar
  abbrev pub weight_of : VolumeProfile → Candle → Carrier
  weight_of p c =
      if lt zero_float c.volume then c.volume else if p.tpo_fallback then lit 1 0 else zero_float

  -- the anchor, which the first bar sets
  abbrev pub anchor_of : VolumeProfile → Candle → Carrier
  anchor_of p c = elim p.anchor [ none ↦ c.low | some a ↦ a ]

  module _ (floor_int : Carrier → ℤ) (of_int : ℤ → Carrier) (of_count : ℕ → Carrier) where
    -- `_row_of`
    abbrev pub row_of : VolumeProfile → Carrier → Carrier → ℤ
    row_of p anchor price = floor_int (quot (sub price anchor) p.row_size)

    -- `_row_price`
    abbrev pub row_price : VolumeProfile → Carrier → ℤ → Carrier
    row_price p anchor row = add anchor (mul (add (of_int row) (lit 5 1)) p.row_size)

    -- the distribution of a weight over the rows of a bar, the lower one first
    unfoldable pub distribute : ℤ → ℤ → Carrier → VolumeProfile → VolumeProfile
    unfolding spread_over
    distribute lo hi weight p =
        let n = rows_from lo hi in
        if ltb p.max_rows_per_bar n then p else record p {
          hist = spread_over n lo (quot weight (of_count n)) p.hist;
          total = add p.total weight;
          span = some (widen_span lo hi p.span);
        }

    -- `update`
    unfoldable pub update_profile : Candle → VolumeProfile → VolumeProfile
    unfolding distribute
    update_profile c p =
        let a = anchor_of p c in
        let q = record p { anchor = some a; bars = suc p.bars } in
        let weight = weight_of p c in
        let lo = row_of p a c.low in
        let hi = row_of p a c.high in
        if le weight zero_float
        then q
        else if lt_row hi lo
        then distribute hi lo weight q
        else distribute lo hi weight q
