-- ===== src/Profile/Nodes.antt =====
-- The nodes and the shape of a profile, and its snapshot. A row is given by its distance from the
-- lowest one.
use freq_trading.Base.{
  ℕ, zero, suc, ◌-◌, if◌then◌else◌, ◌&&◌, Option, none, some, List, [], ◌∷◌, ◌++◌, length, leb,
  ◌==◌,
}
use freq_trading.Num.{Float, zero_float, max}
use freq_trading.Num.Fixed.{ℤ}
use freq_trading.Profile.Rows.{suc_row, same_row, rows_from, shift_row}
use freq_trading.Profile.Histogram.{Hist, VolumeProfile, row_vol, poc_row, is_ready, row_price}
use freq_trading.Profile.Area.{value_area}

pub data Shape : Type 0 where
  balanced upper_heavy lower_heavy double_peak thin no_shape : Shape

module _ ⦃fl : Float⦄ where
  open fl use {Carrier, lit, add, sub, mul, quot, lt, le, neg}

  -- `_row_vols` from a row up
  unfoldable pub row_vols : ℕ → ℤ → Hist → List Carrier
  unfolding row_vol
  row_vols zero r h = []
  row_vols (suc n) r h = row_vol h r ∷ row_vols n (suc_row r) h

  -- the built-in `max` of a list, from its first element
  unfoldable pub max_of : Carrier → List Carrier → Carrier
  max_of best [] = best
  max_of best (v ∷ vs) = max_of (max best v) vs

  abbrev pub max_vol : List Carrier → Carrier
  max_vol [] = zero_float
  max_vol (v ∷ vs) = max_of v vs

  -- the occupied rows
  unfoldable pub occupied : List Carrier → List Carrier
  occupied [] = []
  occupied (v ∷ vs) = let rest = occupied vs in if lt zero_float v then v ∷ rest else rest

  abbrev pub mean_of : (ℕ → Carrier) → List Carrier → Carrier
  mean_of of_count [] = zero_float
  mean_of of_count (v ∷ vs) = quot (fl.sum (v ∷ vs)) (of_count (length (v ∷ vs)))

  -- the value of the next row, -1.0 past the end
  abbrev pub next_vol : List Carrier → Carrier
  next_vol [] = neg (lit 1 0)
  next_vol (v ∷ _) = v

  -- the loop over the rows for the peaks, with the value of the row before
  unfoldable pub peaks_from : Carrier → Carrier → ℕ → List Carrier → List ℕ
  peaks_from thresh left i [] = []
  peaks_from thresh left i (v ∷ vs) =
      let rest = peaks_from thresh v (suc i) vs in
      if lt v thresh then rest else if le left v && le (next_vol vs) v then i ∷ rest else rest

  -- the value at a distance
  unfoldable pub vol_at : List Carrier → ℕ → Carrier
  vol_at [] i = zero_float
  vol_at (v ∷ vs) zero = v
  vol_at (v ∷ vs) (suc i) = vol_at vs i

  -- the loop of `_suppress_adjacent`: the heaviest row of the run so far, and its last row
  unfoldable pub suppress_from : List Carrier → (best last : ℕ) → List ℕ → List ℕ
  unfolding vol_at
  suppress_from vols best last [] = best ∷ []
  suppress_from vols best last (r ∷ rs) =
      let heavier = if lt (vol_at vols best) (vol_at vols r) then r else best in
      let joined = suppress_from vols heavier r rs in
      let apart = best ∷ suppress_from vols r r rs in if r == suc last then joined else apart

  -- `_suppress_adjacent`
  unfoldable pub suppress_adjacent : List Carrier → List ℕ → List ℕ
  unfolding suppress_from
  suppress_adjacent vols [] = []
  suppress_adjacent vols (r ∷ rs) = suppress_from vols r r rs

  -- the lightest of so many rows from a row up, with the lightest so far
  unfoldable pub lightest : List Carrier → (n r best : ℕ) → ℕ
  lightest vols zero r best = best
  lightest vols (suc n) r best =
      lightest vols n (suc r) (if lt (vol_at vols r) (vol_at vols best) then r else best)

  -- the valley between two peaks
  unfoldable pub valley : Carrier → List Carrier → (a b : ℕ) → List ℕ
  unfolding lightest vol_at
  valley thresh vols a b =
      let j = lightest vols (b - suc a) (suc a) (suc a) in
      if leb b (suc a) then [] else if le (vol_at vols j) thresh then j ∷ [] else []

  -- the loop over neighbouring peaks
  unfoldable pub valleys : Carrier → List Carrier → List ℕ → List ℕ
  unfolding valley
  valleys thresh vols [] = []
  valleys thresh vols (a ∷ []) = []
  valleys thresh vols (a ∷ b ∷ rest) = valley thresh vols a b ++ valleys thresh vols (b ∷ rest)

  module _ (of_count : ℕ → Carrier) where
    -- `_nodes` over the values of the rows
    unfoldable pub nodes_of : VolumeProfile → List Carrier → List ℕ × List ℕ
    unfolding peaks_from suppress_adjacent valleys max_of occupied
    nodes_of p vols =
        let max_v = max_vol vols in
        let peaks = peaks_from (mul p.hvn_frac max_v) (neg (lit 1 0)) 0 vols in
        let hvn = suppress_adjacent vols peaks in
        let lvn = valleys (mul p.lvn_frac (mean_of of_count (occupied vols))) vols hvn in
        if le max_v zero_float then ([], []) else (hvn, lvn)

    -- the values of the rows of a span
    abbrev pub span_vols : VolumeProfile → ℤ × ℤ → List Carrier
    span_vols p (mn, mx) = row_vols (rows_from mn mx) mn p.hist

    -- where the point of control lies, from the lowest row
    abbrev pub offset_of : ℤ → ℤ → ℕ
    offset_of mn poc = rows_from mn poc - 1

    -- `_classify_shape` for a point of control and a span of more than one row
    unfoldable pub shape_of : VolumeProfile → ℤ → ℤ × ℤ → Shape
    unfolding nodes_of row_vols max_of occupied
    shape_of p poc (mn, mx) =
        let vols = span_vols p (mn, mx) in
        let mean_v = mean_of of_count (occupied vols) in
        let nodes = nodes_of p vols in
        let place = quot (of_count (offset_of mn poc)) (of_count (offset_of mn mx)) in
        if lt zero_float mean_v && lt (quot (max_vol vols) mean_v) p.i_max_peak
        then thin
        else if leb 2 (length nodes.0) && leb 1 (length nodes.1)
        then double_peak
        else if le (lit 66 2) place
        then upper_heavy
        else if le place (lit 34 2)
        then lower_heavy
        else balanced

    -- `_classify_shape`
    unfoldable pub classify_shape :
        VolumeProfile → Option ℤ → Option (ℤ × ℤ) → Option (ℤ × ℤ) → Shape
    unfolding shape_of
    classify_shape p none area span = no_shape
    classify_shape p (some poc) none span = no_shape
    classify_shape p (some poc) (some _) none = no_shape
    classify_shape p (some poc) (some _) (some (mn, mx)) =
        if same_row mn mx then no_shape else shape_of p poc (mn, mx)

  pub record ProfileLevels : Type 0 where
    pub poc : Carrier
    pub vah : Carrier
    pub val : Carrier
    pub hvns : List Carrier
    pub lvns : List Carrier
    pub shape : Shape
    pub total_volume : Carrier

  module _ (floor_int : Carrier → ℤ) (of_int : ℤ → Carrier) (of_count : ℕ → Carrier) where
    -- the prices of rows above the lowest one
    unfoldable pub prices : VolumeProfile → Carrier → ℤ → List ℕ → List Carrier
    unfolding shift_row
    prices p anchor mn [] = []
    prices p anchor mn (i ∷ is) =
        row_price floor_int of_int of_count p anchor (shift_row mn i) ∷ prices p anchor mn is

    -- the snapshot of `levels` from its parts; a profile with rows has an anchor
    unfoldable pub levels_of :
        VolumeProfile
        → Option Carrier
        → Option ℤ
        → Option (ℤ × ℤ)
        → Option (ℤ × ℤ)
        → Option ProfileLevels
    unfolding prices nodes_of classify_shape
    levels_of p (some anchor) (some poc) (some (lo, hi)) (some (mn, mx)) =
        let nodes = nodes_of of_count p (span_vols of_count p (mn, mx)) in
        let price = row_price floor_int of_int of_count p anchor in
        some (record {
          poc = price poc;
          vah = price hi;
          val = price lo;
          hvns = prices p anchor mn nodes.0;
          lvns = prices p anchor mn nodes.1;
          shape = classify_shape of_count p (some poc) (some (lo, hi)) (some (mn, mx));
          total_volume = p.total;
        })
    levels_of p _ _ _ _ = none

    -- `levels`
    unfoldable pub levels : VolumeProfile → Option ProfileLevels
    unfolding levels_of is_ready poc_row value_area
    levels p =
        if is_ready p then levels_of p p.anchor (poc_row p.hist) (value_area p) p.span else none
