-- ===== src/Profile/Area.antt =====
-- `_value_area` of orb/svp/profile.py: the loop runs on fuel, one unit for each row that it may
-- still absorb.
use freq_trading.Base.{
  ℕ, zero, suc, ◌+◌, Bool, true, false, if◌then◌else◌, not, ◌&&◌, Option, none, some,
}
use freq_trading.Num.{Float, zero_float}
use freq_trading.Num.Fixed.{ℤ}
use freq_trading.Profile.Rows.{suc_row, pred_row, le_row, rows_from}
use freq_trading.Profile.Histogram.{Hist, VolumeProfile, row_vol, poc_row}

module _ ⦃fl : Float⦄ where
  open fl use {Carrier, add, mul, lt, le}

  -- the variables of the loop
  pub record Area : Type 0 where
    pub va : Carrier
    pub lo : ℤ
    pub hi : ℤ
    pub up : ℤ
    pub dn : ℤ

  module _ (h : Hist) (mn mx : ℤ) where
    abbrev pub up_ok : Area → Bool
    up_ok s = le_row s.up mx

    abbrev pub dn_ok : Area → Bool
    dn_ok s = le_row mn s.dn

    -- the two rows above, and the two rows below
    abbrev pub up_sum : Area → Carrier
    up_sum s = add (row_vol h s.up) (row_vol h (suc_row s.up))

    abbrev pub dn_sum : Area → Carrier
    dn_sum s = add (row_vol h s.dn) (row_vol h (pred_row s.dn))

    -- the side that is absorbed
    unfoldable pub goes_up : Bool → Area → Bool
    unfolding row_vol
    goes_up tiebreak_up s =
        if not (dn_ok s)
        then true
        else if not (up_ok s)
        then false
        else if lt (dn_sum s) (up_sum s)
        then true
        else if lt (up_sum s) (dn_sum s)
        then false
        else tiebreak_up

    -- one row or two rows above
    unfoldable pub absorb_up : Area → Area
    unfolding row_vol
    absorb_up s =
        let v = add s.va (row_vol h s.up) in
        let next = suc_row s.up in
        if le_row next mx
        then record s { va = add v (row_vol h next); hi = next; up = suc_row next }
        else record s { va = v; hi = s.up; up = next }

    -- one row or two rows below
    unfoldable pub absorb_down : Area → Area
    unfolding row_vol
    absorb_down s =
        let v = add s.va (row_vol h s.dn) in
        let next = pred_row s.dn in
        if le_row mn next
        then record s { va = add v (row_vol h next); lo = next; dn = pred_row next }
        else record s { va = v; lo = s.dn; dn = next }

    -- one pass: none where the loop ends
    unfoldable pub pass : Carrier → Bool → Area → Option Area
    unfolding goes_up absorb_up absorb_down
    pass target tiebreak_up s =
        if not (lt s.va target)
        then none
        else if not (up_ok s) && not (dn_ok s)
        then none
        else if goes_up tiebreak_up s
        then some (absorb_up s)
        else some (absorb_down s)

    -- the loop goes on with the area that a pass gives, or ends
    abbrev pub go_on : Area → (Area → Area) → Option Area → Area
    go_on s f none = s
    go_on s f (some next) = f next

    -- the loop
    unfoldable pub grow : ℕ → Carrier → Bool → Area → Area
    unfolding pass
    grow zero target tiebreak_up s = s
    grow (suc n) target tiebreak_up s =
        go_on s (λ next. grow n target tiebreak_up next) (pass target tiebreak_up s)

    -- the rows that are left above and below
    abbrev pub room : Area → ℕ
    room s = rows_from s.up mx + rows_from mn s.dn

    -- the variables before the loop
    abbrev pub seed_area : ℤ → Area
    seed_area poc = record {
      va = row_vol h poc;
      lo = poc;
      hi = poc;
      up = suc_row poc;
      dn = pred_row poc;
    }

    -- the loop from the point of control
    unfoldable pub area_from : Carrier → Bool → ℤ → Area
    unfolding grow row_vol
    area_from target tiebreak_up poc =
        grow (room (seed_area poc)) target tiebreak_up (seed_area poc)

  -- `_value_area` with the point of control and the span
  unfoldable pub area_of : VolumeProfile → Option ℤ → Option (ℤ × ℤ) → Option (ℤ × ℤ)
  unfolding area_from
  area_of p none span = none
  area_of p (some poc) none = none
  area_of p (some poc) (some (mn, mx)) =
      let s = area_from p.hist mn mx (mul p.value_area_pct p.total) p.tiebreak_up poc in
      if le p.total zero_float then none else some (s.lo, s.hi)

  -- `_value_area`
  unfoldable pub value_area : VolumeProfile → Option (ℤ × ℤ)
  unfolding area_of poc_row
  value_area p = area_of p (poc_row p.hist) p.span
