-- ===== src/Examples/Volumes.antt =====
-- A volume profile over two bars.
use freq_trading.Base.{◌*◌, ◌/◌, ◌+◌, ◌≡◌, refl, true, some, [], ◌∷◌, arith}
use freq_trading.Num.Fixed.{fixed, Fixed, num, nan, ℤ, pos, negsuc}
use freq_trading.Profile.Histogram.{
  VolumeProfile, reset_profile, poc_row, update_profile, distribute, spread_over, add_share,
  scan_poc, row_vol,
}
use freq_trading.Profile.Area.{
  value_area, area_of, area_from, grow, pass, goes_up, absorb_up, absorb_down,
}
use freq_trading.Profile.Within.{Ends, area_from-Ends}
use freq_trading.Profile.Enclosed.{Encloses, update_all, value_area-Encloses}
use freq_trading.Profile.Client.{new_profile}
use freq_trading.Examples.Bars.{units, candle_at}

-- `math.floor` on the examples' numbers
abbrev pub floor_fixed : Fixed → ℤ
floor_fixed nan = pos 0
floor_fixed (num (pos n)) = pos (n / 10000)
floor_fixed (num (negsuc n)) = negsuc (n / 10000)

abbrev pub of_row : ℤ → Fixed
of_row (pos n) = num (pos (n * 10000))
of_row (negsuc n) = num (negsuc (n * 10000 + 9999))

abbrev empty_profile : VolumeProfile ⦃fl = fixed⦄
empty_profile = new_profile ⦃fl = fixed⦄ (units 1) 1 true

abbrev after_two : VolumeProfile ⦃fl = fixed⦄
after_two =
    update_all ⦃fl = fixed⦄ floor_fixed of_row units
      (candle_at 1 100 102 100 101 ∷ candle_at 2 101 101 99 100 ∷ [])
      (reset_profile ⦃fl = fixed⦄ empty_profile)

area : value_area ⦃fl = fixed⦄ after_two ≡ some (pos 0, pos 2)
unfolding new_profile reset_profile update_profile distribute spread_over add_share value_area
    poc_row scan_poc area_of area_from grow pass goes_up absorb_up absorb_down row_vol
area = refl

value_area-Encloses_example :
    Encloses ⦃fl = fixed⦄ after_two.span
      (poc_row ⦃fl = fixed⦄ after_two.hist)
      (value_area ⦃fl = fixed⦄ after_two)
value_area-Encloses_example =
    value_area-Encloses ⦃fl = fixed⦄ floor_fixed of_row units
      (candle_at 1 100 102 100 101 ∷ candle_at 2 101 101 99 100 ∷ []) empty_profile

area_from-Ends_example :
    Ends ⦃fl = fixed⦄
      ((pos 0, units 2) ∷ (pos 1, units 1) ∷ [])
      (pos 0)
      (pos 1)
      (pos 0)
      (units 3)
      true
      (area_from ⦃fl = fixed⦄
        ((pos 0, units 2) ∷ (pos 1, units 1) ∷ [])
        (pos 0)
        (pos 1)
        (units 3)
        true
        (pos 0))
area_from-Ends_example =
    area_from-Ends ⦃fl = fixed⦄ ((pos 0, units 2) ∷ (pos 1, units 1) ∷ []) (pos 0) (pos 1) (pos 0)
      (units 3) true (omega arith) (omega arith)
