-- ===== src/Num/Order.antt =====
-- How `max` and `min` bound their arguments. The first argument has to be a number; the second
-- may be anything, also not a number.
use freq_trading.Base.{◌≡◌, true, false, arith, inl, inr, Bool-cases}
use freq_trading.Num.Interface.{Float, max, min}

module _ ⦃fl : Float⦄ where
  open fl use {Carrier, lt, le, is_finite, le_refl, le_of_lt, le_of_not_lt, not_le_of_lt}

  pub le-max_left : (a b : Carrier) → is_finite a ≡ true → le a (max a b) ≡ true
  le-max_left a b h = elim (Bool-cases (lt a b)) [
    | inl e ↦ rw e (le_of_lt a b e)
    | inr e ↦ rw e (le_refl a h)
  ]

  pub min-le_left : (a b : Carrier) → is_finite a ≡ true → le (min a b) a ≡ true
  min-le_left a b h = elim (Bool-cases (lt b a)) [
    | inl e ↦ rw e (le_of_lt b a e)
    | inr e ↦ rw e (le_refl a h)
  ]

  pub le-max_right :
      (a b : Carrier) → is_finite a ≡ true → is_finite b ≡ true → le b (max a b) ≡ true
  le-max_right a b h k = elim (Bool-cases (lt a b)) [
    | inl e ↦ rw e (le_refl b k)
    | inr e ↦ rw e (le_of_not_lt a b h k e)
  ]

  pub min-le_right :
      (a b : Carrier) → is_finite a ≡ true → is_finite b ≡ true → le (min a b) b ≡ true
  min-le_right a b h k = elim (Bool-cases (lt b a)) [
    | inl e ↦ rw e (le_refl b k)
    | inr e ↦ rw e (le_of_not_lt b a k h e)
  ]

  pub lt_irrefl : (x : Carrier) → lt x x ≡ false
  lt_irrefl x = ground (arith, le_of_lt x x, not_le_of_lt x x)
