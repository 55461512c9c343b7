-- ===== src/Num/Fixed.antt =====
-- A number type that meets the interface: decimals with four places, and a value that is not a
-- number. The examples run on it.
use freq_trading.Base.{
  ℕ, suc, ◌+◌, ◌-◌, ◌*◌, ◌/◌, ◌^◌, ◌≡◌, Bool, true, false, arith, ltb, leb, ◌==◌, if◌then◌else◌,
}
use mathlib.Core.List.{foldl}
use freq_trading.Num.Interface.{Float}

-- `negsuc n` is -(n + 1)
pub data ℤ : Type 0 where
  pos : ℕ → ℤ
  negsuc : ℕ → ℤ

abbrev pub pos_part : ℤ → ℕ
pos_part (pos n) = n
pos_part (negsuc _) = 0

abbrev pub neg_part : ℤ → ℕ
neg_part (pos _) = 0
neg_part (negsuc n) = suc n

abbrev pub sub_ℕ : ℕ → ℕ → ℤ
sub_ℕ a b = if leb b a then pos (a - b) else negsuc (b - a - 1)

-- ten-thousandths
pub data Fixed : Type 0 where
  num : ℤ → Fixed
  nan : Fixed

abbrev pub map2 : (ℤ → ℤ → ℤ) → Fixed → Fixed → Fixed
map2 f (num a) (num b) = num (f a b)
map2 f _ _ = nan

abbrev pub test2 : (ℤ → ℤ → Bool) → Fixed → Fixed → Bool
test2 f (num a) (num b) = f a b
test2 f _ _ = false

abbrev pub add_ℤ : ℤ → ℤ → ℤ
add_ℤ a b = sub_ℕ (pos_part a + pos_part b) (neg_part a + neg_part b)

abbrev pub neg_ℤ : ℤ → ℤ
neg_ℤ a = sub_ℕ (neg_part a) (pos_part a)

abbrev pub mul_ℤ : ℤ → ℤ → ℤ
mul_ℤ a b =
    sub_ℕ ((pos_part a * pos_part b + neg_part a * neg_part b) / 10000)
      ((pos_part a * neg_part b + neg_part a * pos_part b) / 10000)

abbrev pub quot_ℤ : ℤ → ℤ → ℤ
quot_ℤ a b =
    let n = (pos_part a + neg_part a) * 10000 / (pos_part b + neg_part b) in
    if ltb 0 (pos_part a * neg_part b + neg_part a * pos_part b) then sub_ℕ 0 n else pos n

abbrev pub floor_ℤ : ℤ → ℤ
floor_ℤ a = sub_ℕ (pos_part a / 10000 * 10000) ((neg_part a + 9999) / 10000 * 10000)

abbrev pub lt_ℤ : ℤ → ℤ → Bool
lt_ℤ a b = ltb (pos_part a + neg_part b) (pos_part b + neg_part a)

abbrev pub le_ℤ : ℤ → ℤ → Bool
le_ℤ a b = leb (pos_part a + neg_part b) (pos_part b + neg_part a)

abbrev pub eq_ℤ : ℤ → ℤ → Bool
eq_ℤ a b = (pos_part a + neg_part b) == (pos_part b + neg_part a)

abbrev pub map1 : (ℤ → ℤ) → Fixed → Fixed
map1 f (num a) = num (f a)
map1 f nan = nan

abbrev pub finite : Fixed → Bool
finite (num _) = true
finite nan = false

pub le_refl_fixed : (a : Fixed) → finite a ≡ true → test2 le_ℤ a a ≡ true
le_refl_fixed (num a) h = ground arith
le_refl_fixed nan h = cc

pub le_of_lt_fixed : (a b : Fixed) → test2 lt_ℤ a b ≡ true → test2 le_ℤ a b ≡ true
le_of_lt_fixed (num a) (num b) h = ground arith
le_of_lt_fixed (num a) nan h = cc
le_of_lt_fixed nan b h = cc

pub le_trans_fixed :
    (a b c : Fixed) → test2 le_ℤ a b ≡ true → test2 le_ℤ b c ≡ true → test2 le_ℤ a c ≡ true
le_trans_fixed (num a) (num b) (num c) h k = ground arith
le_trans_fixed (num a) (num b) nan h k = cc
le_trans_fixed (num a) nan c h k = cc
le_trans_fixed nan b c h k = cc

pub le_of_not_lt_fixed :
    (a b : Fixed)
    → finite a ≡ true
    → finite b ≡ true
    → test2 lt_ℤ a b ≡ false
    → test2 le_ℤ b a ≡ true
le_of_not_lt_fixed (num a) (num b) h k e = ground arith
le_of_not_lt_fixed (num a) nan h k e = cc
le_of_not_lt_fixed nan b h k e = cc

pub not_le_of_lt_fixed : (a b : Fixed) → test2 lt_ℤ a b ≡ true → test2 le_ℤ b a ≡ false
not_le_of_lt_fixed (num a) (num b) h = ground arith
not_le_of_lt_fixed (num a) nan h = cc
not_le_of_lt_fixed nan b h = cc

instance abbrev pub fixed : Float
fixed = record {
  Carrier = Fixed;
  lit = λ m k. num (pos (m * 10000 / 10 ^ k));
  add = map2 add_ℤ;
  sub = map2 (λ a b. add_ℤ a (neg_ℤ b));
  mul = map2 mul_ℤ;
  quot = map2 quot_ℤ;
  neg = map1 neg_ℤ;
  abs = map1 (λ a. pos (pos_part a + neg_part a));
  round_to = λ a _. a;
  floor = map1 floor_ℤ;
  sum = foldl (map2 add_ℤ) (num (pos 0));
  lt = test2 lt_ℤ;
  le = test2 le_ℤ;
  eq = test2 eq_ℤ;
  is_finite = finite;
  le_refl = le_refl_fixed;
  le_of_lt = le_of_lt_fixed;
  le_trans = le_trans_fixed;
  le_of_not_lt = le_of_not_lt_fixed;
  not_le_of_lt = not_le_of_lt_fixed;
}
