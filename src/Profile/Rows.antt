-- ===== src/Profile/Rows.antt =====
-- The rows of a profile: integers, with their order and their distance.
use freq_trading.Base.{ℕ, zero, suc, ◌+◌, ◌-◌, ◌≤◌, ◌≡◌, Bool, ltb, leb, arith, ◌==◌}
use freq_trading.Num.Fixed.{ℤ, pos, negsuc, pos_part, neg_part}

abbrev pub suc_row : ℤ → ℤ
suc_row (pos n) = pos (suc n)
suc_row (negsuc zero) = pos 0
suc_row (negsuc (suc n)) = negsuc n

abbrev pub pred_row : ℤ → ℤ
pred_row (pos zero) = negsuc 0
pred_row (pos (suc n)) = pos n
pred_row (negsuc n) = negsuc (suc n)

-- `a <= b`, `a < b` and `a == b`
abbrev pub le_row : ℤ → ℤ → Bool
le_row a b = leb (pos_part a + neg_part b) (pos_part b + neg_part a)

abbrev pub lt_row : ℤ → ℤ → Bool
lt_row a b = ltb (pos_part a + neg_part b) (pos_part b + neg_part a)

abbrev pub same_row : ℤ → ℤ → Bool
same_row a b = (pos_part a + neg_part b) == (pos_part b + neg_part a)

-- the number of rows from the first to the second, both included
abbrev pub rows_from : ℤ → ℤ → ℕ
rows_from a b = suc (pos_part b + neg_part a) - (pos_part a + neg_part b)

-- the row so many above
unfoldable pub shift_row : ℤ → ℕ → ℤ
shift_row a zero = a
shift_row a (suc n) = shift_row (suc_row a) n

-- the order as a proposition
abbrev pub AtMost : ℤ → ℤ → Type 0
AtMost a b = pos_part a + neg_part b ≤ pos_part b + neg_part a

pub suc_row-parts :
    (a : ℤ) → pos_part (suc_row a) + neg_part a ≡ suc (pos_part a + neg_part (suc_row a))
suc_row-parts (pos n) = omega arith
suc_row-parts (negsuc zero) = omega arith
suc_row-parts (negsuc (suc n)) = omega arith

pub pred_row-parts :
    (a : ℤ) → suc (pos_part (pred_row a) + neg_part a) ≡ pos_part a + neg_part (pred_row a)
pred_row-parts (pos zero) = omega arith
pred_row-parts (pos (suc n)) = omega arith
pred_row-parts (negsuc n) = omega arith
