-- ===== src/Num/Interface.antt =====
-- The interface of Python's float, and the built-ins `max` and `min` over it.
use freq_trading.Base.{ℕ, ◌≡◌, Bool, true, false, if◌then◌else◌, List}

pub record Float : Type 1 where
  pub Carrier : Type 0
  -- the decimal literal m / 10 ^ k
  pub lit : ℕ → ℕ → Carrier
  pub add : Carrier → Carrier → Carrier
  pub sub : Carrier → Carrier → Carrier
  pub mul : Carrier → Carrier → Carrier
  -- the quotient by a divisor that is not zero
  pub quot : Carrier → Carrier → Carrier
  pub neg : Carrier → Carrier
  pub abs : Carrier → Carrier
  -- `round(x, n)`
  pub round_to : Carrier → ℕ → Carrier
  -- `math.floor(x)` as a float
  pub floor : Carrier → Carrier
  -- the built-in `sum` of a list
  pub sum : List Carrier → Carrier
  pub lt : Carrier → Carrier → Bool
  pub le : Carrier → Carrier → Bool
  pub eq : Carrier → Carrier → Bool
  pub is_finite : Carrier → Bool
  pub le_refl : (a : Carrier) → is_finite a ≡ true → le a a ≡ true
  pub le_of_lt : (a b : Carrier) → lt a b ≡ true → le a b ≡ true
  pub le_trans : (a b c : Carrier) → le a b ≡ true → le b c ≡ true → le a c ≡ true
  pub le_of_not_lt :
      (a b : Carrier) → is_finite a ≡ true → is_finite b ≡ true → lt a b ≡ false → le b a ≡ true
  pub not_le_of_lt : (a b : Carrier) → lt a b ≡ true → le b a ≡ false

module _ ⦃fl : Float⦄ where
  open fl use {Carrier, lit, lt}

  abbrev pub zero_float : Carrier
  zero_float = lit 0 0

  -- `max(a, b)` keeps its first argument unless the second is greater
  abbrev pub max : Carrier → Carrier → Carrier
  max a b = if lt a b then b else a

  -- `min(a, b)` keeps its first argument unless the second is smaller
  abbrev pub min : Carrier → Carrier → Carrier
  min a b = if lt b a then b else a
