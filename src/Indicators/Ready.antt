-- ===== src/Indicators/Ready.antt =====
-- When the rate of change has a value, and what it may raise.
use freq_trading.Base.{
  ℕ, ◌+◌, ◌≡◌, ◌⊎◌, refl, true, some, List, [], ◌∷◌, arith, length, head?, last?, inl, inr,
  Bool-cases,
}
use freq_trading.Num.{Float, zero_float}
use freq_trading.Models.{ok, err, indicator_error}
use freq_trading.Indicators.Defs.{Roc, roc_ready, roc_value, rate}

module _ ⦃fl : Float⦄ where
  open fl use {Carrier, eq, mul, sub, quot, lit}

  last?-some : (x : Carrier) (xs : List Carrier) → (y : Carrier) × (last? (x ∷ xs) ≡ some y)
  last?-some x [] = (x, refl)
  last?-some x (y ∷ xs) = last?-some y xs

  rate_ends :
      (xs : List Carrier) (n : ℕ)
      → length xs ≡ n + 1
      → ((v : Carrier) × (rate (head? xs) (last? xs) ≡ ok (some v)))
        ⊎ (rate (head? xs) (last? xs) ≡ err indicator_error)
  unfolding rate
  rate_ends [] n h = absurd (omega arith)
  rate_ends (x ∷ xs) n h =
      let (y, e) = last?-some x xs in
      rw e (elim (Bool-cases (eq x zero_float)) [
        | inl z ↦ inr (rw z refl)
        | inr nz ↦ inl (mul (sub (quot y x) (lit 1 0)) (lit 100 0), rw nz refl)
      ])

  -- A rate of change that is ready has a value or raises an indicator error.
  pub roc_value_ready :
      (r : Roc)
      → roc_ready r ≡ true
      → ((v : Carrier) × (roc_value r ≡ ok (some v))) ⊎ (roc_value r ≡ err indicator_error)
  unfolding roc_value roc_ready
  roc_value_ready r h = rw (h) (rate_ends r.closes r.period (ground arith))
