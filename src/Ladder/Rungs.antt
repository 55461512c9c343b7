-- ===== src/Ladder/Rungs.antt =====
-- The rungs of the ladder: each is filled at most once.
use freq_trading.Base.{
  ℕ, ◌+◌, ◌≤◌, ◌<◌, ◌≡◌, ◌⊎◌, refl, true, false, if◌then◌else◌, List, [], ◌∷◌, arith, length,
}
use freq_trading.Num.{Float}
use freq_trading.Babysitter.Defs.{BrokerPosition, contains}
use freq_trading.Babysitter.Tickets.{partials, partials-append}
use freq_trading.Ladder.Defs.{LadderExitManager, PosState, fill_rung, rung_step, rungs}

module _ ⦃fl : Float⦄ where
  open fl use {Carrier}

  -- the rungs from the index `i` on that are filled
  abbrev pub filled_from : ℕ → List (Carrier × Carrier) → List ℕ → ℕ
  filled_from i [] f = 0
  filled_from i (_ ∷ ls) f = (if contains i f then 1 else 0) + filled_from (i + 1) ls f

  pub filled_from-le-length :
      (i : ℕ) (ls : List (Carrier × Carrier)) (f : List ℕ) → filled_from i ls f ≤ length ls
  filled_from-le-length i [] f = omega arith
  filled_from-le-length i (x ∷ ls) f = ground (arith, filled_from-le-length (i + 1) ls f)

  filled_from-later :
      (i j : ℕ) (ls : List (Carrier × Carrier)) (f : List ℕ)
      → j < i
      → filled_from i ls (j ∷ f) ≡ filled_from i ls f
  filled_from-later i j [] f h = refl
  filled_from-later i j (x ∷ ls) f h = ground (arith, filled_from-later (i + 1) j ls f)

  module _ (k : LadderExitManager) where
    -- a turn fills nothing, or fills its rung for the first time
    rung_step-filled :
        (t : ℕ) (p : BrokerPosition) (r : Carrier) (i : ℕ) (lvl frac emitted : Carrier)
        (st : PosState)
        → let q = rung_step k p r i lvl frac emitted st in
          ((q.0.filled ≡ st.filled) × (partials t q.2 ≡ 0))
          ⊎ ((q.0.filled ≡ i ∷ st.filled) × (contains i st.filled ≡ false) × (partials t q.2 ≤ 1))
    unfolding rung_step fill_rung
    rung_step-filled t p r i lvl frac emitted st = ground arith

    rungs-contains :
        (j : ℕ) (p : BrokerPosition) (r : Carrier) (i : ℕ) (ls : List (Carrier × Carrier))
        (emitted : Carrier) (st : PosState)
        → contains j st.filled ≡ true
        → contains j (rungs k p r i ls emitted st).0.filled ≡ true
    unfolding rungs
    rungs-contains j p r i [] emitted st h = h
    rungs-contains j p r i ((lvl, frac) ∷ ls) emitted st h =
        let q = rung_step k p r i lvl frac emitted st in
        ground (
          arith,
          rung_step-filled 0 p r i lvl frac emitted st,
          rungs-contains j p r (i + 1) ls q.1 q.0,
        )

    pub rungs-filled :
        (t : ℕ) (p : BrokerPosition) (r : Carrier) (i : ℕ) (ls : List (Carrier × Carrier))
        (emitted : Carrier) (st : PosState)
        → let q = rungs k p r i ls emitted st in
          partials t q.2 + filled_from i ls st.filled ≤ filled_from i ls q.0.filled
    unfolding rungs
    rungs-filled t p r i [] emitted st = omega arith
    rungs-filled t p r i ((lvl, frac) ∷ ls) emitted st =
        let q = rung_step k p r i lvl frac emitted st in
        ground (
          arith,
          rung_step-filled t p r i lvl frac emitted st,
          rungs-contains i p r (i + 1) ls q.1 q.0,
          rungs-filled t p r (i + 1) ls q.1 q.0,
          filled_from-later (i + 1) i ls st.filled,
          partials-append t q.2 (rungs k p r (i + 1) ls q.1 q.0).2,
        )
