-- ===== src/Svp/Swings.antt =====
-- `SwingStructure` of orb/svp/structure.py.
use freq_trading.Base.{
  ℕ, zero, suc, ◌+◌, ◌*◌, ◌≡◌, ◌≢◌, ◌⊎◌, inl, inr, refl, Bool, true, if◌then◌else◌, ◌&&◌, ◌||◌,
  Option, none, some, List, [], ◌∷◌, length, get_elem?, ltb, ◌==◌, arith, Bool-cases, Option-cases,
}
use native.Mathlib.Nat.{zero-add}
use freq_trading.Num.{Float}
use freq_trading.Models.{Direction, long, short}
use freq_trading.Indicators.{append_bounded}

module _ ⦃fl : Float⦄ where
  open fl use {Carrier, lt}

  pub record SwingStructure : Type 0 where
    pub lookback : ℕ
    pub highs : List Carrier
    pub lows : List Carrier
    pub swing_highs : List Carrier
    pub swing_lows : List Carrier

  -- `SwingStructure(lookback)`; none where it raises ValueError
  unfoldable pub new_swings : ℕ → Option SwingStructure
  new_swings lookback =
      if ltb lookback 1
      then none
      else some
          (record { lookback = lookback; highs = []; lows = []; swing_highs = []; swing_lows = [] })

  -- `all(test(w[j]) for j in range(w) if j != c)`; `j` counts the bars already passed
  abbrev pub all_others : (Carrier → Bool) → ℕ → ℕ → List Carrier → Bool
  all_others test c j [] = true
  all_others test c j (x ∷ xs) = (j == c || test x) && all_others test c (j + 1) xs

  -- a centre that passes is appended to the last two swings
  unfoldable pub confirmed :
      (Carrier → Carrier → Bool) → ℕ → List Carrier → List Carrier → List Carrier
  confirmed beats c window swings = elim (get_elem? window c) [
    | none ↦ swings
    | some x ↦ if all_others (beats x) c 0 window then append_bounded 2 x swings else swings
  ]

  -- `update`
  unfoldable pub update_swings : (high low : Carrier) → SwingStructure → SwingStructure
  update_swings high low s =
      let w = 2 * s.lookback + 1 in
      let highs = append_bounded w high s.highs in
      let lows = append_bounded w low s.lows in
      if ltb (length highs) w then record s { highs = highs; lows = lows } else record s {
        highs = highs;
        lows = lows;
        swing_highs = confirmed (λ x y. lt y x) s.lookback highs s.swing_highs;
        swing_lows = confirmed lt s.lookback lows s.swing_lows;
      }

  -- the comparisons of `bias` on the last two swings of each side
  unfoldable pub bias_of : List Carrier → List Carrier → Option Direction
  bias_of (h1 ∷ h2 ∷ []) (l1 ∷ l2 ∷ []) =
      if lt h1 h2 && lt l1 l2 then some long else if lt h2 h1 && lt l2 l1 then some short else none
  bias_of _ _ = none

  -- `bias`; the deques of swings hold two at most
  unfoldable pub bias : SwingStructure → Option Direction
  bias s = bias_of s.swing_highs s.swing_lows

  -- `reset`
  unfoldable pub reset_swings : SwingStructure → SwingStructure
  reset_swings s = record s { highs = []; lows = []; swing_highs = []; swing_lows = [] }

  -- the element at the centre beats all others
  abbrev pub IsExtreme : (Carrier → Carrier → Bool) → Carrier → ℕ → List Carrier → Type 0
  IsExtreme beats x c xs =
      (i : ℕ) (y : Carrier) → get_elem? xs i ≡ some y → i ≢ c → beats x y ≡ true

  -- The swings are as before, or end with the centre of the window, which beats all others.
  abbrev pub Confirms :
      (Carrier → Carrier → Bool) → ℕ → List Carrier → (before after : List Carrier) → Type 0
  Confirms beats c window before after =
      (after ≡ before)
      ⊎ ((x : Carrier) × (get_elem? window c ≡ some x)
          × IsExtreme beats x c window
          × (after ≡ append_bounded 2 x before))

  all_others_sound :
      (test : Carrier → Bool) (c j : ℕ) (xs : List Carrier) (i : ℕ) (y : Carrier)
      → all_others test c j xs ≡ true
      → get_elem? xs i ≡ some y
      → j + i ≢ c
      → test y ≡ true
  all_others_sound test c j [] i y h g n = cc
  all_others_sound test c j (x ∷ xs) zero y h g n = ground arith
  all_others_sound test c j (x ∷ xs) (suc i) y h g n =
      ground (arith, all_others_sound test c (j + 1) xs i y)

  confirmed-Confirms :
      (beats : Carrier → Carrier → Bool) (c : ℕ) (window swings : List Carrier)
      → Confirms beats c window swings (confirmed beats c window swings)
  unfolding confirmed
  confirmed-Confirms beats c window swings = elim (Option-cases (get_elem? window c)) [
    | inl e ↦ inl (ground arith)
    | inr (x, e) ↦ elim (Bool-cases (all_others (beats x) c 0 window)) [
      | inl a ↦ inr (
        x,
        e,
        λ i y g n. all_others_sound (beats x) c 0 window i y a g (rw zero-add n),
        ground arith,
      )
      | inr a ↦ inl (ground arith)
    ]
  ]

  -- An update leaves the swings of a side as they are, or appends the bar at the centre of the
  -- window, whose high is strictly above, or whose low is strictly below, all others in the window.
  update_swings-Confirms :
      (high low : Carrier) (s : SwingStructure)
      → let t = update_swings high low s in
        Confirms (λ x y. lt y x) s.lookback t.highs s.swing_highs t.swing_highs
        × Confirms lt s.lookback t.lows s.swing_lows t.swing_lows
  unfolding update_swings
  update_swings-Confirms high low s =
      let w = 2 * s.lookback + 1 in
      elim (Bool-cases (ltb (length (append_bounded w high s.highs)) w)) [
        | inl few ↦ rw few (inl refl, inl refl)
        | inr full ↦ rw full (
          confirmed-Confirms (λ x y. lt y x) s.lookback _ _,
          confirmed-Confirms lt s.lookback _ _,
        )
      ]
