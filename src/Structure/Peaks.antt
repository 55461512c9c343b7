-- ===== src/Structure/Peaks.antt =====
-- The swings that `confirm_high` and `confirm_low` of the structure tracker confirm.
use freq_trading.Base.{
  ℕ, zero, suc, ◌+◌, ◌≡◌, ◌≢◌, ◌⊎◌, refl, true, some, List, [], ◌∷◌, arith, get_elem?, ◌==◌, inl,
  inr, Bool-cases, subst, sym, ◌∙◌,
}
use freq_trading.Num.{Float}
use freq_trading.Structure.Defs.{
  Bar, StructureTracker, all_below, all_above, confirm_high, confirm_low,
}

module _ ⦃fl : Float⦄ where
  open fl use {Carrier, lt}

  -- every bar of the window but the one at `k` has a high strictly below
  abbrev pub IsPeak : Carrier → ℕ → List Bar → Type 0
  IsPeak hi k bs = (i : ℕ) (b : Bar) → get_elem? bs i ≡ some b → i ≢ k → lt b.high hi ≡ true

  abbrev pub IsTrough : Carrier → ℕ → List Bar → Type 0
  IsTrough lo k bs = (i : ℕ) (b : Bar) → get_elem? bs i ≡ some b → i ≢ k → lt lo b.low ≡ true

  all_below_sound :
      (hi : Carrier) (k j : ℕ) (bs : List Bar) (i : ℕ) (b : Bar)
      → all_below hi k j bs ≡ true
      → get_elem? bs i ≡ some b
      → j + i ≢ k
      → lt b.high hi ≡ true
  all_below_sound hi k j [] i b h g n = cc
  all_below_sound hi k j (x ∷ bs) zero b h g n = ground arith
  all_below_sound hi k j (x ∷ bs) (suc i) b h g n =
      all_below_sound hi k (j + 1) bs i b (ground arith) g (omega arith)

  all_above_sound :
      (lo : Carrier) (k j : ℕ) (bs : List Bar) (i : ℕ) (b : Bar)
      → all_above lo k j bs ≡ true
      → get_elem? bs i ≡ some b
      → j + i ≢ k
      → lt lo b.low ≡ true
  all_above_sound lo k j [] i b h g n = cc
  all_above_sound lo k j (x ∷ bs) zero b h g n = ground arith
  all_above_sound lo k j (x ∷ bs) (suc i) b h g n =
      all_above_sound lo k (j + 1) bs i b (ground arith) g (omega arith)

  -- the reference is as before, or it is the high of the bar at the centre of the window, which
  -- lies strictly above the high of every other bar of the window
  abbrev pub HighIsSwing : StructureTracker → StructureTracker → Type 0
  HighIsSwing s t =
      (t.ref_high ≡ s.ref_high)
      ⊎ ((b : Bar) × (get_elem? t.window s.lookback ≡ some b)
          × (t.ref_high ≡ some (record { ts = b.ts; price = b.high }))
          × IsPeak b.high s.lookback t.window)

  abbrev pub LowIsSwing : StructureTracker → StructureTracker → Type 0
  LowIsSwing s t =
      (t.ref_low ≡ s.ref_low)
      ⊎ ((b : Bar) × (get_elem? t.window s.lookback ≡ some b)
          × (t.ref_low ≡ some (record { ts = b.ts; price = b.low }))
          × IsTrough b.low s.lookback t.window)

  confirm_high-IsSwing :
      (b : Bar) (s : StructureTracker)
      → get_elem? s.window s.lookback ≡ some b
      → HighIsSwing s (confirm_high b s)
  unfolding confirm_high
  confirm_high-IsSwing b s h = elim (Bool-cases (all_below b.high s.lookback 0 s.window)) [
    | inl a ↦ rw a (
        inr (
          b,
          h,
          refl,
          λ i x g n. all_below_sound b.high s.lookback 0 s.window i x a g (omega arith),
        ))
    | inr a ↦ rw a (inl refl)
  ]

  confirm_low-IsSwing :
      (b : Bar) (s : StructureTracker)
      → get_elem? s.window s.lookback ≡ some b
      → LowIsSwing s (confirm_low b s)
  unfolding confirm_low
  confirm_low-IsSwing b s h = elim (Bool-cases (all_above b.low s.lookback 0 s.window)) [
    | inl a ↦ rw a (
        inr (
          b,
          h,
          refl,
          λ i x g n. all_above_sound b.low s.lookback 0 s.window i x a g (omega arith),
        ))
    | inr a ↦ rw a (inl refl)
  ]

  pub confirm_high_same :
      (b : Bar) (s : StructureTracker)
      → ((confirm_high b s).window ≡ s.window)
        × ((confirm_high b s).lookback ≡ s.lookback)
        × ((confirm_high b s).ref_low ≡ s.ref_low)
  unfolding confirm_high
  confirm_high_same b s = ground arith

  pub confirm_low_same :
      (b : Bar) (s : StructureTracker)
      → ((confirm_low b s).window ≡ s.window) × ((confirm_low b s).ref_high ≡ s.ref_high)
  unfolding confirm_low
  confirm_low_same b s = ground arith

  -- what does not change the window and the reference keeps the statement
  HighIsSwing-same :
      (s t u : StructureTracker)
      → u.window ≡ t.window
      → u.ref_high ≡ t.ref_high
      → HighIsSwing s t
      → HighIsSwing s u
  HighIsSwing-same s t u w r (inl e) = inl (r ∙ e)
  HighIsSwing-same s t u w r (inr (b, g, e, p)) = inr (
    b,
    subst (λ x. get_elem? x s.lookback ≡ some b) (sym w) g,
    r ∙ e,
    subst (IsPeak b.high s.lookback) (sym w) p,
  )

  LowIsSwing-same :
      (s t u : StructureTracker)
      → t.lookback ≡ s.lookback
      → t.ref_low ≡ s.ref_low
      → LowIsSwing t u
      → LowIsSwing s u
  LowIsSwing-same s t u k r (inl e) = inl (e ∙ r)
  LowIsSwing-same s t u k r (inr (b, g, e, p)) = inr (
    b,
    subst (λ j. get_elem? u.window j ≡ some b) k g,
    e,
    subst (λ j. IsTrough b.low j u.window) k p,
  )

  pub both-IsSwing :
      (b : Bar) (s : StructureTracker)
      → get_elem? s.window s.lookback ≡ some b
      → HighIsSwing s (confirm_low b (confirm_high b s))
        × LowIsSwing s (confirm_low b (confirm_high b s))
  both-IsSwing b s h =
      let t = confirm_high b s in
      let (w, k, r) = confirm_high_same b s in
      let (w', r') = confirm_low_same b t in
      let centre : get_elem? t.window t.lookback ≡ some b =
        subst (λ j. get_elem? t.window j ≡ some b) (sym k)
          (subst (λ u. get_elem? u s.lookback ≡ some b) (sym w) h) in
      (
        HighIsSwing-same s t (confirm_low b t) w' r' (confirm_high-IsSwing b s h),
        LowIsSwing-same s t (confirm_low b t) k r (confirm_low-IsSwing b t centre),
      )

  all_below_complete :
      (hi : Carrier) (k j : ℕ) (bs : List Bar)
      → ((i : ℕ) (b : Bar) → get_elem? bs i ≡ some b → j + i ≢ k → lt b.high hi ≡ true)
      → all_below hi k j bs ≡ true
  all_below_complete hi k j [] h = refl
  all_below_complete hi k j (x ∷ bs) h =
      let rest =
        all_below_complete hi k (j + 1) bs (λ i b g n. h (suc i) b g (λ e. n (omega arith))) in
      elim (Bool-cases (j == k)) [
        | inl e ↦ ground arith
        | inr e ↦ let first = h 0 x refl (λ q. absurd (ground arith)) in ground arith
      ]

  all_above_complete :
      (lo : Carrier) (k j : ℕ) (bs : List Bar)
      → ((i : ℕ) (b : Bar) → get_elem? bs i ≡ some b → j + i ≢ k → lt lo b.low ≡ true)
      → all_above lo k j bs ≡ true
  all_above_complete lo k j [] h = refl
  all_above_complete lo k j (x ∷ bs) h =
      let rest =
        all_above_complete lo k (j + 1) bs (λ i b g n. h (suc i) b g (λ e. n (omega arith))) in
      elim (Bool-cases (j == k)) [
        | inl e ↦ ground arith
        | inr e ↦ let first = h 0 x refl (λ q. absurd (ground arith)) in ground arith
      ]

  pub confirm_high_found :
      (b : Bar) (s : StructureTracker)
      → IsPeak b.high s.lookback s.window
      → (confirm_high b s).ref_high ≡ some (record { ts = b.ts; price = b.high })
  unfolding confirm_high
  confirm_high_found b s p =
      let e =
        all_below_complete b.high s.lookback 0 s.window
          (λ i x g n. p i x g (λ q. n (omega arith))) in
      rw e refl

  pub confirm_low_found :
      (b : Bar) (s : StructureTracker)
      → IsTrough b.low s.lookback s.window
      → (confirm_low b s).ref_low ≡ some (record { ts = b.ts; price = b.low })
  unfolding confirm_low
  confirm_low_found b s p =
      let e =
        all_above_complete b.low s.lookback 0 s.window
          (λ i x g n. p i x g (λ q. n (omega arith))) in
      rw e refl
