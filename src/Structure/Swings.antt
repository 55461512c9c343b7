-- ===== src/Structure/Swings.antt =====
-- What the structure tracker confirms.
use freq_trading.Base.{
  ◌+◌, ◌*◌, ◌≡◌, ◌≢◌, ◌⊎◌, refl, Option, none, some, List, arith, length, get_elem?, ◌==◌, inl, inr,
  Bool-cases, subst, sym, ◌∙◌,
}
use mathlib.Core.Option.{some-injective}
use freq_trading.Num.{Float}
use freq_trading.Models.{Candle}
use freq_trading.Indicators.{append_bounded}
use freq_trading.Structure.Defs.{Bar, StructureTracker, confirm_high, confirm_low, confirm}
use freq_trading.Structure.Peaks.{
  IsPeak, IsTrough, HighIsSwing, LowIsSwing, confirm_high_same, confirm_low_same, both-IsSwing,
  confirm_high_found, confirm_low_found,
}

module _ ⦃fl : Float⦄ where
  -- the window holds as many bars as a swing needs
  abbrev pub IsFull : StructureTracker → List Bar → Type 0
  IsFull s bs = length bs ≡ 2 * s.lookback + 1

  -- What `confirm` does with a bar: the window takes the bar, and lets go of the oldest if it was
  -- full; a reference changes exactly if the window is full and the bar at its centre is a swing, to
  -- the time and the extreme of that bar.
  pub record Confirms (c : Candle) (s t : StructureTracker) : Type 0 where
    pub window :
        t.window
        ≡ append_bounded
            (2 * s.lookback + 1)
            (record { ts = c.ts.micros; high = c.high; low = c.low })
            s.window
    pub high : (t.ref_high ≡ s.ref_high) ⊎ (IsFull s t.window × HighIsSwing s t)
    pub low : (t.ref_low ≡ s.ref_low) ⊎ (IsFull s t.window × LowIsSwing s t)
    pub high_found :
        (b : Bar)
        → IsFull s t.window
        → get_elem? t.window s.lookback ≡ some b
        → IsPeak b.high s.lookback t.window
        → t.ref_high ≡ some (record { ts = b.ts; price = b.high })
    pub low_found :
        (b : Bar)
        → IsFull s t.window
        → get_elem? t.window s.lookback ≡ some b
        → IsTrough b.low s.lookback t.window
        → t.ref_low ≡ some (record { ts = b.ts; price = b.low })

  -- the tracker with the bar in its window
  abbrev taken : Candle → StructureTracker → StructureTracker
  taken c s = record s {
    window =
        append_bounded (2 * s.lookback + 1)
          (record { ts = c.ts.micros; high = c.high; low = c.low }) s.window;
  }

  unconfirmed :
      (c : Candle) (s : StructureTracker)
      → ((b : Bar) → IsFull s (taken c s).window → get_elem? (taken c s).window s.lookback ≢ some b)
      → Confirms c s (taken c s)
  unconfirmed c s h = record {
    window = refl;
    high = inl refl;
    low = inl refl;
    high_found = λ b f g p. absurd (h b f g);
    low_found = λ b f g p. absurd (h b f g);
  }

  confirmed :
      (c : Candle) (s : StructureTracker) (b : Bar)
      → IsFull s (taken c s).window
      → get_elem? (taken c s).window s.lookback ≡ some b
      → Confirms c s (confirm_low b (confirm_high b (taken c s)))
  confirmed c s b f e =
      let u = taken c s in
      let t = confirm_high b u in
      let (w, k, r) = confirm_high_same b u in
      let (w', r') = confirm_low_same b t in
      let (hi, lo) = both-IsSwing b u e in
      let full : IsFull s (confirm_low b t).window = subst (IsFull s) (sym (w' ∙ w)) f in
      record {
        window = w' ∙ w;
        high = inr (full, hi);
        low = inr (full, lo);
        high_found = λ x f' g p.
            let same =
              some-injective _ _
                (sym e ∙ subst (λ v. get_elem? v s.lookback ≡ some x) (w' ∙ w) g) in
            subst (λ y. (confirm_low b t).ref_high ≡ some (record { ts = y.ts; price = y.high }))
              same
              (r'
                ∙ confirm_high_found b u (
                    subst (λ v. IsPeak b.high s.lookback v) (w' ∙ w)
                      (subst (λ y. IsPeak y.high s.lookback (confirm_low b t).window) (sym same)
                        p)));
        low_found = λ x f' g p.
            let same =
              some-injective _ _
                (sym e ∙ subst (λ v. get_elem? v s.lookback ≡ some x) (w' ∙ w) g) in
            subst (λ y. (confirm_low b t).ref_low ≡ some (record { ts = y.ts; price = y.low })) same
              (confirm_low_found b t (
                subst (λ n. IsTrough b.low n t.window) (sym k)
                  (subst (λ v. IsTrough b.low s.lookback v) w'
                    (subst (λ y. IsTrough y.low s.lookback (confirm_low b t).window) (sym same)
                      p))));
      }

  -- A bar enters the window of the tracker, and pushes out the oldest where the window is full. The
  -- reference high changes at most to the high of the bar at the centre of the full window, strictly
  -- above the highs of all its other bars, and is that high whenever there is such a bar; likewise
  -- the reference low.
  pub confirm-IsSwing : (c : Candle) (s : StructureTracker) → Confirms c s (confirm c s)
  unfolding confirm
  confirm-IsSwing c s = elim (Bool-cases (length (taken c s).window == (2 * s.lookback + 1))) [
    | inl full ↦ rw full (centred (get_elem? (taken c s).window s.lookback) refl (ground arith))
    | inr short ↦ rw short (unconfirmed c s (λ b f. absurd (ground arith)))
  ]
    where
      centred :
          (o : Option Bar)
          → get_elem? (taken c s).window s.lookback ≡ o
          → IsFull s (taken c s).window
          → Confirms c s (elim o as (λ _. StructureTracker) [
            | none ↦ taken c s
            | some m ↦ confirm_low m (confirm_high m (taken c s))
          ])
      centred none e f = unconfirmed c s (λ b _ g. absurd (ground arith))
      centred (some b) e f = confirmed c s b f e
