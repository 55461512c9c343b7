-- ===== src/RiskGuard/Spikes.antt =====
-- The window of the spike detector.
use freq_trading.Base.{
  ℕ, ◌-◌, ◌≤◌, ◌≡◌, refl, List, [], ◌∷◌, ◌++◌, arith, length, drop, ltb, Bool-cases, inl, inr, map,
  ◌∙◌, sym,
}
use mathlib.Core.Path.{ap₂}
use freq_trading.Num.{Float}
use freq_trading.Indicators.{append_bounded}
use freq_trading.Indicators.Windows.{feed, last_of, feed-eq-last_of}
use freq_trading.RiskGuard.Defs.{SpikeCancel, update_spike, last_n}

module _ ⦃fl : Float⦄ where
  open fl use {Carrier, sub}

  -- the detector after bars, given as pairs of a high and a low, in their order
  pub observe_bars : List (Carrier × Carrier) → SpikeCancel → SpikeCancel
  observe_bars [] s = s
  observe_bars ((h, l) ∷ bs) s = observe_bars bs (update_spike h l s).1

  abbrev pub range_of : Carrier × Carrier → Carrier
  range_of (h, l) = sub h l

  drop-zero : (n : ℕ) (xs : List Carrier) → n ≡ 0 → drop n xs ≡ xs
  drop-zero n xs h = rw h refl

  update_spike-ranges :
      (h l : Carrier) (s : SpikeCancel)
      → 1 ≤ s.lookback
      → ((update_spike h l s).1.ranges ≡ append_bounded s.lookback (sub h l) s.ranges)
        × ((update_spike h l s).1.lookback ≡ s.lookback)
  unfolding update_spike last_n
  update_spike-ranges h l s p =
      let longer = s.ranges ++ sub h l ∷ [] in
      elim (Bool-cases (ltb s.lookback (length longer))) [
        | inl over ↦ rw over (ground arith, refl)
        | inr fits ↦
            rw fits (sym (drop-zero (length longer - s.lookback) longer (ground arith)), refl)
      ]

  observe_bars-feed :
      (bs : List (Carrier × Carrier)) (s : SpikeCancel)
      → 1 ≤ s.lookback
      → (observe_bars bs s).ranges ≡ feed s.lookback s.ranges (map range_of bs)
  unfolding observe_bars
  observe_bars-feed [] s p = refl
  observe_bars-feed ((h, l) ∷ bs) s p =
      let (r, k) = update_spike-ranges h l s p in
      observe_bars-feed bs (update_spike h l s).1 (rw k p)
      ∙ ap₂ (λ m q. feed m q (map range_of bs)) k r

  -- With a lookback of at least one, a detector that starts with no more ranges than its lookback
  -- holds the ranges of the last `lookback` bars: of those it started with, followed by those it has
  -- seen.
  pub observe_bars-window :
      (bs : List (Carrier × Carrier)) (s : SpikeCancel)
      → 1 ≤ s.lookback
      → length s.ranges ≤ s.lookback
      → (observe_bars bs s).ranges ≡ last_of s.lookback (s.ranges ++ map range_of bs)
  observe_bars-window bs s p q =
      observe_bars-feed bs s p ∙ feed-eq-last_of s.lookback s.ranges (map range_of bs) q
