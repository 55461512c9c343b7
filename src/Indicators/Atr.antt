-- ===== src/Indicators/Atr.antt =====
-- How many bars the ATR needs.
use freq_trading.Base.{
  ℕ, suc, ◌+◌, ◌≤◌, ◌≡◌, ◌∙◌, refl, true, some, List, [], ◌∷◌, arith, length, subst, leb,
}
use freq_trading.Num.{Float}
use freq_trading.Models.{Result, ok, err, Candle, finite_ohlc}
use freq_trading.Indicators.Defs.{WilderAtr, new_atr, update_atr, absorb, atr_ready, true_range}
use native.Mathlib.Nat.{add-zero, add-suc, suc-add, zero-add}

module _ ⦃fl : Float⦄ where
  -- a run of updates, which an exception ends
  abbrev chain : (WilderAtr → Result WilderAtr) → Result WilderAtr → Result WilderAtr
  chain f (ok w) = f w
  chain f (err x) = err x

  pub update_all : List Candle → WilderAtr → Result WilderAtr
  update_all [] w = ok w
  update_all (c ∷ cs) w = chain (update_all cs) (update_atr w c.high c.low c.close)

  -- the count tells whether the seed is complete
  pub record IsCounted (n : ℕ) (w : WilderAtr) : Type 0 where
    pub positive : 1 ≤ w.period
    pub counted : w.count ≡ n
    pub ready : atr_ready w ≡ leb w.period n

  update_atr-IsCounted :
      (n : ℕ) (c : Candle) (w u : WilderAtr)
      → IsCounted n w
      → update_atr w c.high c.low c.close ≡ ok u
      → IsCounted (suc n) u × (u.period ≡ w.period)
  unfolding update_atr absorb
  update_atr-IsCounted n c w u v h = ground arith

  update_atr-ok :
      (c : Candle) (w : WilderAtr)
      → finite_ohlc c ≡ true
      → (u : WilderAtr) × (update_atr w c.high c.low c.close ≡ ok u)
  unfolding update_atr
  update_atr-ok c w h = (
    absorb (record w { prev_close = some c.close; count = w.count + 1 })
        (true_range w.prev_close c.high c.low),
    ground arith,
  )

  abbrev pub AllFinite : List Candle → Type 0
  AllFinite [] = Unit
  AllFinite (c ∷ cs) = (finite_ohlc c ≡ true) × AllFinite cs

  update_all-IsCounted :
      (cs : List Candle) (n : ℕ) (w : WilderAtr)
      → AllFinite cs
      → IsCounted n w
      → (u : WilderAtr) × (update_all cs w ≡ ok u)
        × IsCounted (n + length cs) u
        × (u.period ≡ w.period)
  unfolding update_all
  update_all-IsCounted [] n w f v = (w, refl, rw add-zero v, refl)
  update_all-IsCounted (c ∷ cs) n w f v =
      let (u, e) = update_atr-ok c w f.0 in
      let (v', p) = update_atr-IsCounted n c w u v e in
      let (t, e', v'', p') = update_all-IsCounted cs (suc n) u f.1 v' in
      (t, rw e e', rw (add-suc, ← suc-add) v'', p' ∙ p)

  -- Over bars with finite prices an ATR never raises, and it is ready exactly when it has seen as
  -- many bars as its period.
  pub atr_ready_after :
      (p : ℕ) (cs : List Candle)
      → 1 ≤ p
      → AllFinite cs
      → (w : WilderAtr) × (update_all cs (new_atr p) ≡ ok w) × (atr_ready w ≡ leb p (length cs))
  unfolding new_atr
  atr_ready_after p cs h f =
      let (w, e, v, q) =
        update_all-IsCounted cs 0 (new_atr p) f
          (record { positive = h; counted = refl; ready = ground arith }) in
      (
        w,
        e,
        subst (λ k. atr_ready w ≡ leb k (length cs)) q
            (subst (λ n. atr_ready w ≡ leb w.period n) (zero-add (length cs)) v.ready),
      )
