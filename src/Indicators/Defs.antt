-- ===== src/Indicators/Defs.antt =====
-- The three indicators of orb/indicators.py. A constructor's check of its period is `new`'s.
use freq_trading.Base.{
  ℕ, ◌+◌, ◌-◌, Bool, if◌then◌else◌, not, ◌&&◌, Option, none, some, List, [], ◌∷◌, ◌++◌, length,
  drop, head?, last?, is_some, leb, ◌==◌,
}
use freq_trading.Num.{Float, max, zero_float}
use freq_trading.Models.{Result, ok, err, indicator_error, type_error}

-- `deque(maxlen=m).append(x)`
abbrev pub append_bounded {ℓ} : {A : Type ℓ} → ℕ → A → List A → List A
append_bounded m x xs = let ys = xs ++ x ∷ [] in drop (length ys - m) ys

module _ ⦃fl : Float⦄ where
  open fl use {Carrier, lit, add, sub, mul, quot, abs, eq, is_finite}

  -- the float of a count
  abbrev pub of_count : ℕ → Carrier
  of_count n = lit n 0

  pub record WilderAtr : Type 0 where
    pub period : ℕ
    pub prev_close : Option Carrier
    pub count : ℕ
    pub seed_sum : Carrier
    pub atr : Option Carrier

  pub record Roc : Type 0 where
    pub period : ℕ
    pub closes : List Carrier

  pub record VolumeSma : Type 0 where
    pub period : ℕ
    pub vols : List Carrier
    pub sum : Carrier

  unfoldable pub new_atr : ℕ → WilderAtr
  new_atr p = record { period = p; prev_close = none; count = 0; seed_sum = zero_float; atr = none }

  unfoldable pub new_roc : ℕ → Roc
  new_roc p = record { period = p; closes = [] }

  unfoldable pub new_vsma : ℕ → VolumeSma
  new_vsma p = record { period = p; vols = []; sum = zero_float }

  -- the true range of a bar, after the previous close if there is one
  unfoldable pub true_range : Option Carrier → Carrier → Carrier → Carrier
  true_range none high low = sub high low
  true_range (some prev) high low =
      max (max (sub high low) (abs (sub high prev))) (abs (sub low prev))

  -- the smoothing step once the seed is there, and the seeding before
  unfoldable pub absorb : WilderAtr → Carrier → WilderAtr
  absorb w tr = elim w.atr [
    | some a ↦ record w {
      atr = some (quot (add (mul a (of_count (w.period - 1))) tr) (of_count w.period));
    }
    | none ↦
        if leb w.count w.period
        then record w {
          seed_sum = add w.seed_sum tr;
          atr =
              if w.count == w.period
              then some (quot (add w.seed_sum tr) (of_count w.period))
              else none;
        }
        else w
  ]

  -- `WilderATR.update`
  unfoldable pub update_atr : WilderAtr → Carrier → Carrier → Carrier → Result WilderAtr
  unfolding absorb true_range
  update_atr w high low close =
      if is_finite high && (is_finite low && is_finite close)
      then ok (
          absorb (record w { prev_close = some close; count = w.count + 1 })
            (true_range w.prev_close high low))
      else err indicator_error

  -- `WilderATR.ready`
  abbrev pub atr_ready : WilderAtr → Bool
  atr_ready w = is_some w.atr

  -- `ROC.update`
  unfoldable pub update_roc : Roc → Carrier → Result Roc
  update_roc r close =
      if is_finite close
      then ok (record r { closes = append_bounded (r.period + 1) close r.closes })
      else err indicator_error

  -- `ROC.ready`
  unfoldable pub roc_ready : Roc → Bool
  roc_ready r = length r.closes == (r.period + 1)

  -- `self._closes[0]` and `self._closes[-1]`, and the quotient of `ROC.value`
  unfoldable pub rate : Option Carrier → Option Carrier → Result (Option Carrier)
  rate (some ref) (some last) =
      if eq ref zero_float
      then err indicator_error
      else ok (some (mul (sub (quot last ref) (lit 1 0)) (lit 100 0)))
  rate _ _ = err type_error

  -- `ROC.value`
  unfoldable pub roc_value : Roc → Result (Option Carrier)
  unfolding rate roc_ready
  roc_value r = if not (roc_ready r) then ok none else rate (head? r.closes) (last? r.closes)

  -- the running sum less the oldest volume, where the window is full
  abbrev less_oldest : List Carrier → Carrier → Carrier
  less_oldest [] s = s
  less_oldest (v ∷ _) s = sub s v

  -- `VolumeSMA.update`
  unfoldable pub update_vsma : VolumeSma → Carrier → Result VolumeSma
  update_vsma w v =
      if is_finite v
      then ok (record w {
        vols = append_bounded w.period v w.vols;
        sum = add (if length w.vols == w.period then less_oldest w.vols w.sum else w.sum) v;
      })
      else err indicator_error

  -- `VolumeSMA.ready`
  unfoldable pub vsma_ready : VolumeSma → Bool
  vsma_ready w = length w.vols == w.period

  -- `VolumeSMA.value`
  unfoldable pub vsma_value : VolumeSma → Option Carrier
  unfolding vsma_ready
  vsma_value w = if not (vsma_ready w) then none else some (quot w.sum (of_count w.period))
