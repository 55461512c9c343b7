-- ===== src/Ladder/Trades.antt =====
-- What the ladder does to one trade on a bar: the rungs that it fills, the stages that it takes.
use freq_trading.Base.{
  ℕ, ◌+◌, ◌≤◌, ◌≡◌, refl, false, if◌then◌else◌, Option, none, some, List, [], ◌∷◌, ◌++◌, arith,
  ◌==◌,
}
use freq_trading.Num.{Float, zero_float}
use freq_trading.Models.{Candle}
use freq_trading.Babysitter.Defs.{BrokerPosition, Action, partial_close, update_sl}
use freq_trading.Babysitter.Tickets.{partials, partials-append}
use freq_trading.Ladder.Defs.{
  LadderExitManager, PosState, fill_rung, rung_step, rungs, final_close, stage_stop, staged_sl,
  step_trade, r_at,
}
use freq_trading.Ladder.Rungs.{filled_from, rungs-filled}

module _ ⦃fl : Float⦄ where
  open fl use {Carrier}

  -- the number of stop updates of a ticket
  abbrev pub updates : ℕ → List Action → ℕ
  updates t [] = 0
  updates t (partial_close u v ∷ xs) = updates t xs
  updates t (update_sl u x ∷ xs) = (if u == t then 1 else 0) + updates t xs

  pub updates-append :
      (t : ℕ) (xs ys : List Action) → updates t (xs ++ ys) ≡ updates t xs + updates t ys
  updates-append t [] ys = omega arith
  updates-append t (partial_close u v ∷ xs) ys = updates-append t xs ys
  updates-append t (update_sl u x ∷ xs) ys = ground (arith, updates-append t xs ys)

  -- the stages that a trade has taken
  abbrev pub stages_of : Option PosState → ℕ
  stages_of none = 0
  stages_of (some st) = (if st.stage1_done then 1 else 0) + (if st.stage2_done then 1 else 0)

  module _ (k : LadderExitManager) where
    -- the rungs that a trade has filled
    abbrev pub fills_of : Option PosState → ℕ
    fills_of none = 0
    fills_of (some st) = filled_from 0 k.partial_levels st.filled

    rung_step-stages :
        (t : ℕ) (p : BrokerPosition) (r : Carrier) (i : ℕ) (lvl frac emitted : Carrier)
        (st : PosState)
        → let q = rung_step k p r i lvl frac emitted st in
          (q.0.stage1_done ≡ st.stage1_done)
          × (q.0.stage2_done ≡ st.stage2_done)
          × (updates t q.2 ≡ 0)
          × ((p.ticket == t) ≡ false → partials t q.2 ≡ 0)
    unfolding rung_step fill_rung
    rung_step-stages t p r i lvl frac emitted st = ground arith

    rungs-stages :
        (t : ℕ) (p : BrokerPosition) (r : Carrier) (i : ℕ) (ls : List (Carrier × Carrier))
        (emitted : Carrier) (st : PosState)
        → let q = rungs k p r i ls emitted st in
          (q.0.stage1_done ≡ st.stage1_done)
          × (q.0.stage2_done ≡ st.stage2_done)
          × (updates t q.2 ≡ 0)
          × ((p.ticket == t) ≡ false → partials t q.2 ≡ 0)
    unfolding rungs
    rungs-stages t p r i [] emitted st = (refl, refl, refl, λ _. refl)
    rungs-stages t p r i ((lvl, frac) ∷ ls) emitted st =
        let q = rung_step k p r i lvl frac emitted st in
        let rest = (rungs k p r (i + 1) ls q.1 q.0).2 in
        ground (
          arith,
          rung_step-stages t p r i lvl frac emitted st,
          rungs-stages t p r (i + 1) ls q.1 q.0,
          partials-append t q.2 rest,
          updates-append t q.2 rest,
        )

    stage_stop-counts :
        (t : ℕ) (fn : Option (ℕ → Carrier)) (p : BrokerPosition) (close : Carrier)
        (candidate : Option Candle) (st : PosState)
        → let q = stage_stop k fn p close candidate st in
          (q.0.filled ≡ st.filled)
          × (partials t q.1 ≡ 0)
          × (updates t q.1 + stages_of (some st) ≤ stages_of (some q.0))
          × ((p.ticket == t) ≡ false → updates t q.1 ≡ 0)
    unfolding stage_stop staged_sl
    stage_stop-counts t fn p close none st = ground arith
    stage_stop-counts t fn p close (some c) st = ground arith

    -- a trade that stays tracked has used up what it issued
    pub step_trade-counts :
        (t : ℕ) (fn : Option (ℕ → Carrier)) (p : BrokerPosition) (close : Carrier)
        (candidate : Option Candle) (st : PosState) {u : PosState}
        → (step_trade k fn p close candidate st).0 ≡ some u
        → let acts = (step_trade k fn p close candidate st).1 in
          (partials t acts + fills_of (some st) ≤ fills_of (some u))
          × (updates t acts + stages_of (some st) ≤ stages_of (some u))
    unfolding step_trade
    step_trade-counts t fn p close candidate st h =
        let r = r_at k p st close in
        let q = rungs k p r 0 k.partial_levels zero_float st in
        let s = stage_stop k fn p close candidate q.0 in
        ground (
          arith,
          rungs-filled k t p r 0 k.partial_levels zero_float st,
          rungs-stages t p r 0 k.partial_levels zero_float st,
          stage_stop-counts t fn p close candidate q.0,
          partials-append t q.2 s.1,
          updates-append t q.2 s.1,
        )

    -- a bar issues actions for the ticket of the trade alone
    pub step_trade-other :
        (t : ℕ) (fn : Option (ℕ → Carrier)) (p : BrokerPosition) (close : Carrier)
        (candidate : Option Candle) (st : PosState)
        → (p.ticket == t) ≡ false
        → let acts = (step_trade k fn p close candidate st).1 in
          (partials t acts ≡ 0) × (updates t acts ≡ 0)
    unfolding step_trade final_close
    step_trade-other t fn p close candidate st h =
        let r = r_at k p st close in
        let q = rungs k p r 0 k.partial_levels zero_float st in
        let s = stage_stop k fn p close candidate q.0 in
        ground (
          arith,
          rungs-stages t p r 0 k.partial_levels zero_float st,
          stage_stop-counts t fn p close candidate q.0,
          partials-append t q.2 s.1,
          updates-append t q.2 s.1,
          partials-append t q.2 (final_close k p q.1),
          updates-append t q.2 (final_close k p q.1),
        )
