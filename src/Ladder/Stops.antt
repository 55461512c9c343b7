-- ===== src/Ladder/Stops.antt =====
-- The actions of a ladder bar against the positions of that bar.
use freq_trading.Base.{
  ℕ, ◌+◌, ◌≡◌, ◌⊎◌, inr, true, if◌then◌else◌, not, ◌||◌, Option, none, some, List, [], ◌∷◌, ◌++◌,
  arith,
}
use freq_trading.Num.{Float, zero_float}
use freq_trading.Models.{Candle}
use freq_trading.Babysitter.Defs.{
  BrokerPosition, Action, partial_close, update_sl, is_long_position, has_stop,
}
use freq_trading.Ladder.Defs.{
  LadderExitManager, LadderState, PosState, fill_rung, rung_step, rungs, final_close, accepts,
  stage_stop, state_of, step_trade, store, ladder_all, ladder_on_bar, r_at,
}

module _ ⦃fl : Float⦄ where
  open fl use {Carrier, lt, le}

  -- The action is for the position, and a new stop is strictly tighter than the one that the
  -- position has, if it has one, and strictly on its side of the close.
  abbrev pub StopFits : Carrier → BrokerPosition → Action → Type 0
  StopFits close p (partial_close t v) = p.ticket ≡ t
  StopFits close p (update_sl t x) =
      (p.ticket ≡ t)
      × ((not (has_stop p) || (if is_long_position p then lt p.sl x else lt x p.sl)) ≡ true)
      × ((if is_long_position p then lt x close else lt close x) ≡ true)

  abbrev pub SomeStopFits : Carrier → List BrokerPosition → Action → Type 0
  SomeStopFits close [] a = ⊥
  SomeStopFits close (p ∷ ps) a = StopFits close p a ⊎ SomeStopFits close ps a

  abbrev pub StopsFit : Carrier → List BrokerPosition → List Action → Type 0
  StopsFit close ps [] = Unit
  StopsFit close ps (a ∷ xs) = SomeStopFits close ps a × StopsFit close ps xs

  StopsFit-append :
      (close : Carrier) (ps : List BrokerPosition) (xs ys : List Action)
      → StopsFit close ps xs
      → StopsFit close ps ys
      → StopsFit close ps (xs ++ ys)
  StopsFit-append close ps [] ys h q = q
  StopsFit-append close ps (x ∷ xs) ys h q = (h.0, StopsFit-append close ps xs ys h.1 q)

  StopsFit-cons :
      (close : Carrier) (p : BrokerPosition) (ps : List BrokerPosition) (xs : List Action)
      → StopsFit close ps xs
      → StopsFit close (p ∷ ps) xs
  StopsFit-cons close p ps [] h = tt
  StopsFit-cons close p ps (x ∷ xs) h = (inr h.0, StopsFit-cons close p ps xs h.1)

  module _ (k : LadderExitManager) where
    rung_step-StopsFit :
        (close : Carrier) (p : BrokerPosition) (ps : List BrokerPosition) (r : Carrier) (i : ℕ)
        (lvl frac emitted : Carrier) (st : PosState)
        → StopsFit close (p ∷ ps) (rung_step k p r i lvl frac emitted st).2
    unfolding rung_step fill_rung
    rung_step-StopsFit close p ps r i lvl frac emitted st = ground arith

    rungs-StopsFit :
        (close : Carrier) (p : BrokerPosition) (ps : List BrokerPosition) (r : Carrier) (i : ℕ)
        (ls : List (Carrier × Carrier)) (emitted : Carrier) (st : PosState)
        → StopsFit close (p ∷ ps) (rungs k p r i ls emitted st).2
    unfolding rungs
    rungs-StopsFit close p ps r i [] emitted st = tt
    rungs-StopsFit close p ps r i ((lvl, frac) ∷ ls) emitted st =
        let q = rung_step k p r i lvl frac emitted st in
        StopsFit-append close (p ∷ ps) q.2 (rungs k p r (i + 1) ls q.1 q.0).2
          (rung_step-StopsFit close p ps r i lvl frac emitted st)
          (rungs-StopsFit close p ps r (i + 1) ls q.1 q.0)

    stage_stop-StopsFit :
        (fn : Option (ℕ → Carrier)) (close : Carrier) (p : BrokerPosition)
        (ps : List BrokerPosition) (candidate : Option Candle) (st : PosState)
        → StopsFit close (p ∷ ps) (stage_stop k fn p close candidate st).1
    unfolding stage_stop accepts
    stage_stop-StopsFit fn close p ps none st = tt
    stage_stop-StopsFit fn close p ps (some c) st = ground arith

    final_close-StopsFit :
        (close : Carrier) (p : BrokerPosition) (ps : List BrokerPosition) (emitted : Carrier)
        → StopsFit close (p ∷ ps) (final_close k p emitted)
    unfolding final_close
    final_close-StopsFit close p ps emitted = ground arith

    step_trade-StopsFit :
        (fn : Option (ℕ → Carrier)) (close : Carrier) (p : BrokerPosition)
        (ps : List BrokerPosition) (candidate : Option Candle) (st : PosState)
        → StopsFit close (p ∷ ps) (step_trade k fn p close candidate st).1
    unfolding step_trade
    step_trade-StopsFit fn close p ps candidate st =
        let q = rungs k p (r_at k p st close) 0 k.partial_levels zero_float st in
        let filled =
          rungs-StopsFit close p ps (r_at k p st close) 0 k.partial_levels zero_float st in
        let closed =
          StopsFit-append close (p ∷ ps) q.2 (final_close k p q.1) filled
            (final_close-StopsFit close p ps q.1) in
        let staged =
          StopsFit-append close (p ∷ ps) q.2 (stage_stop k fn p close candidate q.0).1 filled
            (stage_stop-StopsFit fn close p ps candidate q.0) in
        ground arith

    ladder_all-StopsFit :
        (fn : Option (ℕ → Carrier)) (ps : List BrokerPosition) (close : Carrier)
        (candidate : Option Candle) (m : List (ℕ × PosState))
        → StopsFit close ps (ladder_all k fn ps close candidate m).1
    unfolding ladder_all
    ladder_all-StopsFit fn [] close candidate m = tt
    ladder_all-StopsFit fn (p ∷ ps) close candidate m =
        let (o, acts) = step_trade k fn p close candidate (state_of k p m) in
        let m' = store k p.ticket o m in
        StopsFit-append close (p ∷ ps) acts (ladder_all k fn ps close candidate m').1
          (step_trade-StopsFit fn close p ps candidate (state_of k p m))
          (StopsFit-cons close p ps (ladder_all k fn ps close candidate m').1
            (ladder_all-StopsFit fn ps close candidate m'))

    -- Every action of a bar is for a position of the bar. A new stop is strictly tighter than the
    -- one that the position has, if it has one, and strictly on its side of the close.
    pub ladder_on_bar-StopsFit :
        (fn : Option (ℕ → Carrier)) (ps : List BrokerPosition) (c : Candle) (s : LadderState)
        → StopsFit c.close ps (ladder_on_bar k fn ps c s).1
    unfolding ladder_on_bar
    ladder_on_bar-StopsFit fn ps c s = ladder_all-StopsFit fn ps c.close s.prev_candle s.trades
