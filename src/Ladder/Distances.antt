-- ===== src/Ladder/Distances.antt =====
-- The distances that the ladder divides by.
use freq_trading.Base.{
  ℕ, ◌+◌, ◌≡◌, inl, inr, refl, true, false, Option, none, some, List, [], ◌∷◌, arith, Option-cases,
}
use freq_trading.Num.{Float, zero_float}
use freq_trading.Models.{Candle}
use freq_trading.Babysitter.Defs.{BrokerPosition, tickets, get, put, retain}
use freq_trading.Ladder.Lifetime.{ladder_on_bars}
use freq_trading.Ladder.Defs.{
  LadderExitManager, LadderState, PosState, valid_ladder, remove, fill_rung, rung_step, rungs,
  stage_stop, state_of, new_state, step_trade, store, ladder_all, ladder_on_bar, r_at,
}

module _ ⦃fl : Float⦄ where
  open fl use {Carrier, le}

  -- a distance that no division by zero can come from
  abbrev IsDivisor : PosState → Type 0
  IsDivisor st = le st.d zero_float ≡ false

  -- the distance of every tracked trade is not zero or less
  abbrev pub AllPositive : List (ℕ × PosState) → Type 0
  AllPositive [] = Unit
  AllPositive ((t, st) ∷ m) = (le st.d zero_float ≡ false) × AllPositive m

  AllPositive-get :
      (t : ℕ) (m : List (ℕ × PosState)) {st : PosState}
      → AllPositive m
      → get t m ≡ some st
      → IsDivisor st
  AllPositive-get t [] h e = absurd (ground arith)
  AllPositive-get t ((u, v) ∷ m) {st} h e = ground (arith, AllPositive-get t m {st = st})

  AllPositive-put :
      (t : ℕ) (st : PosState) (m : List (ℕ × PosState))
      → AllPositive m
      → IsDivisor st
      → AllPositive (put t st m)
  AllPositive-put t st [] h e = (e, tt)
  AllPositive-put t st ((u, v) ∷ m) h e = ground (arith, AllPositive-put t st m)

  AllPositive-remove : (t : ℕ) (m : List (ℕ × PosState)) → AllPositive m → AllPositive (remove t m)
  AllPositive-remove t [] h = tt
  AllPositive-remove t ((u, v) ∷ m) h = ground (arith, AllPositive-remove t m)

  AllPositive-retain :
      (seen : List ℕ) (m : List (ℕ × PosState)) → AllPositive m → AllPositive (retain seen m)
  AllPositive-retain seen [] h = tt
  AllPositive-retain seen ((u, v) ∷ m) h = ground (arith, AllPositive-retain seen m)

  module _ (k : LadderExitManager) where
    new_state-IsDivisor : (p : BrokerPosition) → valid_ladder k ≡ true → IsDivisor (new_state k p)
    unfolding new_state valid_ladder
    new_state-IsDivisor p v = ground arith

    state_of-IsDivisor :
        (p : BrokerPosition) (m : List (ℕ × PosState))
        → valid_ladder k ≡ true
        → AllPositive m
        → IsDivisor (state_of k p m)
    unfolding state_of
    state_of-IsDivisor p m v h = elim (Option-cases (get p.ticket m)) [
      | inl e ↦ ground (arith, new_state-IsDivisor p v)
      | inr (st, e) ↦ ground (arith, AllPositive-get p.ticket m {st = st} h)
    ]

    rungs-d :
        (p : BrokerPosition) (r : Carrier) (i : ℕ) (ls : List (Carrier × Carrier))
        (emitted : Carrier) (st : PosState)
        → (rungs k p r i ls emitted st).0.d ≡ st.d
    unfolding rungs rung_step fill_rung
    rungs-d p r i [] emitted st = refl
    rungs-d p r i ((lvl, frac) ∷ ls) emitted st =
        let q = rung_step k p r i lvl frac emitted st in
        ground (arith, rungs-d p r (i + 1) ls q.1 q.0)

    stage_stop-d :
        (fn : Option (ℕ → Carrier)) (p : BrokerPosition) (close : Carrier)
        (candidate : Option Candle) (st : PosState)
        → (stage_stop k fn p close candidate st).0.d ≡ st.d
    unfolding stage_stop
    stage_stop-d fn p close none st = refl
    stage_stop-d fn p close (some c) st = ground arith

    step_trade-d :
        (fn : Option (ℕ → Carrier)) (p : BrokerPosition) (close : Carrier)
        (candidate : Option Candle) (st : PosState) {u : PosState}
        → (step_trade k fn p close candidate st).0 ≡ some u
        → u.d ≡ st.d
    unfolding step_trade
    step_trade-d fn p close candidate st h =
        let q = rungs k p (r_at k p st close) 0 k.partial_levels zero_float st in
        ground (
          arith,
          rungs-d p (r_at k p st close) 0 k.partial_levels zero_float st,
          stage_stop-d fn p close candidate q.0,
        )

    store-AllPositive :
        (t : ℕ) (o : Option PosState) (m : List (ℕ × PosState))
        → AllPositive m
        → ((u : PosState) → o ≡ some u → IsDivisor u)
        → AllPositive (store k t o m)
    store-AllPositive t none m h g = AllPositive-remove t m h
    store-AllPositive t (some u) m h g = AllPositive-put t u m h (g u refl)

    ladder_all-AllPositive :
        (fn : Option (ℕ → Carrier)) (ps : List BrokerPosition) (close : Carrier)
        (candidate : Option Candle) (m : List (ℕ × PosState))
        → valid_ladder k ≡ true
        → AllPositive m
        → AllPositive (ladder_all k fn ps close candidate m).0
    unfolding ladder_all
    ladder_all-AllPositive fn [] close candidate m v h = h
    ladder_all-AllPositive fn (p ∷ ps) close candidate m v h =
        let (o, acts) = step_trade k fn p close candidate (state_of k p m) in
        ladder_all-AllPositive fn ps close candidate (store k p.ticket o m) v (
          store-AllPositive p.ticket o m h (λ u e.
            rw (step_trade-d fn p close candidate (state_of k p m) {u = u} e)
              (state_of-IsDivisor p m v h)))

    ladder_on_bar-AllPositive :
        (fn : Option (ℕ → Carrier)) (ps : List BrokerPosition) (c : Candle) (s : LadderState)
        → valid_ladder k ≡ true
        → AllPositive s.trades
        → AllPositive (ladder_on_bar k fn ps c s).0.trades
    unfolding ladder_on_bar
    ladder_on_bar-AllPositive fn ps c s v h =
        let q = ladder_all k fn ps c.close s.prev_candle s.trades in
        AllPositive-retain (tickets ps) q.0
          (ladder_all-AllPositive fn ps c.close s.prev_candle s.trades v h)

    ladder_on_bars-keeps :
        (bs : List (Option (ℕ → Carrier) × List BrokerPosition × Candle)) (s : LadderState)
        → valid_ladder k ≡ true
        → AllPositive s.trades
        → AllPositive (ladder_on_bars k bs s).0.trades
    unfolding ladder_on_bars
    ladder_on_bars-keeps [] s v h = h
    ladder_on_bars-keeps ((fn, ps, c) ∷ bs) s v h =
        ladder_on_bars-keeps bs (ladder_on_bar k fn ps c s).0 v
          (ladder_on_bar-AllPositive fn ps c s v h)

    -- With a configuration that the constructor accepts, after any bars of a new manager, with any
    -- positions, no tracked trade has a distance of zero or less, by which the next bar would divide.
    pub ladder_on_bars-AllPositive :
        (bs : List (Option (ℕ → Carrier) × List BrokerPosition × Candle))
        → valid_ladder k ≡ true
        → AllPositive (ladder_on_bars k bs (record { trades = []; prev_candle = none })).0.trades
    ladder_on_bars-AllPositive bs v =
        ladder_on_bars-keeps bs (record { trades = []; prev_candle = none }) v tt
