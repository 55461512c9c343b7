-- ===== src/Ladder/Lifetime.antt =====
-- The ladder over the bars of a position's life.
use freq_trading.Base.{
  ℕ, ◌+◌, ◌≤◌, ◌≡◌, inl, inr, refl, true, if◌then◌else◌, Option, none, some, List, [], ◌∷◌, ◌++◌,
  arith, ◌==◌, is_some, length, Option-cases,
}
use freq_trading.Num.{Float}
use freq_trading.Models.{Candle}
use freq_trading.Babysitter.Defs.{BrokerPosition, Action, contains, tickets, get}
use freq_trading.Babysitter.Tickets.{partials, partials-append, get-put, get-retain}
use freq_trading.Ladder.Defs.{
  LadderExitManager, LadderState, PosState, remove, state_of, step_trade, store, ladder_all,
  ladder_on_bar,
}
use freq_trading.Ladder.Rungs.{filled_from-le-length}
use freq_trading.Ladder.Trades.{
  updates, updates-append, stages_of, fills_of, step_trade-counts, step_trade-other,
}

get-remove {ℓ} :
    {V : Type ℓ} (t u : ℕ) (m : List (ℕ × V))
    → get t (remove u m) ≡ (if u == t then none else get t m)
get-remove t u [] = ground arith
get-remove t u ((w, x) ∷ m) = ground (arith, get-remove t u m)

-- how often a ticket occurs
abbrev pub copies : ℕ → List ℕ → ℕ
copies t [] = 0
copies t (u ∷ us) = (if u == t then 1 else 0) + copies t us

copies-contains : (t : ℕ) (us : List ℕ) → 1 ≤ copies t us → contains t us ≡ true
copies-contains t [] h = absurd (omega arith)
copies-contains t (u ∷ us) h = ground (arith, copies-contains t us)

module _ ⦃fl : Float⦄ (k : LadderExitManager) where
  open fl use {Carrier}

  get-store :
      (t u : ℕ) (o : Option PosState) (m : List (ℕ × PosState))
      → get t (store k u o m) ≡ (if u == t then o else get t m)
  get-store t u none m = get-remove t u m
  get-store t u (some st) m = get-put t u st m

  -- a ticket that is not among the positions
  ladder_all-absent :
      (t : ℕ) (fn : Option (ℕ → Carrier)) (ps : List BrokerPosition) (close : Carrier)
      (candidate : Option Candle) (m : List (ℕ × PosState))
      → copies t (tickets ps) ≡ 0
      → let q = ladder_all k fn ps close candidate m in
        (get t q.0 ≡ get t m) × (partials t q.1 ≡ 0) × (updates t q.1 ≡ 0)
  unfolding ladder_all
  ladder_all-absent t fn [] close candidate m h = (refl, refl, refl)
  ladder_all-absent t fn (p ∷ ps) close candidate m h =
      let q = step_trade k fn p close candidate (state_of k p m) in
      let m' = store k p.ticket q.0 m in
      let rest = (ladder_all k fn ps close candidate m').1 in
      ground (
        arith,
        get-store t p.ticket q.0 m,
        step_trade-other k t fn p close candidate (state_of k p m),
        ladder_all-absent t fn ps close candidate m',
        partials-append t q.1 rest,
        updates-append t q.1 rest,
      )

  -- a ticket that is new starts with nothing used up
  state_of-counts :
      (p : BrokerPosition) (m : List (ℕ × PosState))
      → (fills_of k (get p.ticket m) ≤ fills_of k (some (state_of k p m)))
        × (stages_of (get p.ticket m) ≤ stages_of (some (state_of k p m)))
  unfolding state_of
  state_of-counts p m = ground arith

  -- a ticket that stays tracked has used up what was issued for it
  abbrev Spends : ℕ → List Action → Option PosState → Option PosState → Type 0
  Spends t acts before after =
      (partials t acts + fills_of k before ≤ fills_of k after)
      × (updates t acts + stages_of before ≤ stages_of after)

  step_trade-Spends :
      (t : ℕ) (fn : Option (ℕ → Carrier)) (p : BrokerPosition) (close : Carrier)
      (candidate : Option Candle) (m : List (ℕ × PosState))
      → p.ticket ≡ t
      → let q = step_trade k fn p close candidate (state_of k p m) in
        is_some q.0 ≡ true → Spends t q.1 (get t m) q.0
  step_trade-Spends t fn p close candidate m h s =
      let q = step_trade k fn p close candidate (state_of k p m) in
      elim (Option-cases q.0) [
        | inl e ↦ absurd (ground arith)
        | inr (u, e) ↦
            let c = step_trade-counts k t fn p close candidate (state_of k p m) e in
            let (f, g) = state_of-counts p m in ground arith
      ]

  ladder_all-Spends :
      (t : ℕ) (fn : Option (ℕ → Carrier)) (ps : List BrokerPosition) (close : Carrier)
      (candidate : Option Candle) (m : List (ℕ × PosState))
      → copies t (tickets ps) ≡ 1
      → let q = ladder_all k fn ps close candidate m in
        is_some (get t q.0) ≡ true → Spends t q.1 (get t m) (get t q.0)
  unfolding ladder_all
  ladder_all-Spends t fn [] close candidate m h s = absurd (omega arith)
  ladder_all-Spends t fn (p ∷ ps) close candidate m h s =
      let q = step_trade k fn p close candidate (state_of k p m) in
      let m' = store k p.ticket q.0 m in
      let rest = (ladder_all k fn ps close candidate m').1 in
      ground (
        arith,
        get-store t p.ticket q.0 m,
        step_trade-other k t fn p close candidate (state_of k p m),
        step_trade-Spends t fn p close candidate m,
        ladder_all-absent t fn ps close candidate m',
        ladder_all-Spends t fn ps close candidate m',
        partials-append t q.1 rest,
        updates-append t q.1 rest,
      )

  -- the manager bar by bar: the answers of `spread_fn`, the positions and the candle of each bar
  unfoldable pub ladder_on_bars :
      List (Option (ℕ → Carrier) × List BrokerPosition × Candle)
      → LadderState
      → LadderState × List Action
  ladder_on_bars [] s = (s, [])
  ladder_on_bars ((fn, ps, c) ∷ bs) s =
      let (s', acts) = ladder_on_bar k fn ps c s in
      let (s'', rest) = ladder_on_bars bs s' in (s'', acts ++ rest)

  -- On each of the bars the ticket is one of the positions, and the manager does not forget it.
  abbrev pub StaysTracked :
      ℕ → List (Option (ℕ → Carrier) × List BrokerPosition × Candle) → LadderState → Type 0
  StaysTracked t [] s = Unit
  StaysTracked t ((fn, ps, c) ∷ bs) s =
      (copies t (tickets ps) ≡ 1)
      × (is_some (get t (ladder_on_bar k fn ps c s).0.trades) ≡ true)
      × StaysTracked t bs (ladder_on_bar k fn ps c s).0

  ladder_on_bar-Spends :
      (t : ℕ) (fn : Option (ℕ → Carrier)) (ps : List BrokerPosition) (c : Candle) (s : LadderState)
      → copies t (tickets ps) ≡ 1
      → let q = ladder_on_bar k fn ps c s in
        is_some (get t q.0.trades) ≡ true → Spends t q.1 (get t s.trades) (get t q.0.trades)
  unfolding ladder_on_bar
  ladder_on_bar-Spends t fn ps c s h q = ground (
    arith,
    ladder_all-Spends t fn ps c.close s.prev_candle s.trades,
    copies-contains t (tickets ps),
    get-retain t (tickets ps) (ladder_all k fn ps c.close s.prev_candle s.trades).0,
  )

  ladder_on_bars-Spends :
      (t : ℕ) (bs : List (Option (ℕ → Carrier) × List BrokerPosition × Candle)) (s : LadderState)
      → StaysTracked t bs s
      → let q = ladder_on_bars bs s in Spends t q.1 (get t s.trades) (get t q.0.trades)
  unfolding ladder_on_bars
  ladder_on_bars-Spends t [] s h = (omega arith, omega arith)
  ladder_on_bars-Spends t ((fn, ps, c) ∷ bs) s h =
      let q = ladder_on_bar k fn ps c s in
      ground (
        arith,
        ladder_on_bar-Spends t fn ps c s h.0 h.1,
        ladder_on_bars-Spends t bs q.0 h.2,
        partials-append t q.1 (ladder_on_bars bs q.0).1,
        updates-append t q.1 (ladder_on_bars bs q.0).1,
      )

  fills_of-le-length : (o : Option PosState) → fills_of k o ≤ length k.partial_levels
  fills_of-le-length none = omega arith
  fills_of-le-length (some st) = filled_from-le-length 0 k.partial_levels st.filled

  -- While a ticket stays tracked, whatever the bars, the partial closes issued for it are at most
  -- as many as the rungs of the ladder that were not filled before.
  pub partials-le-length :
      (t : ℕ) (bs : List (Option (ℕ → Carrier) × List BrokerPosition × Candle)) (s : LadderState)
      → StaysTracked t bs s
      → partials t (ladder_on_bars bs s).1 + fills_of k (get t s.trades) ≤ length k.partial_levels
  partials-le-length t bs s h = omega (
    arith,
    (ladder_on_bars-Spends t bs s h).0,
    fills_of-le-length (get t (ladder_on_bars bs s).0.trades),
  )

  -- While a ticket stays tracked, whatever the bars, its stop is changed at most twice, less the
  -- stages that it had taken before.
  pub updates_le_two :
      (t : ℕ) (bs : List (Option (ℕ → Carrier) × List BrokerPosition × Candle)) (s : LadderState)
      → StaysTracked t bs s
      → updates t (ladder_on_bars bs s).1 + stages_of (get t s.trades) ≤ 2
  updates_le_two t bs s h =
      let after = get t (ladder_on_bars bs s).0.trades in
      let bound : stages_of after ≤ 2 = ground arith in
      omega (arith, (ladder_on_bars-Spends t bs s h).1)
