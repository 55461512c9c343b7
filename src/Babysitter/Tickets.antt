-- ===== src/Babysitter/Tickets.antt =====
-- The dict of trades under a bar: closed tickets are forgotten, an open one keeps its distance, and
-- its partial close happens once.
use freq_trading.Base.{
  ℕ, ◌+◌, ◌≤◌, ◌≡◌, refl, true, false, if◌then◌else◌, Option, none, some, List, [], ◌∷◌, ◌++◌,
  arith, ◌==◌,
}
use freq_trading.Num.{Float}
use freq_trading.Babysitter.Defs.{
  BrokerPosition, TradeState, Action, partial_close, update_sl, Settings, get, put, contains,
  retain, trade_of, partial_due, manage, manage_all, tickets, on_bar,
}

module _ {ℓ} {V : Type ℓ} where
  pub get-put :
      (t u : ℕ) (v : V) (m : List (ℕ × V))
      → get t (put u v m) ≡ (if u == t then some v else get t m)
  get-put t u v [] = refl
  get-put t u v ((w, x) ∷ m) = ground (arith, get-put t u v m)

  pub get-retain :
      (t : ℕ) (seen : List ℕ) (m : List (ℕ × V))
      → get t (retain seen m) ≡ (if contains t seen then get t m else none)
  get-retain t seen [] = ground arith
  get-retain t seen ((w, x) ∷ m) = ground (arith, get-retain t seen m)

module _ ⦃fl : Float⦄ where
  open fl use {Carrier}

  -- the number of partial closes of a ticket
  abbrev pub partials : ℕ → List Action → ℕ
  partials t [] = 0
  partials t (partial_close u v ∷ xs) = (if u == t then 1 else 0) + partials t xs
  partials t (update_sl u x ∷ xs) = partials t xs

  -- 1 once the partial close of a trade is done
  abbrev pub done_of : Option TradeState → ℕ
  done_of none = 0
  done_of (some st) = if st.partial_done then 1 else 0

  -- the distance of a tracked trade
  abbrev pub distance_of : Option TradeState → Option Carrier
  distance_of none = none
  distance_of (some st) = some st.d

  pub partials-append :
      (t : ℕ) (xs ys : List Action) → partials t (xs ++ ys) ≡ partials t xs + partials t ys
  partials-append t [] ys = omega arith
  partials-append t (partial_close u v ∷ xs) ys = ground (arith, partials-append t xs ys)
  partials-append t (update_sl u x ∷ xs) ys = partials-append t xs ys

  done_of-le-one : (o : Option TradeState) → done_of o ≤ 1
  done_of-le-one o = ground arith

  -- bars in which the ticket stays open, each with its positions and its close
  abbrev pub StaysOpen : ℕ → List (List BrokerPosition × Carrier) → Type 0
  StaysOpen t [] = Unit
  StaysOpen t ((ps, close) ∷ bs) = (contains t (tickets ps) ≡ true) × StaysOpen t bs

  module _ (k : Settings) where
    -- Python's `on_bar` bar by bar: the trades and all the actions
    pub on_bars :
        List (List BrokerPosition × Carrier)
        → List (ℕ × TradeState)
        → List (ℕ × TradeState) × List Action
    on_bars [] m = (m, [])
    on_bars ((ps, close) ∷ bs) m =
        let (m', acts) = on_bar k ps close m in
        let (m'', rest) = on_bars bs m' in (m'', acts ++ rest)

    manage-done :
        (t : ℕ) (p : BrokerPosition) (close : Carrier) (m : List (ℕ × TradeState))
        → partials t (manage k p close m).1 + done_of (get t m)
          ≤ done_of (get t (manage k p close m).0)
    unfolding manage trade_of partial_due
    manage-done t p close m = ground (
      arith,
      get-put t p.ticket
          (record (trade_of k p m) {
            partial_done =
                if partial_due k p (trade_of k p m) close
                then true
                else (trade_of k p m).partial_done;
          })
          m,
    )

    manage-distance :
        (t : ℕ) (p : BrokerPosition) (close : Carrier) (m : List (ℕ × TradeState)) {d : Carrier}
        → distance_of (get t m) ≡ some d
        → distance_of (get t (manage k p close m).0) ≡ some d
    unfolding manage trade_of
    manage-distance t p close m h = ground (
      arith,
      get-put t p.ticket
          (record (trade_of k p m) {
            partial_done =
                if partial_due k p (trade_of k p m) close
                then true
                else (trade_of k p m).partial_done;
          })
          m,
    )

    manage_all-done :
        (t : ℕ) (ps : List BrokerPosition) (close : Carrier) (m : List (ℕ × TradeState))
        → partials t (manage_all k ps close m).1 + done_of (get t m)
          ≤ done_of (get t (manage_all k ps close m).0)
    unfolding manage_all
    manage_all-done t [] close m = omega arith
    manage_all-done t (p ∷ ps) close m =
        let m' = (manage k p close m).0 in
        omega (
          arith,
          manage-done t p close m,
          manage_all-done t ps close m',
          partials-append t (manage k p close m).1 (manage_all k ps close m').1,
        )

    manage_all-distance :
        (t : ℕ) (ps : List BrokerPosition) (close : Carrier) (m : List (ℕ × TradeState))
        {d : Carrier}
        → distance_of (get t m) ≡ some d
        → distance_of (get t (manage_all k ps close m).0) ≡ some d
    unfolding manage_all
    manage_all-distance t [] close m h = h
    manage_all-distance t (p ∷ ps) close m h =
        manage_all-distance t ps close (manage k p close m).0 (manage-distance t p close m h)

    on_bars-done :
        (t : ℕ) (bs : List (List BrokerPosition × Carrier)) (m : List (ℕ × TradeState))
        → StaysOpen t bs
        → partials t (on_bars bs m).1 + done_of (get t m) ≤ done_of (get t (on_bars bs m).0)
    unfolding on_bars on_bar
    on_bars-done t [] m s = omega arith
    on_bars-done t ((ps, close) ∷ bs) m s =
        let m' = (manage_all k ps close m).0 in
        let m'' = retain (tickets ps) m' in
        ground (
          arith,
          manage_all-done t ps close m,
          get-retain t (tickets ps) m',
          on_bars-done t bs m'' s.1,
          partials-append t (manage_all k ps close m).1 (on_bars bs m'').1,
        )

    -- While a ticket stays open, whatever the bars, at most one partial close is issued for it, and
    -- none if it was done before.
    pub partials-le-one :
        (t : ℕ) (bs : List (List BrokerPosition × Carrier)) (m : List (ℕ × TradeState))
        → StaysOpen t bs
        → partials t (on_bars bs m).1 + done_of (get t m) ≤ 1
    partials-le-one t bs m s =
        omega (arith, on_bars-done t bs m s, done_of-le-one (get t (on_bars bs m).0))

    -- While a ticket stays open, its distance is the one that was first recorded for it.
    pub on_bars-distance :
        (t : ℕ) (bs : List (List BrokerPosition × Carrier)) (m : List (ℕ × TradeState))
        {d : Carrier}
        → StaysOpen t bs
        → distance_of (get t m) ≡ some d
        → distance_of (get t (on_bars bs m).0) ≡ some d
    unfolding on_bars on_bar
    on_bars-distance t [] m s h = h
    on_bars-distance t ((ps, close) ∷ bs) m s h =
        let m' = (manage_all k ps close m).0 in
        on_bars-distance t bs (retain (tickets ps) m') s.1
          (rw get-retain (rw s.0 (manage_all-distance t ps close m h)))

    -- A ticket that is not among the positions of a bar is forgotten.
    on_bar-get_closed :
        (t : ℕ) (ps : List BrokerPosition) (close : Carrier) (m : List (ℕ × TradeState))
        → contains t (tickets ps) ≡ false
        → get t (on_bar k ps close m).0 ≡ none
    unfolding on_bar
    on_bar-get_closed t ps close m h = rw get-retain (rw h refl)
