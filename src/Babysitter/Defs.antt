-- ===== src/Babysitter/Defs.antt =====
-- `Babysitter` of orb/babysitter.py. The dict of trades is an association list; a position is what
-- the broker reports of it.
use freq_trading.Base.{
  ℕ, Bool, true, false, if◌then◌else◌, not, ◌&&◌, ◌||◌, Option, none, some, List, [], ◌∷◌, ◌++◌,
  ◌==◌,
}
use freq_trading.Num.{Float, zero_float, max, min}

module _ ⦃fl : Float⦄ where
  open fl use {Carrier, add, sub, mul, abs, lt, le, eq}

  -- `position_type` is 0 for a long; `sl` is 0.0 where there is no stop.
  pub record BrokerPosition : Type 0 where
    pub ticket : ℕ
    pub position_type : ℕ
    pub volume : Carrier
    pub price_open : Carrier
    pub sl : Carrier

  pub record TradeState : Type 0 where
    pub d : Carrier
    pub partial_done : Bool

  pub data Action : Type 0 where
    partial_close : ℕ → Carrier → Action
    update_sl : ℕ → Carrier → Action

  pub record Settings : Type 0 where
    pub partial_frac : Carrier
    pub partial_at_r : Carrier
    pub breakeven_at_r : Carrier
    pub default_d : Carrier

  abbrev pub is_long_position : BrokerPosition → Bool
  is_long_position p = p.position_type == 0

  -- whether the position has a stop: `if p.sl`
  abbrev pub has_stop : BrokerPosition → Bool
  has_stop p = not (eq p.sl zero_float)

  -- `cur = p.sl or 0.0`
  abbrev pub current_stop : BrokerPosition → Carrier
  current_stop p = if has_stop p then p.sl else zero_float

  -- the tickets that the loop has seen
  abbrev pub tickets : List BrokerPosition → List ℕ
  tickets [] = []
  tickets (p ∷ ps) = p.ticket ∷ tickets ps

-- `t in seen`
abbrev pub contains : ℕ → List ℕ → Bool
contains t [] = false
contains t (u ∷ us) = u == t || contains t us

module _ {ℓ} {V : Type ℓ} where
  -- `dict.get`
  abbrev pub get : ℕ → List (ℕ × V) → Option V
  get t [] = none
  get t ((u, v) ∷ m) = if u == t then some v else get t m

  -- `dict[t] = v`
  abbrev pub put : ℕ → V → List (ℕ × V) → List (ℕ × V)
  put t v [] = (t, v) ∷ []
  put t v ((u, w) ∷ m) = if u == t then (t, v) ∷ m else (u, w) ∷ put t v m

  -- the loop that forgets the tickets that were not seen
  abbrev pub retain : List ℕ → List (ℕ × V) → List (ℕ × V)
  retain seen [] = []
  retain seen ((u, v) ∷ m) =
      let rest = retain seen m in if contains u seen then (u, v) ∷ rest else rest

module _ ⦃fl : Float⦄ (k : Settings) where
  open fl use {Carrier, add, sub, mul, abs, lt, le, eq}

  -- `_trades.get`, or the state that a new ticket gets
  unfoldable pub trade_of : BrokerPosition → List (ℕ × TradeState) → TradeState
  trade_of p m = elim (get p.ticket m) [
    | some st ↦ st
    | none ↦ record {
      d = if has_stop p then abs (sub p.price_open p.sl) else k.default_d;
      partial_done = false;
    }
  ]

  unfoldable pub profit : BrokerPosition → Carrier → Carrier
  profit p close = if is_long_position p then sub close p.price_open else sub p.price_open close

  -- whether the partial close is due
  unfoldable pub partial_due : BrokerPosition → TradeState → Carrier → Bool
  partial_due p st close = not st.partial_done && le (mul k.partial_at_r st.d) (profit p close)

  -- the stop that the bar asks for, with the breakeven floor
  unfoldable pub target : BrokerPosition → TradeState → Carrier → Carrier
  target p st close =
      let trailed = if is_long_position p then sub close st.d else add close st.d in
      if lt zero_float k.breakeven_at_r && le (mul k.breakeven_at_r st.d) (profit p close)
      then (if is_long_position p then max trailed p.price_open else min trailed p.price_open)
      else trailed

  unfoldable pub tighter : BrokerPosition → Carrier → Bool
  tighter p t =
      eq (current_stop p) zero_float
      || ((is_long_position p && lt (current_stop p) t)
          || (not (is_long_position p) && lt t (current_stop p)))

  -- the body of the loop of `on_bar`: the trades and the actions of one position
  unfoldable pub manage :
      BrokerPosition → Carrier → List (ℕ × TradeState) → List (ℕ × TradeState) × List Action
  manage p close m =
      let st = trade_of p m in
      let due = partial_due p st close in
      let t = target p st close in
      (
        put p.ticket (record st { partial_done = if due then true else st.partial_done }) m,
        (if due then partial_close p.ticket (mul p.volume k.partial_frac) ∷ [] else [])
            ++ (if tighter p t then update_sl p.ticket t ∷ [] else []),
      )

  -- the loop of `on_bar`
  unfoldable pub manage_all :
      List BrokerPosition → Carrier → List (ℕ × TradeState) → List (ℕ × TradeState) × List Action
  manage_all [] close m = (m, [])
  manage_all (p ∷ ps) close m =
      let (m', acts) = manage p close m in
      let (m'', rest) = manage_all ps close m' in (m'', acts ++ rest)

  -- `on_bar`
  unfoldable pub on_bar :
      List BrokerPosition → Carrier → List (ℕ × TradeState) → List (ℕ × TradeState) × List Action
  on_bar ps close m = let (m', acts) = manage_all ps close m in (retain (tickets ps) m', acts)
