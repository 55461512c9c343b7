-- ===== src/Broker/Terminal.antt =====
-- What orb/broker/mt5.py exchanges with the terminal, the calls it makes of it, and the fields of
-- `Mt5Broker`. The terminal is a parameter: `W` is its state, which order_send and sleep change.
use freq_trading.Base.{ℕ, ◌+◌, Bool, false, if◌then◌else◌, Option, none, some, List, [], ◌∷◌, ◌==◌}
use freq_trading.Num.{Float}
use freq_trading.Num.Fixed.{ℤ, pos, negsuc}
use freq_trading.Models.{Reason}
use freq_trading.Broker.Retcodes.{RetryPolicy}

pub data Action : Type 0 where
  deal pending sltp remove : Action

pub data OrderType : Type 0 where
  buy sell buy_limit sell_limit : OrderType

pub data Filling : Type 0 where
  ioc fok return : Filling

-- the comment of a request, and the reason of an event
pub data Comment : Type 0 where
  entry_leg addon_leg of_signal : Reason → Comment
  partial_2r risk_halt : Comment

module _ ⦃fl : Float⦄ where
  open fl use {Carrier, eq}

  -- The dict of a request: a key that it lacks is none. The symbol is the broker's, and the
  -- time in force is always until cancelled.
  pub record Request : Type 0 where
    pub action : Action
    pub volume : Option Carrier
    pub kind : Option OrderType
    -- the position or the order that it names
    pub ticket : Option ℕ
    pub price : Option Carrier
    pub sl : Option Carrier
    pub tp : Option Carrier
    pub deviation : Option ℕ
    pub magic : Option ℕ
    pub comment : Option Comment
    pub type_filling : Option Filling

  -- `request["type_filling"] = filling`
  abbrev pub set_filling : Request → Filling → Request
  set_filling req filling = record req { type_filling = some filling }

  pub record SendResult : Type 0 where
    pub retcode : ℕ
    pub order : ℕ
    pub deal_id : ℕ
    pub fill_price : Carrier
    pub fill_volume : Carrier

  -- the dict that a send returns
  pub record OrderDone : Type 0 where
    pub code : ℤ
    pub order : ℕ
    pub deal_id : ℕ
    pub fill_price : Carrier
    pub fill_volume : Carrier

  pub record Tick : Type 0 where
    pub bid : Carrier
    pub ask : Carrier
    pub time : Option ℕ

  pub record Position : Type 0 where
    pub ticket : ℕ
    pub magic : ℕ
    pub is_buy : Bool
    pub volume : Carrier
    pub price_open : Carrier
    pub sl : Carrier
    pub tp : Carrier

  pub record Order : Type 0 where
    pub ticket : ℕ
    pub magic : ℕ
    pub time_setup : ℕ

  -- The calls of the MetaTrader5 module for the broker's symbol, and `sleep_fn`.
  pub record Terminal (W : Type 0) : Type 0 where
    pub order_send : Request → W → Option SendResult × W
    pub positions_get : W → List Position
    pub orders_get : W → List Order
    pub symbol_info_tick : W → Option Tick
    -- `filling_mode` and `volume_step` of the symbol, where they are known
    pub filling_mode : W → Option ℕ
    pub volume_step : W → Option Carrier
    pub sleep : Carrier → W → W

  -- A BrokerError, or the exception of Python for an attribute of None.
  pub data Fault : Type 0 where
    none_result : Fault
    rejected : ℕ → Request → Fault
    not_connected no_tick limit_needs_stop attribute_error initialize_failed no_account not_demo
          symbol_select_failed :
        Fault

  pub data Reply (A : Type 0) : Type 0 where
    ok : A → Reply A
    err : Fault → Reply A

  -- The parameters of the constructor. `mentions_no_money` is the test whether the text of the
  -- exception has "10019" in it.
  pub record BrokerConfig : Type 0 where
    pub default_qty : Carrier
    pub magic : ℕ
    pub deviation : ℕ
    pub server_tp : Bool
    pub limit_mode : Bool
    pub addon_frac : Carrier
    pub retry : Option RetryPolicy
    pub mentions_no_money : Fault → Bool

  -- The fields that change, the terminal behind them, and the requests it has received, newest
  -- first.
  pub record Link (W : Type 0) : Type 0 where
    pub connected : Bool
    pub retcode_counts : List (ℤ × ℕ)
    pub sent : List Request
    pub world : W

  -- `code == key` of the tally
  abbrev pub same_code : ℤ → ℤ → Bool
  same_code (pos a) (pos b) = a == b
  same_code (negsuc a) (negsuc b) = a == b
  same_code _ _ = false

  -- `retcode_counts[code] += 1`
  unfoldable pub count_code : ℤ → List (ℤ × ℕ) → List (ℤ × ℕ)
  count_code c [] = (c, 1) ∷ []
  count_code c ((k, n) ∷ rest) =
      let later = count_code c rest in if same_code c k then (k, n + 1) ∷ rest else (k, n) ∷ later

  -- the positions of the list that carry the magic number
  unfoldable pub own_positions : ℕ → List Position → List Position
  own_positions magic [] = []
  own_positions magic (p ∷ ps) =
      let rest = own_positions magic ps in if p.magic == magic then p ∷ rest else rest

  -- `x or default` of an optional float
  abbrev pub or_default : Option Carrier → Carrier → Carrier
  or_default none d = d
  or_default (some x) d = if eq x (fl.lit 0 0) then d else x

  module _ {W : Type 0} (t : Terminal W) (cfg : BrokerConfig) where
    -- `my_positions`
    abbrev pub my_positions : W → List Position
    my_positions w = own_positions cfg.magic (t.positions_get w)

    -- the call of `order_send`
    unfoldable pub post : Request → Link W → Option SendResult × Link W
    post req k =
        let r = t.order_send req k.world in (r.0, record k { sent = req ∷ k.sent; world = r.1 })
