-- ===== src/Broker/Volumes.antt =====
-- What the requests of a market entry ask for.
use freq_trading.Base.{◌≡◌, ◌⊎◌, true, Option, none, some, Bool, false}
use freq_trading.Num.{Float, zero_float}
use freq_trading.Models.{Signal, Direction, long, short}
use freq_trading.Broker.Terminal.{Request, Terminal, BrokerConfig, Tick, deal, OrderType, buy, sell}

module _ ⦃fl : Float⦄ where
  open fl use {Carrier, lt, eq, add, sub, abs, round_to}

  -- The stop of an order at a price: below it for a long and above it for a short, as far as the
  -- signal's stop is from the signal's price; 0.0 where the signal has none. The target likewise, on
  -- the other side, where the server keeps it.
  abbrev pub IsStop : Signal → Carrier → Option Carrier → Carrier → Type 0
  IsStop sig price none sl = sl ≡ zero_float
  IsStop sig price (some stop) sl =
      ((eq stop zero_float ≡ true) × (sl ≡ zero_float))
      ⊎ (((sig.direction ≡ long) × (sl ≡ sub price (abs (sub sig.price stop))))
          ⊎ ((sig.direction ≡ short) × (sl ≡ add price (abs (sub sig.price stop)))))

  abbrev pub IsTarget : Bool → Signal → Carrier → Option Carrier → Carrier → Type 0
  IsTarget server_tp sig price none tp = tp ≡ zero_float
  IsTarget server_tp sig price (some target) tp =
      (((eq target zero_float ≡ true) ⊎ (server_tp ≡ false)) × (tp ≡ zero_float))
      ⊎ (((sig.direction ≡ long) × (tp ≡ add price (abs (sub sig.price target))))
          ⊎ ((sig.direction ≡ short) × (tp ≡ sub price (abs (sub sig.price target)))))

  -- a long buys at the ask and a short sells at the bid
  abbrev pub IsSide : Direction → Tick → Option OrderType → Carrier → Type 0
  IsSide long tick kind price = (kind ≡ some buy) × (price ≡ tick.ask)
  IsSide short tick kind price = (kind ≡ some sell) × (price ≡ tick.bid)

  -- The request is a market order for the signal, on its side of a tick that the terminal gives, at
  -- the wanted volume or a smaller one, with the magic number, and with stop and target at the
  -- signal's distances from the price of the order, rounded.
  abbrev pub IsQuote :
      {W : Type 0} → Terminal W → BrokerConfig → Signal → Carrier → Request → Type 0
  IsQuote {W} t cfg sig want req =
      (w : W) × (tick : Tick) × (price : Carrier) × (volume : Carrier) × (sl : Carrier)
      × (tp : Carrier) × (t.symbol_info_tick w ≡ some tick)
      × IsSide sig.direction tick req.kind price
      × (req.action ≡ deal)
      × (req.ticket ≡ none)
      × (req.magic ≡ some cfg.magic)
      × (req.price ≡ some price)
      × (req.volume ≡ some volume)
      × ((volume ≡ want) ⊎ (lt volume want ≡ true))
      × (req.sl ≡ some (round_to sl 8))
      × IsStop sig price sig.stop sl
      × (req.tp ≡ some (round_to tp 8))
      × IsTarget cfg.server_tp sig price sig.tp tp
