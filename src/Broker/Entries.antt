-- ===== src/Broker/Entries.antt =====
-- The methods of `Mt5Broker` that open positions, and the dispatch of a signal.
use freq_trading.Base.{
  ℕ, Bool, true, false, if◌then◌else◌, Option, none, some, List, [], ◌∷◌, ◌&&◌, not, ◌==◌,
}
use freq_trading.Num.{Float, zero_float}
use freq_trading.Models.{Signal, entry, exit, reject, is_long, Direction, long, short}
use freq_trading.Broker.Terminal.{
  deal, pending, buy, sell, buy_limit, sell_limit, Filling, return, Comment, of_signal, entry_leg,
  addon_leg, Request, OrderDone, Tick, Terminal, Fault, not_connected, no_tick, limit_needs_stop,
  initialize_failed, no_account, not_demo, symbol_select_failed, Reply, ok, err, BrokerConfig, Link,
  or_default,
}
use freq_trading.Broker.Send.{send}
use freq_trading.Broker.Orders.{Op, Last, and_then, send_plain, filling_of, close}

module _ ⦃fl : Float⦄ where
  open fl use {Carrier, lit, add, sub, mul, abs, round_to, lt, eq}

  abbrev pub volume_ladder : List Carrier
  volume_ladder = lit 2 2 ∷ lit 1 2 ∷ []

  -- what `if x:` says of an optional float
  abbrev pub truthy : Option Carrier → Bool
  truthy none = false
  truthy (some x) = not (eq x zero_float)

  -- the side of the tick at which an order of the direction trades
  abbrev pub side_price : Direction → Tick → Carrier
  side_price long tick = tick.ask
  side_price short tick = tick.bid

  -- a price moved against the direction, and one moved with it
  abbrev pub behind : Direction → Carrier → Carrier → Carrier
  behind long price dist = sub price dist
  behind short price dist = add price dist

  abbrev pub ahead : Direction → Carrier → Carrier → Carrier
  ahead long price dist = add price dist
  ahead short price dist = sub price dist

  -- the stop at the distance of the signal's from the order price, 0.0 without one
  unfoldable pub anchored_sl : Signal → Carrier → Carrier
  anchored_sl sig price = elim sig.stop [
    | none ↦ zero_float
    | some stop ↦
        if eq stop zero_float
        then zero_float
        else behind sig.direction price (abs (sub sig.price stop))
  ]

  -- the target likewise, where the server keeps it
  unfoldable pub anchored_tp : Bool → Signal → Carrier → Carrier
  anchored_tp server_tp sig price = elim sig.tp [
    | none ↦ zero_float
    | some tp ↦
        if not (eq tp zero_float) && server_tp
        then ahead sig.direction price (abs (sub sig.price tp))
        else zero_float
  ]

  -- `[want] + [v for v in VOLUME_LADDER if want > v]`, but for the first
  unfoldable pub smaller_volumes : Carrier → List Carrier → List Carrier
  smaller_volumes want [] = []
  smaller_volumes want (v ∷ vs) =
      let rest = smaller_volumes want vs in if lt v want then v ∷ rest else rest

  -- the request of a market entry at a price
  unfoldable pub market_request : BrokerConfig → Signal → Carrier → Carrier → Filling → Request
  unfolding anchored_sl anchored_tp
  market_request cfg sig price volume filling = record {
    action = deal;
    volume = some volume;
    kind = some (if is_long sig.direction then buy else sell);
    ticket = none;
    price = some price;
    sl = some (round_to (anchored_sl sig price) 8);
    tp = some (round_to (anchored_tp cfg.server_tp sig price) 8);
    deviation = some cfg.deviation;
    magic = some cfg.magic;
    comment = some (of_signal sig.reason);
    type_filling = some filling;
  }

  -- `_refresh` on the tick that it reads
  unfoldable pub requote : BrokerConfig → Signal → Tick → Request → Request
  requote cfg sig tick req =
      let px = side_price sig.direction tick in
      record req {
        price = some px;
        sl = elim sig.stop [
          | none ↦ req.sl
          | some stop ↦
              if not (eq stop zero_float)
              then some (round_to (behind sig.direction px (abs (sub sig.price stop))) 8)
              else req.sl
        ];
        tp = elim sig.tp [
          | none ↦ req.tp
          | some tp ↦
              if not (eq tp zero_float) && cfg.server_tp
              then some (round_to (ahead sig.direction px (abs (sub sig.price tp))) 8)
              else req.tp
        ];
      }

  -- and without one
  unfoldable pub requote_at : BrokerConfig → Signal → Request → Option Tick → Request
  unfolding requote
  requote_at cfg sig req none = req
  requote_at cfg sig req (some tick) = requote cfg sig tick req

  -- a pending limit order of `_open_limit`
  unfoldable pub limit_request :
      BrokerConfig → Signal → (volume price sl : Carrier) → Comment → Request
  limit_request cfg sig volume price sl comment = record {
    action = pending;
    volume = some volume;
    kind = some (if is_long sig.direction then buy_limit else sell_limit);
    ticket = none;
    price = some (round_to price 8);
    sl = some (round_to sl 8);
    tp = some (round_to zero_float 8);
    deviation = none;
    magic = some cfg.magic;
    comment = some comment;
    type_filling = some return;
  }

  -- what `connect` learns: whether the terminal starts, the trade mode of the account, 0 for a
  -- demo account, and whether the symbol can be selected
  pub record Login : Type 0 where
    pub initialized : Bool
    pub trade_mode : Option ℕ
    pub selected : Bool

  module _ {W : Type 0} (t : Terminal W) (cfg : BrokerConfig) where
    -- `connect`; `true` is that the account is a demo account
    unfoldable pub connect : (allow_live : Bool) → Login → Link W → Reply Bool × Link W
    connect allow_live login k = elim login.trade_mode [
      | none ↦ (err (if login.initialized then no_account else initialize_failed), k)
      | some mode ↦
          if not login.initialized
          then (err initialize_failed, k)
          else if not (mode == 0) && not allow_live
          then (err not_demo, k)
          else if not login.selected
          then (err symbol_select_failed, k)
          else (ok (mode == 0), record k { connected = true })
    ]

    -- `shutdown`
    unfoldable pub shutdown : Link W → Link W
    shutdown k = record k { connected = false }

    -- the function `_refresh` of an entry
    unfoldable pub refresh_entry : Signal → Request → W → Request
    unfolding requote_at
    refresh_entry sig req w = requote_at cfg sig req (t.symbol_info_tick w)

    -- one volume of the ladder
    unfoldable pub send_entry :
        Signal → (price volume : Carrier) → Link W → Reply OrderDone × Link W
    unfolding send refresh_entry market_request filling_of
    send_entry sig price volume k =
        send t cfg (some (refresh_entry sig)) true
          (market_request cfg sig price volume (filling_of (t.filling_mode k.world))) k

    -- a refusal for want of money goes on to the next volume
    abbrev pub on_refusal :
        (Fault → Link W → Reply (Last t cfg) × Link W)
        → Reply OrderDone × Link W
        → Reply (Last t cfg) × Link W
    on_refusal next (ok out, k) = (ok (some out), k)
    on_refusal next (err e, k) = if cfg.mentions_no_money e then next e k else (err e, k)

    -- the loop over the ladder, with the last exception
    unfoldable pub try_volumes :
        Signal → (price volume : Carrier) → List Carrier → Op t cfg (Last t cfg)
    unfolding send_entry
    try_volumes sig price volume [] k =
        on_refusal (λ e l. (err e, l)) (send_entry sig price volume k)
    try_volumes sig price volume (v ∷ vs) k =
        on_refusal (λ _ l. try_volumes sig price v vs l) (send_entry sig price volume k)

    -- `_open` in market mode, with the tick that it reads
    unfoldable pub open_at : Signal → Option Tick → Op t cfg (Last t cfg)
    unfolding try_volumes smaller_volumes
    open_at sig none k = (err no_tick, k)
    open_at sig (some tick) k =
        let want = or_default sig.qty cfg.default_qty in
        try_volumes sig (side_price sig.direction tick) want (smaller_volumes want volume_ladder) k

    -- `_open` in market mode
    unfoldable pub open_market : Signal → Op t cfg (Last t cfg)
    unfolding open_at
    open_market sig k = open_at sig (t.symbol_info_tick k.world) k

    -- `_open_limit` with the stop of the signal
    unfoldable pub place_limits : Signal → Option Carrier → Op t cfg (Last t cfg)
    unfolding send_plain limit_request
    place_limits sig none k = (err limit_needs_stop, k)
    place_limits sig (some stop) k =
        let d = abs (sub sig.price stop) in
        let l1 = behind sig.direction sig.price d in
        let sl = behind sig.direction l1 d in
        let l2 = behind sig.direction l1 (mul cfg.addon_frac d) in
        let vol = or_default sig.qty cfg.default_qty in
        and_then t cfg (send_plain t cfg (limit_request cfg sig vol l1 sl (entry_leg sig.reason)) k)
          (λ _ l. send_plain t cfg (limit_request cfg sig vol l2 sl (addon_leg sig.reason)) l)

    -- `_open_limit`
    unfoldable pub open_limit : Signal → Op t cfg (Last t cfg)
    unfolding place_limits
    open_limit sig k = place_limits sig sig.stop k

    -- `execute`
    unfoldable pub execute : Signal → Op t cfg (Last t cfg)
    unfolding open_market open_limit close
    execute sig k = elim sig.kind [
      | reject ↦ (ok none, k)
      | entry ↦
          if not k.connected
          then (err not_connected, k)
          else if cfg.limit_mode
          then open_limit sig k
          else open_market sig k
      | exit ↦ if not k.connected then (err not_connected, k) else close t cfg sig k
    ]
