-- ===== src/Broker/Orders.antt =====
-- The methods of `Mt5Broker` that manage what is open: stops, closes and pending orders, and the
-- connection.
use freq_trading.Base.{
  ℕ, suc, ◌+◌, Bool, false, if◌then◌else◌, Option, none, some, List, [], ◌∷◌, ◌||◌, ◌&&◌, not, ◌==◌,
  ltb, leb, ◌%◌, ◌/◌,
}
use freq_trading.Num.{Float, zero_float, min}
use freq_trading.Models.{Signal, take_profit_partial}
use freq_trading.Broker.Terminal.{
  deal, sltp, remove, buy, sell, Filling, ioc, fok, return, Comment, of_signal, partial_2r, Request,
  OrderDone, Tick, Position, Order, Terminal, attribute_error, Reply, ok, err, BrokerConfig, Link,
  or_default, my_positions,
}
use freq_trading.Broker.Send.{send}

module _ ⦃fl : Float⦄ where
  open fl use {Carrier, lit, add, sub, mul, quot, abs, round_to, lt, le, eq}

  abbrev pub sl_tolerance : Carrier
  sl_tolerance = lit 1 6

  -- the positions with the ticket
  unfoldable pub find_ticket : ℕ → List Position → Option Position
  find_ticket ticket [] = none
  find_ticket ticket (p ∷ ps) =
      let later = find_ticket ticket ps in if p.ticket == ticket then some p else later

  -- the request that moves the stop of a position
  unfoldable pub sltp_request : Position → Carrier → Request
  sltp_request p sl = record {
    action = sltp;
    volume = none;
    kind = none;
    ticket = some p.ticket;
    price = none;
    sl = some (round_to sl 8);
    tp = some (or_default (some p.tp) zero_float);
    deviation = none;
    magic = none;
    comment = none;
    type_filling = none;
  }

  -- the request that removes a pending order
  unfoldable pub remove_request : Order → Request
  remove_request o = record {
    action = remove;
    volume = none;
    kind = none;
    ticket = some o.ticket;
    price = none;
    sl = none;
    tp = none;
    deviation = none;
    magic = none;
    comment = none;
    type_filling = none;
  }

  -- the request that closes a volume of a position at the tick
  unfoldable pub close_request :
      BrokerConfig → Filling → Position → Carrier → Comment → Tick → Request
  close_request cfg filling p volume reason tick = record {
    action = deal;
    volume = some volume;
    kind = some (if p.is_buy then sell else buy);
    ticket = some p.ticket;
    price = some (if p.is_buy then tick.bid else tick.ask);
    sl = none;
    tp = none;
    deviation = some cfg.deviation;
    magic = some cfg.magic;
    comment = some reason;
    type_filling = some filling;
  }

  -- the rounding of `_round_volume` to the step
  unfoldable pub snap_volume : Option Carrier → Carrier → Carrier
  snap_volume volume_step qty =
      let step = or_default volume_step (lit 1 2) in
      round_to (mul (round_to (add (quot qty step) (lit 1 9)) 0) step) 8

  -- the flags of `_filling`: 2 is immediate or cancel, 1 is fill or kill
  unfoldable pub filling_of : Option ℕ → Filling
  filling_of none = return
  filling_of (some flags) =
      if flags / 2 % 2 == 1 then ioc else if flags % 2 == 1 then fok else return

  -- the volume that an exit closes of a position; none where the partial volume rounds to zero
  unfoldable pub close_volume : Option Carrier → Signal → Position → Option Carrier
  unfolding snap_volume
  close_volume volume_step sig p = elim sig.reason [
    | take_profit_partial ↦ elim sig.qty [
      | none ↦ some p.volume
      | some qty ↦
          if not (eq qty zero_float) && lt qty p.volume
          then (let v = snap_volume volume_step qty in if le v zero_float then none else some v)
          else some p.volume
    ]
    | _ ↦ some p.volume
  ]

  module _ {W : Type 0} (t : Terminal W) (cfg : BrokerConfig) where
    -- a method: its reply, an exception perhaps, and what it leaves
    abbrev pub Op : Type 0 → Type 0
    Op A = Link W → Reply A × Link W

    abbrev pub and_then : {A B : Type 0} → Reply A × Link W → (A → Op B) → Reply B × Link W
    and_then (ok a, k) f = f a k
    and_then (err e, k) f = (err e, k)

    -- the last result of a loop
    abbrev pub Last : Type 0
    Last = Option OrderDone

    -- a `for` loop that carries the last result
    abbrev pub for_each : {A : Type 0} → (A → Last → Op Last) → List A → Last → Op Last
    for_each f [] last k = (ok last, k)
    for_each f (x ∷ xs) last k = and_then (f x last k) (λ r l. for_each f xs r l)

    -- a request with no refresh and no guard, as the result of the method
    unfoldable pub send_plain : Request → Op Last
    unfolding send
    send_plain req k = and_then (send t cfg none false req k) (λ out l. (ok (some out), l))

    -- `_close_position` with the tick that it reads
    unfoldable pub close_at : Position → Carrier → Comment → Option Tick → Op Last
    unfolding send_plain close_request filling_of
    close_at p volume reason none k = (err attribute_error, k)
    close_at p volume reason (some tick) k =
        send_plain (close_request cfg (filling_of (t.filling_mode k.world)) p volume reason tick) k

    -- `_close_position`
    unfoldable pub close_position : Position → Carrier → Comment → Op Last
    unfolding close_at
    close_position p volume reason k = close_at p volume reason (t.symbol_info_tick k.world) k

    -- one position of the loop of `update_stop`
    unfoldable pub sync_stop : Carrier → Position → Last → Op Last
    unfolding send_plain sltp_request
    sync_stop new_sl p last k =
        if lt (abs (sub p.sl new_sl)) sl_tolerance
        then (ok last, k)
        else send_plain (sltp_request p new_sl) k

    -- `update_stop`
    unfoldable pub update_stop : Carrier → Op Last
    unfolding sync_stop
    update_stop new_sl k = for_each (sync_stop new_sl) (my_positions t cfg k.world) none k

    -- `close_all`
    unfoldable pub close_all : Comment → Op Last
    unfolding close_position
    close_all reason k =
        for_each (λ p _ l. close_position p p.volume reason l) (my_positions t cfg k.world) none k

    -- `close_ticket` with the position that it finds
    unfoldable pub close_found : Carrier → Option Position → Op Last
    unfolding close_position snap_volume
    close_found volume none k = (ok none, k)
    close_found volume (some p) k =
        let vol = snap_volume (t.volume_step k.world) (min volume p.volume) in
        if le vol zero_float then (ok none, k) else close_position p vol partial_2r k

    -- `close_ticket`
    unfoldable pub close_ticket : ℕ → Carrier → Op Last
    unfolding close_found find_ticket
    close_ticket ticket volume k =
        close_found volume (find_ticket ticket (my_positions t cfg k.world)) k

    -- `modify_sl` with the position that it finds
    unfoldable pub modify_found : Carrier → Option Position → Op Last
    unfolding send_plain sltp_request
    modify_found sl none k = (ok none, k)
    modify_found sl (some p) k =
        if lt (abs (sub (or_default (some p.sl) zero_float) sl)) sl_tolerance
        then (ok none, k)
        else send_plain (sltp_request p sl) k

    -- `modify_sl`
    unfoldable pub modify_sl : ℕ → Carrier → Op Last
    unfolding modify_found find_ticket
    modify_sl ticket sl k = modify_found sl (find_ticket ticket (my_positions t cfg k.world)) k

    -- `getattr(tick, "time", None)`
    abbrev pub tick_time : Option Tick → Option ℕ
    tick_time none = none
    tick_time (some tick) = tick.time

    -- the loop of `cancel_expired` from the count so far
    unfoldable pub cancel_old : (now max_age : ℕ) → List Order → ℕ → Op ℕ
    unfolding send_plain remove_request
    cancel_old now max_age [] n k = (ok n, k)
    cancel_old now max_age (o ∷ os) n k =
        let skip = cancel_old now max_age os n k in
        if not (o.magic == cfg.magic)
        then skip
        else if leb (o.time_setup + max_age) now
        then and_then (send_plain (remove_request o) k) (λ _ l. cancel_old now max_age os (suc n) l)
        else skip

    -- `cancel_expired`
    unfoldable pub cancel_expired : ℕ → Op ℕ
    unfolding cancel_old
    cancel_expired max_age k = elim (tick_time (t.symbol_info_tick k.world)) [
      | none ↦ (ok 0, k)
      | some now ↦ cancel_old now max_age (t.orders_get k.world) 0 k
    ]

    -- `now is not None and now - time_setup < min_age_sec`
    abbrev pub is_fresh : Option ℕ → ℕ → Order → Bool
    is_fresh none min_age o = false
    is_fresh (some now) min_age o = ltb now (o.time_setup + min_age)

    -- one order of the loop of `cancel_pending`
    unfoldable pub cancel_one : Option ℕ → ℕ → Order → Last → Op Last
    unfolding send_plain remove_request
    cancel_one now min_age o last k =
        if not (o.magic == cfg.magic) || is_fresh now min_age o
        then (ok last, k)
        else send_plain (remove_request o) k

    -- `cancel_pending`, whose result is discarded
    unfoldable pub cancel_pending : ℕ → Op Last
    unfolding cancel_one
    cancel_pending min_age k =
        let now = if ltb 0 min_age then tick_time (t.symbol_info_tick k.world) else none in
        for_each (cancel_one now min_age) (t.orders_get k.world) none k

    -- a pass of the loop of `_close`: a partial volume of zero leaves the method with None
    abbrev pub close_some : Signal → Position → (Last → Op Last) → Option Carrier → Op Last
    close_some sig p next none k = (ok none, k)
    close_some sig p next (some v) k = and_then (close_position p v (of_signal sig.reason) k) next

    -- the loop of `_close`
    unfoldable pub close_each : Signal → List Position → Last → Op Last
    unfolding close_volume
    close_each sig [] last k = (ok last, k)
    close_each sig (p ∷ ps) last k =
        close_some sig p (λ r l. close_each sig ps r l) (close_volume (t.volume_step k.world) sig p)
          k

    -- `_close`
    unfoldable pub close : Signal → Op Last
    unfolding close_each
    close sig k =
        if cfg.limit_mode then (ok none, k) else close_each sig (my_positions t cfg k.world) none k
