-- ===== src/Examples/Desk.antt =====
-- The broker at work on a small terminal: the first order times out and is filled all the same, and
-- every later one is refused.
use freq_trading.Base.{
  ℕ, ◌≡◌, refl, Bool, true, false, none, some, [], ◌∷◌, inl, inr, arith, if◌then◌else◌, ◌-◌, ◌==◌,
}
use freq_trading.Num.Fixed.{fixed}
use freq_trading.Models.{Signal, long, entry, breakout, range_defined, breakout_of}
use freq_trading.Broker.Retcodes.{RetryPolicy, classify, get}
use freq_trading.Broker.Terminal.{
  Request, SendResult, Position, Terminal, BrokerConfig, Link, ioc, risk_halt, own_positions,
  my_positions,
}
use freq_trading.Broker.Once.{IsTerminal, Places, LeavesOpen}
use freq_trading.Broker.Single.{open_market-LeavesOpen}
use freq_trading.Broker.Own.{OnlyOwn, manages-OnlyOwn}
use freq_trading.Broker.Orders.{update_stop, close_all, close_ticket, modify_sl, close}
use freq_trading.Broker.Attempts.{Counts, send_with_policy-Counts}
use freq_trading.Broker.Eventually.{IsOk, FillsWithin, send_with_policy-IsOk}
use freq_trading.Broker.Send.{send_with_policy, retcode_of}
use freq_trading.Broker.Entries.{open_market, market_request, connect}
use freq_trading.Broker.Access.{execute_all, connect-demo_only}
use freq_trading.Examples.Bars.{units}

abbrev filled : Position ⦃fl = fixed⦄
filled = record {
  ticket = 7;
  magic = 1;
  is_buy = true;
  volume = units 1;
  price_open = units 100;
  sl = units 98;
  tp = units 104;
}

abbrev refusal : SendResult ⦃fl = fixed⦄
refusal = record {
  retcode = 10006;
  order = 0;
  deal_id = 0;
  fill_price = units 0;
  fill_volume = units 0;
}

-- the world is whether the position is open
abbrev desk : Terminal ⦃fl = fixed⦄ Bool
desk = record {
  order_send = λ _ held. (if held then some refusal else none, true);
  positions_get = λ held. if held then filled ∷ [] else [];
  orders_get = λ _. [];
  symbol_info_tick = λ _. some (record { bid = units 100; ask = units 101; time = some 5 });
  filling_mode = λ _. some 2;
  volume_step = λ _. none;
  sleep = λ _ held. held;
}

abbrev patience : RetryPolicy ⦃fl = fixed⦄
patience = record {
  max_retries = 3;
  base_delay = fixed.lit 5 1;
  mult = units 2;
  max_delay = units 8;
}

abbrev setup : BrokerConfig ⦃fl = fixed⦄
setup = record {
  default_qty = units 1;
  magic = 1;
  deviation = 20;
  server_tp = true;
  limit_mode = false;
  addon_frac = fixed.lit 8 1;
  retry = some patience;
  mentions_no_money = λ _. false;
}

abbrev online : Link ⦃fl = fixed⦄ Bool
online = record { connected = true; retcode_counts = []; sent = []; world = false }

abbrev long_entry : Signal ⦃fl = fixed⦄
long_entry = record {
  ts = 4;
  kind = entry;
  direction = long;
  price = units 100;
  state_from = range_defined;
  state_to = breakout;
  reason = breakout_of long;
  range_high = none;
  range_low = none;
  roc = none;
  rvol = none;
  atr = none;
  stop = some (units 98);
  tp = some (units 104);
  qty = none;
  bars_held = none;
}

desk-Places :
    (req : Request ⦃fl = fixed⦄) (w : Bool)
    → let r = desk.order_send req w in
      Places ⦃fl = fixed⦄
        (my_positions ⦃fl = fixed⦄ desk setup w)
        (my_positions ⦃fl = fixed⦄ desk setup r.1)
        (retcode_of ⦃fl = fixed⦄ r.0)
unfolding classify get own_positions
desk-Places req true = inl refl
desk-Places req false = inr ((filled, refl, refl), refl)

desk-IsTerminal : IsTerminal ⦃fl = fixed⦄ desk setup
desk-IsTerminal = record {
  order_send-Places = λ req w h. desk-Places req w;
  sleep-keeps = λ d w. refl;
}

open_market-LeavesOpen_example :
    LeavesOpen ⦃fl = fixed⦄ desk setup [] (open_market ⦃fl = fixed⦄ desk setup long_entry online)
unfolding own_positions
open_market-LeavesOpen_example =
    open_market-LeavesOpen ⦃fl = fixed⦄ desk setup long_entry patience online refl desk-IsTerminal

manages-OnlyOwn_example :
    OnlyOwn ⦃fl = fixed⦄ desk setup online (update_stop ⦃fl = fixed⦄ desk setup (units 99) online)
    × OnlyOwn ⦃fl = fixed⦄ desk setup online (close_all ⦃fl = fixed⦄ desk setup risk_halt online)
    × OnlyOwn ⦃fl = fixed⦄ desk setup online
        (close_ticket ⦃fl = fixed⦄ desk setup 7 (units 1) online)
    × OnlyOwn ⦃fl = fixed⦄ desk setup online (modify_sl ⦃fl = fixed⦄ desk setup 7 (units 99) online)
    × OnlyOwn ⦃fl = fixed⦄ desk setup online (close ⦃fl = fixed⦄ desk setup long_entry online)
manages-OnlyOwn_example =
    manages-OnlyOwn ⦃fl = fixed⦄ desk setup online (units 99) (units 1) 7 risk_halt long_entry

abbrev request : Request ⦃fl = fixed⦄
request = market_request ⦃fl = fixed⦄ setup long_entry (units 101) (units 1) ioc

send_with_policy-Counts_example :
    Counts ⦃fl = fixed⦄ desk setup 4 online
      (send_with_policy ⦃fl = fixed⦄ desk setup patience none true request online).1
send_with_policy-Counts_example =
    send_with_policy-Counts ⦃fl = fixed⦄ desk setup patience none true request online

abbrev offline : Link ⦃fl = fixed⦄ Bool
offline = record { connected = false; retcode_counts = []; sent = []; world = false }

connect-demo_only_example :
    execute_all ⦃fl = fixed⦄ desk setup
      (long_entry ∷ [])
      (connect ⦃fl = fixed⦄ desk setup false
        (record { initialized = true; trade_mode = some 2; selected = true })
        offline).1
    ≡ offline
connect-demo_only_example =
    connect-demo_only ⦃fl = fixed⦄ desk setup
      (record { initialized = true; trade_mode = some 2; selected = true }) 2 (long_entry ∷ [])
      offline refl refl refl

abbrev done : SendResult ⦃fl = fixed⦄
done = record {
  retcode = 10009;
  order = 3;
  deal_id = 4;
  fill_price = units 101;
  fill_volume = units 1;
}

-- a terminal that is busy for so many requests more
abbrev busy : Terminal ⦃fl = fixed⦄ ℕ
busy = record {
  order_send = λ _ n. (if n == 0 then some done else some refusal, n - 1);
  positions_get = λ _. [];
  orders_get = λ _. [];
  symbol_info_tick = λ _. some (record { bid = units 100; ask = units 101; time = some 5 });
  filling_mode = λ _. some 2;
  volume_step = λ _. none;
  sleep = λ _ n. n;
}

abbrev waiting : Link ⦃fl = fixed⦄ ℕ
waiting = record { connected = true; retcode_counts = []; sent = []; world = 2 }

busy-FillsWithin : FillsWithin ⦃fl = fixed⦄ busy setup 2 2
unfolding classify get
busy-FillsWithin = λ req. inr (
  refl,
  λ req. inr (refl, λ req. refl, λ d req. refl),
  λ d req. inr (refl, λ req. refl, λ d req. refl),
)

send_with_policy-IsOk_example :
    IsOk ⦃fl = fixed⦄ busy setup
      (send_with_policy ⦃fl = fixed⦄ busy setup patience none true request waiting)
send_with_policy-IsOk_example =
    send_with_policy-IsOk ⦃fl = fixed⦄ busy setup patience none true request 2 waiting (omega arith)
      busy-FillsWithin
