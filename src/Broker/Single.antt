-- ===== src/Broker/Single.antt =====
-- That a market entry with a retry policy opens at most one position, over all its retries and all
-- the volumes that it tries.
use freq_trading.Base.{
  ◌≡◌, inl, inr, refl, true, Option, none, some, List, [], ◌∷◌, sym, subst, Bool-cases,
}
use freq_trading.Num.{Float}
use freq_trading.Models.{Signal}
use freq_trading.Broker.Retcodes.{RetryPolicy}
use freq_trading.Broker.Terminal.{
  Request, Terminal, Position, Reply, ok, err, BrokerConfig, Link, OrderDone, Tick, Fault,
  my_positions, or_default,
}
use freq_trading.Broker.Send.{send, deliver}
use freq_trading.Broker.Orders.{Last, filling_of}
use freq_trading.Broker.Once.{IsTerminal, LeavesOpen, KeepsTicket, send_with_policy-LeavesOpen}
use freq_trading.Broker.Entries.{
  market_request, requote, requote_at, open_at, refresh_entry, send_entry, try_volumes, open_market,
  on_refusal, smaller_volumes, volume_ladder, side_price,
}

module _ ⦃fl : Float⦄ {W : Type 0} (t : Terminal W) (cfg : BrokerConfig) (sig : Signal) where
  open fl use {Carrier}

  requote_at-ticket :
      (req : Request) (o : Option Tick)
      → req.ticket ≡ none
      → (requote_at cfg sig req o).ticket ≡ none
  unfolding requote_at requote
  requote_at-ticket req none h = h
  requote_at-ticket req (some tick) h = h

  refresh_entry-KeepsTicket : KeepsTicket t cfg (some (refresh_entry t cfg sig))
  unfolding refresh_entry
  refresh_entry-KeepsTicket req w h = requote_at-ticket req (t.symbol_info_tick w) h

  send_entry-LeavesOpen :
      (pol : RetryPolicy) (price volume : Carrier) (k : Link W)
      → cfg.retry ≡ some pol
      → IsTerminal t cfg
      → LeavesOpen t cfg (my_positions t cfg k.world) (send_entry t cfg sig price volume k)
  unfolding send_entry send deliver market_request
  send_entry-LeavesOpen pol price volume k e h =
      let req = market_request cfg sig price volume (filling_of (t.filling_mode k.world)) in
      let again = some (refresh_entry t cfg sig) in
      subst (λ o. LeavesOpen t cfg (my_positions t cfg k.world) (deliver t cfg o again true req k))
        (sym e) (send_with_policy-LeavesOpen t cfg pol again req k h refresh_entry-KeepsTicket refl)

  on_refusal-LeavesOpen :
      (before : List Position) (next : Fault → Link W → Reply (Last t cfg) × Link W)
      (r : Reply OrderDone × Link W)
      → LeavesOpen t cfg before r
      → ((e : Fault) → LeavesOpen t cfg (my_positions t cfg r.1.world) (next e r.1))
      → LeavesOpen t cfg before (on_refusal t cfg next r)
  on_refusal-LeavesOpen before next (ok out, k) h g = h
  on_refusal-LeavesOpen before next (err e, k) h g = elim (Bool-cases (cfg.mentions_no_money e)) [
    | inl b ↦ rw b (subst (λ ps. LeavesOpen t cfg ps (next e k)) h (g e))
    | inr b ↦ rw b h
  ]

  try_volumes-LeavesOpen :
      (pol : RetryPolicy) (price volume : Carrier) (vs : List Carrier) (k : Link W)
      → cfg.retry ≡ some pol
      → IsTerminal t cfg
      → LeavesOpen t cfg (my_positions t cfg k.world) (try_volumes t cfg sig price volume vs k)
  unfolding try_volumes
  try_volumes-LeavesOpen pol price volume [] k e h =
      on_refusal-LeavesOpen (my_positions t cfg k.world) (λ f l. (err f, l))
        (send_entry t cfg sig price volume k) (send_entry-LeavesOpen pol price volume k e h)
        (λ f. refl)
  try_volumes-LeavesOpen pol price volume (v ∷ vs) k e h =
      on_refusal-LeavesOpen (my_positions t cfg k.world) (λ _ l. try_volumes t cfg sig price v vs l)
        (send_entry t cfg sig price volume k) (send_entry-LeavesOpen pol price volume k e h)
        (λ f. try_volumes-LeavesOpen pol price v vs (send_entry t cfg sig price volume k).1 e h)

  open_at-LeavesOpen :
      (pol : RetryPolicy) (o : Option Tick) (k : Link W)
      → cfg.retry ≡ some pol
      → IsTerminal t cfg
      → LeavesOpen t cfg (my_positions t cfg k.world) (open_at t cfg sig o k)
  unfolding open_at
  open_at-LeavesOpen pol none k e h = refl
  open_at-LeavesOpen pol (some tick) k e h =
      let want = or_default sig.qty cfg.default_qty in
      try_volumes-LeavesOpen pol (side_price sig.direction tick) want
        (smaller_volumes want volume_ladder) k e h

  -- With a retry policy, at a terminal where an order opens one position or none, and one only if the
  -- answer is none or one of the codes 10008, 10009, 10010, 10012 and 10031, and where nothing else
  -- opens or closes a position of the magic number while the broker pauses, a market entry opens at
  -- most one position over all its retries and all the volumes that it tries; where it raises it has
  -- opened none.
  pub open_market-LeavesOpen :
      (pol : RetryPolicy) (k : Link W)
      → cfg.retry ≡ some pol
      → IsTerminal t cfg
      → LeavesOpen t cfg (my_positions t cfg k.world) (open_market t cfg sig k)
  unfolding open_market
  open_market-LeavesOpen pol k e h = open_at-LeavesOpen pol (t.symbol_info_tick k.world) k e h
