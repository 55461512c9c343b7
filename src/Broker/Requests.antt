-- ===== src/Broker/Requests.antt =====
-- The requests that a market entry sends over its retries and its smaller volumes.
use freq_trading.Base.{
  ◌≡◌, ◌⊎◌, inl, inr, refl, true, Option, none, some, List, [], ◌∷◌, ◌∙◌, ap, arith, Bool-cases,
}
use freq_trading.Num.{Float}
use freq_trading.Models.{Signal}
use freq_trading.Broker.Terminal.{
  Filling, set_filling, Request, Terminal, Reply, ok, err, BrokerConfig, Link, OrderDone, Tick,
  Fault, or_default,
}
use freq_trading.Broker.Orders.{Last, filling_of}
use freq_trading.Broker.Sent.{Extends, Extends-refl, Extends-trans, send-Extends}
use freq_trading.Broker.Entries.{
  market_request, requote, requote_at, open_at, refresh_entry, send_entry, try_volumes, open_market,
  on_refusal, smaller_volumes, volume_ladder, side_price, anchored_sl, anchored_tp,
}

module _ ⦃fl : Float⦄ where
  open fl use {Carrier, lt, eq, add, sub, abs, round_to}

  -- the request is built for the signal at the side of a tick of the terminal, at a volume that is the
  -- wanted one or a smaller one
  abbrev pub IsRequest :
      {W : Type 0} → Terminal W → BrokerConfig → Signal → Carrier → Request → Type 0
  IsRequest {W} t cfg sig want req =
      (w : W) × (tick : Tick) × (volume : Carrier) × (filling : Filling) × (t.symbol_info_tick w
        ≡ some tick)
      × (req ≡ market_request cfg sig (side_price sig.direction tick) volume filling)
      × ((volume ≡ want) ⊎ (lt volume want ≡ true))

  -- a volume below the wanted one, or the wanted one itself
  abbrev pub AllBelow : Carrier → List Carrier → Type 0
  AllBelow want [] = Unit
  AllBelow want (v ∷ vs) = (lt v want ≡ true) × AllBelow want vs

  smaller_volumes-AllBelow :
      (want : Carrier) (vs : List Carrier) → AllBelow want (smaller_volumes want vs)
  unfolding smaller_volumes
  smaller_volumes-AllBelow want [] = tt
  smaller_volumes-AllBelow want (v ∷ vs) = elim (Bool-cases (lt v want)) [
    | inl e ↦ rw e (e, smaller_volumes-AllBelow want vs)
    | inr e ↦ rw e (smaller_volumes-AllBelow want vs)
  ]

  -- A request that is quoted again at a fresh tick is the request that would have been built at that
  -- tick.
  pub requote-market_request :
      (cfg : BrokerConfig) (sig : Signal) (tick : Tick) (price volume : Carrier) (filling : Filling)
      → requote cfg sig tick (market_request cfg sig price volume filling)
        ≡ market_request cfg sig (side_price sig.direction tick) volume filling
  unfolding requote market_request anchored_sl anchored_tp
  requote-market_request cfg sig tick price volume filling = ground arith

  module _ {W : Type 0} (t : Terminal W) (cfg : BrokerConfig) (sig : Signal) where
    requote_at-IsRequest :
        (want : Carrier) (req : Request) (w : W) (o : Option Tick)
        → t.symbol_info_tick w ≡ o
        → IsRequest t cfg sig want req
        → IsRequest t cfg sig want (requote_at cfg sig req o)
    unfolding requote_at
    requote_at-IsRequest want req w none a q = q
    requote_at-IsRequest want req w (some tick) a (_, old, volume, filling, _, e, h) = (
      w,
      tick,
      volume,
      filling,
      a,
      ap (requote cfg sig tick) e
          ∙ requote-market_request cfg sig tick (side_price sig.direction old) volume filling,
      h,
    )

    send_entry-Extends :
        (want volume : Carrier) (w : W) (tick : Tick) (k : Link W)
        → t.symbol_info_tick w ≡ some tick
        → (volume ≡ want) ⊎ (lt volume want ≡ true)
        → Extends
            (IsRequest t cfg sig want)
            k.sent
            (send_entry t cfg sig (side_price sig.direction tick) volume k).1.sent
    unfolding send_entry market_request refresh_entry
    send_entry-Extends want volume w tick k a h =
        let price = side_price sig.direction tick in
        send-Extends t cfg (IsRequest t cfg sig want) (some (refresh_entry t cfg sig)) true
          (market_request cfg sig price volume (filling_of (t.filling_mode k.world))) k
          (λ req f q. (q.0, q.1, q.2, f, q.4, ap (λ r. set_filling r f) q.5, q.6))
          (λ req v q. requote_at-IsRequest want req v (t.symbol_info_tick v) refl q)
          (w, tick, volume, filling_of (t.filling_mode k.world), a, refl, h)

    on_refusal-Extends :
        (P : Request → Type 0) (next : Fault → Link W → Reply (Last t cfg) × Link W)
        (r : Reply OrderDone × Link W) (old : List Request)
        → Extends P old r.1.sent
        → ((e : Fault) → Extends P r.1.sent (next e r.1).1.sent)
        → Extends P old (on_refusal t cfg next r).1.sent
    on_refusal-Extends P next (ok out, k) old h g = h
    on_refusal-Extends P next (err e, k) old h g = elim (Bool-cases (cfg.mentions_no_money e)) [
      | inl b ↦ rw b (Extends-trans P old k.sent (next e k).1.sent h (g e))
      | inr b ↦ rw b h
    ]

    try_volumes-Extends :
        (want volume : Carrier) (vs : List Carrier) (w : W) (tick : Tick) (k : Link W)
        → t.symbol_info_tick w ≡ some tick
        → (volume ≡ want) ⊎ (lt volume want ≡ true)
        → AllBelow want vs
        → Extends
            (IsRequest t cfg sig want)
            k.sent
            (try_volumes t cfg sig (side_price sig.direction tick) volume vs k).1.sent
    unfolding try_volumes
    try_volumes-Extends want volume [] w tick k a h b =
        let price = side_price sig.direction tick in
        on_refusal-Extends (IsRequest t cfg sig want) _ (send_entry t cfg sig price volume k) k.sent
          (send_entry-Extends want volume w tick k a h)
          (λ e. Extends-refl (IsRequest t cfg sig want) _)
    try_volumes-Extends want volume (v ∷ vs) w tick k a h (c, b) =
        let price = side_price sig.direction tick in
        on_refusal-Extends (IsRequest t cfg sig want) (λ _ l. try_volumes t cfg sig price v vs l)
          (send_entry t cfg sig price volume k) k.sent (send_entry-Extends want volume w tick k a h)
          (λ e.
            try_volumes-Extends want v vs w tick (send_entry t cfg sig price volume k).1 a (inr c)
              b)

    open_at-Extends :
        (o : Option Tick) (k : Link W)
        → t.symbol_info_tick k.world ≡ o
        → Extends
            (IsRequest t cfg sig (or_default sig.qty cfg.default_qty))
            k.sent
            (open_at t cfg sig o k).1.sent
    unfolding open_at
    open_at-Extends none k a = Extends-refl _ k.sent
    open_at-Extends (some tick) k a =
        let want = or_default sig.qty cfg.default_qty in
        try_volumes-Extends want want (smaller_volumes want volume_ladder) k.world tick k a
          (inl refl) (smaller_volumes-AllBelow want volume_ladder)

    -- Every request of a market entry is built for the signal at the side of some tick.
    pub open_market-requests :
        (k : Link W)
        → Extends
            (IsRequest t cfg sig (or_default sig.qty cfg.default_qty))
            k.sent
            (open_market t cfg sig k).1.sent
    unfolding open_market
    open_market-requests k = open_at-Extends (t.symbol_info_tick k.world) k refl
