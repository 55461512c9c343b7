-- ===== src/Broker/Own.antt =====
-- What the managing methods send: requests that name a position or an order of the broker's own.
use freq_trading.Base.{
  ℕ, ◌≡◌, inl, inr, refl, true, false, Option, none, some, List, [], ◌∷◌, Bool-cases, Bool,
  if◌then◌else◌, ◌==◌, arith, suc, get_elem?, ◌∙◌, sym, ap,
}
use freq_trading.Num.{Float, zero_float, min}
use freq_trading.Models.{Signal}
use freq_trading.Broker.Terminal.{
  Request, Terminal, Position, Reply, ok, err, BrokerConfig, Link, Tick, my_positions,
  own_positions, or_default, Comment, of_signal, partial_2r,
}
use freq_trading.Broker.Send.{send, has_ticket, tickets}
use freq_trading.Broker.Sent.{Extends, Extends-refl, Extends-trans, Extends-map, send-Extends}
use freq_trading.Broker.Orders.{
  Op, Last, and_then, for_each, send_plain, close_at, close_position, close_found, close_ticket,
  close_some, close_each, close_volume, close, modify_found, modify_sl, sync_stop, update_stop,
  close_all, find_ticket, sltp_request, close_request, snap_volume, sl_tolerance, filling_of,
}

module _ ⦃fl : Float⦄ where
  open fl use {Carrier, lt, le, abs, sub}

  -- the request names a position of the list
  abbrev pub Names : List Position → Request → Type 0
  Names own req = (x : ℕ) × (req.ticket ≡ some x) × (has_ticket x (tickets own) ≡ true)

  -- the positions of the second list have tickets of the first
  abbrev pub AllIn : List Position → List Position → Type 0
  AllIn own [] = Unit
  AllIn own (p ∷ ps) = (has_ticket p.ticket (tickets own) ≡ true) × AllIn own ps

  AllIn-step : (q : Position) (own ps : List Position) → AllIn own ps → AllIn (q ∷ own) ps
  AllIn-step q own [] h = tt
  AllIn-step q own (p ∷ ps) (h, k) = (ground arith, AllIn-step q own ps k)

  AllIn-self : (own : List Position) → AllIn own own
  AllIn-self [] = tt
  AllIn-self (p ∷ ps) = (ground arith, AllIn-step p ps ps (AllIn-self ps))

  find_ticket-In :
      (ticket : ℕ) (own ps : List Position) (p : Position)
      → AllIn own ps
      → find_ticket ticket ps ≡ some p
      → has_ticket p.ticket (tickets own) ≡ true
  unfolding find_ticket
  find_ticket-In ticket own [] p h e = absurd (ground arith)
  find_ticket-In ticket own (q ∷ ps) p (h, k) e = elim (Bool-cases (q.ticket == ticket)) [
    | inl b ↦ ground arith
    | inr b ↦ find_ticket-In ticket own ps p k (ground arith)
  ]

  module _ {W : Type 0} (t : Terminal W) (cfg : BrokerConfig) (own : List Position) where
    -- a method that only sends requests that name one of the positions
    abbrev pub Stays : {A : Type 0} → Link W → Reply A × Link W → Type 0
    Stays k r = Extends (Names own) k.sent r.1.sent

    and_then-Stays :
        {A : Type 0} (k : Link W) (r : Reply A × Link W) (f : A → Op t cfg (Last t cfg))
        → Stays k r
        → ((o : A) (l : Link W) → Stays l (f o l))
        → Stays k (and_then t cfg r f)
    and_then-Stays k (ok a, l) f h g =
        Extends-trans (Names own) k.sent l.sent (f a l).1.sent h (g a l)
    and_then-Stays k (err e, l) f h g = h

    for_each-Stays :
        (f : Position → Last t cfg → Op t cfg (Last t cfg)) (ps : List Position) (last : Last t cfg)
        (k : Link W)
        → AllIn own ps
        → ((p : Position) (o : Last t cfg) (l : Link W)
            → has_ticket p.ticket (tickets own) ≡ true
            → Stays l (f p o l))
        → Stays k (for_each t cfg f ps last k)
    for_each-Stays f [] last k h g = Extends-refl (Names own) k.sent
    for_each-Stays f (p ∷ ps) last k (h, hs) g =
        and_then-Stays k (f p last k) (λ r l. for_each t cfg f ps r l) (g p last k h)
          (λ o l. for_each-Stays f ps o l hs g)

    send_plain-Stays :
        (req : Request) (k : Link W) → Names own req → Stays k (send_plain t cfg req k)
    unfolding send_plain
    send_plain-Stays req k h =
        and_then-Stays k (send t cfg none false req k) (λ out l. (ok (some out), l))
          (send-Extends t cfg (Names own) none false req k (λ r f q. q) (λ r w q. q) h)
          (λ o l. Extends-refl (Names own) l.sent)

    if-Stays :
        (b : Bool) (k : Link W) (x y : Reply (Last t cfg) × Link W)
        → Stays k x
        → Stays k y
        → Stays k (if b then x else y)
    if-Stays true k x y h g = h
    if-Stays false k x y h g = g

    close_at-Stays :
        (p : Position) (volume : Carrier) (reason : Comment) (o : Option Tick) (k : Link W)
        → has_ticket p.ticket (tickets own) ≡ true
        → Stays k (close_at t cfg p volume reason o k)
    unfolding close_at close_request
    close_at-Stays p volume reason none k h = Extends-refl (Names own) k.sent
    close_at-Stays p volume reason (some tick) k h =
        send_plain-Stays
          (close_request cfg (filling_of (t.filling_mode k.world)) p volume reason tick) k
          (p.ticket, refl, h)

    close_position-Stays :
        (p : Position) (volume : Carrier) (reason : Comment) (k : Link W)
        → has_ticket p.ticket (tickets own) ≡ true
        → Stays k (close_position t cfg p volume reason k)
    unfolding close_position
    close_position-Stays p volume reason k h =
        close_at-Stays p volume reason (t.symbol_info_tick k.world) k h

    sync_stop-Stays :
        (new_sl : Carrier) (p : Position) (last : Last t cfg) (k : Link W)
        → has_ticket p.ticket (tickets own) ≡ true
        → Stays k (sync_stop t cfg new_sl p last k)
    unfolding sync_stop sltp_request
    sync_stop-Stays new_sl p last k h =
        if-Stays (lt (abs (sub p.sl new_sl)) sl_tolerance) k (ok last, k)
          (send_plain t cfg (sltp_request p new_sl) k) (Extends-refl (Names own) k.sent)
          (send_plain-Stays (sltp_request p new_sl) k (p.ticket, refl, h))

    found-Stays :
        (o : Option Position) (act : Option Position → Op t cfg (Last t cfg)) (k : Link W)
        → ((p : Position) → o ≡ some p → has_ticket p.ticket (tickets own) ≡ true)
        → Stays k (act none k)
        → ((p : Position) → has_ticket p.ticket (tickets own) ≡ true → Stays k (act (some p) k))
        → Stays k (act o k)
    found-Stays none act k h g f = g
    found-Stays (some p) act k h g f = f p (h p refl)

    close_some-Stays :
        (sig : Signal) (p : Position) (next : Last t cfg → Op t cfg (Last t cfg))
        (v : Option Carrier) (k : Link W)
        → has_ticket p.ticket (tickets own) ≡ true
        → ((o : Last t cfg) (l : Link W) → Stays l (next o l))
        → Stays k (close_some t cfg sig p next v k)
    close_some-Stays sig p next none k h g = Extends-refl (Names own) k.sent
    close_some-Stays sig p next (some v) k h g =
        and_then-Stays k (close_position t cfg p v (of_signal sig.reason) k) next
          (close_position-Stays p v (of_signal sig.reason) k h) g

    close_each-Stays :
        (sig : Signal) (ps : List Position) (last : Last t cfg) (k : Link W)
        → AllIn own ps
        → Stays k (close_each t cfg sig ps last k)
    unfolding close_each
    close_each-Stays sig [] last k h = Extends-refl (Names own) k.sent
    close_each-Stays sig (p ∷ ps) last k (h, hs) =
        close_some-Stays sig p (λ r l. close_each t cfg sig ps r l)
          (close_volume (t.volume_step k.world) sig p) k h (λ o l. close_each-Stays sig ps o l hs)

    close_found-Stays :
        (volume : Carrier) (o : Option Position) (k : Link W)
        → ((p : Position) → o ≡ some p → has_ticket p.ticket (tickets own) ≡ true)
        → Stays k (close_found t cfg volume o k)
    unfolding close_found
    close_found-Stays volume o k h =
        found-Stays o (close_found t cfg volume) k h (Extends-refl (Names own) k.sent) (λ p q.
          let vol = snap_volume (t.volume_step k.world) (min volume p.volume) in
          if-Stays (le vol zero_float) k (ok none, k) (close_position t cfg p vol partial_2r k)
            (Extends-refl (Names own) k.sent) (close_position-Stays p vol partial_2r k q))

    modify_found-Stays :
        (sl : Carrier) (o : Option Position) (k : Link W)
        → ((p : Position) → o ≡ some p → has_ticket p.ticket (tickets own) ≡ true)
        → Stays k (modify_found t cfg sl o k)
    unfolding modify_found sltp_request
    modify_found-Stays sl o k h =
        found-Stays o (modify_found t cfg sl) k h (Extends-refl (Names own) k.sent) (λ p q.
          if-Stays (lt (abs (sub (or_default (some p.sl) zero_float) sl)) sl_tolerance) k
            (ok none, k) (send_plain t cfg (sltp_request p sl) k) (Extends-refl (Names own) k.sent)
            (send_plain-Stays (sltp_request p sl) k (p.ticket, refl, q)))

  -- a ticket among the own positions is the ticket of a listed position with the magic number
  own_positions-listed :
      (magic x : ℕ) (ps : List Position)
      → has_ticket x (tickets (own_positions magic ps)) ≡ true
      → (i : ℕ) × (p : Position) × (get_elem? ps i ≡ some p) × (p.magic ≡ magic) × (p.ticket ≡ x)
  unfolding own_positions
  own_positions-listed magic x [] h = absurd (ground arith)
  own_positions-listed magic x (q ∷ qs) h = elim (Bool-cases (q.magic == magic)) [
    | inl own ↦ elim (Bool-cases (q.ticket == x)) [
      | inl same ↦ (0, q, refl, ground arith, ground arith)
      | inr other ↦
          let (i, p, e, m, n) = own_positions-listed magic x qs (ground arith) in
          (suc i, p, e, m, n)
    ]
    | inr foreign ↦
        let (i, p, e, m, n) = own_positions-listed magic x qs (ground arith) in (suc i, p, e, m, n)
  ]

  module _ {W : Type 0} (t : Terminal W) (cfg : BrokerConfig) (k : Link W) where
    -- the request names a position that the terminal lists with the magic number of the broker
    abbrev pub NamesOwn : Request → Type 0
    NamesOwn req =
        (i : ℕ) × (p : Position) × (get_elem? (t.positions_get k.world) i ≡ some p)
        × (p.magic ≡ cfg.magic)
        × (req.ticket ≡ some p.ticket)

    -- the method only sends such requests
    abbrev pub OnlyOwn : Reply (Last t cfg) × Link W → Type 0
    OnlyOwn r = Extends NamesOwn k.sent r.1.sent

    Names-NamesOwn : (req : Request) → Names (my_positions t cfg k.world) req → NamesOwn req
    Names-NamesOwn req (x, e, h) =
        let (i, p, g, m, n) = own_positions-listed cfg.magic x (t.positions_get k.world) h in
        (i, p, g, m, e ∙ ap (λ y. some y) (sym n))

    Stays-OnlyOwn :
        (r : Reply (Last t cfg) × Link W) → Stays t cfg (my_positions t cfg k.world) k r → OnlyOwn r
    Stays-OnlyOwn r h = Extends-map (Names (my_positions t cfg k.world)) NamesOwn Names-NamesOwn h

    -- Every request that `update_stop`, `close_all`, `close_ticket`, `modify_sl` and an exit send,
    -- retries included, names the ticket of a position that the terminal lists, when the method is
    -- called, with the magic number of the broker.
    pub manages-OnlyOwn :
        (sl volume : Carrier) (ticket : ℕ) (reason : Comment) (sig : Signal)
        → OnlyOwn (update_stop t cfg sl k)
          × OnlyOwn (close_all t cfg reason k)
          × OnlyOwn (close_ticket t cfg ticket volume k)
          × OnlyOwn (modify_sl t cfg ticket sl k)
          × OnlyOwn (close t cfg sig k)
    unfolding update_stop close_all close_ticket modify_sl close
    manages-OnlyOwn sl volume ticket reason sig =
        let own = my_positions t cfg k.world in
        (
          Stays-OnlyOwn (update_stop t cfg sl k) (
              for_each-Stays t cfg own (sync_stop t cfg sl) own none k (AllIn-self own)
                (λ p o l q. sync_stop-Stays t cfg own sl p o l q)),
          Stays-OnlyOwn (close_all t cfg reason k) (
              for_each-Stays t cfg own (λ p _ l. close_position t cfg p p.volume reason l) own none
                k (AllIn-self own)
                (λ p o l q. close_position-Stays t cfg own p p.volume reason l q)),
          Stays-OnlyOwn (close_ticket t cfg ticket volume k) (
              close_found-Stays t cfg own volume (find_ticket ticket own) k
                (λ p e. find_ticket-In ticket own own p (AllIn-self own) e)),
          Stays-OnlyOwn (modify_sl t cfg ticket sl k) (
              modify_found-Stays t cfg own sl (find_ticket ticket own) k
                (λ p e. find_ticket-In ticket own own p (AllIn-self own) e)),
          Stays-OnlyOwn (close t cfg sig k) (
              if-Stays t cfg own cfg.limit_mode k (ok none, k) (close_each t cfg sig own none k)
                (Extends-refl (Names own) k.sent)
                (close_each-Stays t cfg own sig own none k (AllIn-self own))),
        )
