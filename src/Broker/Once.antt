-- ===== src/Broker/Once.antt =====
-- That a guarded send opens at most one position, however often it is retried.
use freq_trading.Base.{
  ℕ, zero, suc, ◌≡◌, ◌⊎◌, inl, inr, refl, Bool, true, false, Option, none, some, List, [], ◌∷◌,
  ◌++◌, ◌∙◌, subst, sym, ◌||◌, ◌==◌, arith, is_some, Bool-cases, if◌then◌else◌,
}
use freq_trading.Num.{Float, zero_float}
use freq_trading.Broker.Retcodes.{
  RetryPolicy, PolicyAction, success, success_partial, retry_fresh_price, retry_backoff, ambiguous,
  defer_ladder, rotate_filling, abort, abort_alert, classify, delays, get,
}
use freq_trading.Broker.Terminal.{
  Request, SendResult, Position, Terminal, Reply, ok, err, BrokerConfig, Link, my_positions, post,
  OrderDone,
}
use freq_trading.Broker.Send.{
  Retry, Verdict, finish, resend, has_ticket, tickets, retcode_of, first_new, recovered,
  on_ambiguous, act, verdict, tally_post, pause, send_loop, send_with_policy, refreshed, Refresh,
  back_off, follow, resolve, send_error,
}

-- The answers of the trade server after which an order may have been placed: none at all, 10008
-- placed, 10009 done, 10010 done in part, 10012 timed out, 10031 no connection.
abbrev pub may_be_placed : Option ℕ → Bool
may_be_placed none = true
may_be_placed (some code) =
    (code == 10008)
    || ((code == 10009) || ((code == 10010) || ((code == 10012) || (code == 10031))))

-- an action that is taken where the order may have been filled
abbrev pub may_fill : PolicyAction → Bool
may_fill success = true
may_fill success_partial = true
may_fill ambiguous = true
may_fill _ = false

module _ ⦃fl : Float⦄ where
  open fl use {Carrier}

  -- one position more, with a new ticket
  abbrev pub OneMore : List Position → List Position → Type 0
  OneMore before after =
      (p : Position) × (after ≡ before ++ (p ∷ [])) × (has_ticket p.ticket (tickets before) ≡ false)

  -- the positions after an order of an entry that was answered with the action
  abbrev pub Landed : List Position → List Position → PolicyAction → Type 0
  Landed before after a = (after ≡ before) ⊎ (OneMore before after × (may_fill a ≡ true))

  -- the positions after an order of an entry that was answered with the code
  abbrev pub Places : List Position → List Position → Option ℕ → Type 0
  Places before after code = (after ≡ before) ⊎ (OneMore before after × (may_be_placed code ≡ true))

  at_code :
      (n code : ℕ)
      → may_fill (classify (some n)) ≡ true
      → (code == n) ≡ true
      → may_fill (classify (some code)) ≡ true
  at_code n code h e =
      let q : code ≡ n = ground arith in subst (λ c. may_fill (classify (some c)) ≡ true) (sym q) h

  may_be_placed-may_fill :
      (code : Option ℕ) → may_be_placed code ≡ true → may_fill (classify code) ≡ true
  unfolding classify get
  may_be_placed-may_fill none h = refl
  may_be_placed-may_fill (some code) h = elim (Bool-cases (code == 10008)) [
    | inl e ↦ at_code 10008 code refl e
    | inr a ↦ elim (Bool-cases (code == 10009)) [
      | inl e ↦ at_code 10009 code refl e
      | inr b ↦ elim (Bool-cases (code == 10010)) [
        | inl e ↦ at_code 10010 code refl e
        | inr c ↦ elim (Bool-cases (code == 10012)) [
          | inl e ↦ at_code 10012 code refl e
          | inr d ↦ (let e : (code == 10031) ≡ true = ground arith in at_code 10031 code refl e)
        ]
      ]
    ]
  ]

  Places-Landed :
      (before after : List Position) (code : Option ℕ)
      → Places before after code
      → Landed before after (classify code)
  Places-Landed before after code (inl e) = inl e
  Places-Landed before after code (inr (m, h)) = inr (m, may_be_placed-may_fill code h)

  module _ {W : Type 0} (t : Terminal W) (cfg : BrokerConfig) where
    -- What a guarded send relies on, of the positions of the magic number: an order that names no
    -- position opens one position or none, and one only if its code says or leaves open that it was
    -- placed; and nothing else opens or closes one while the broker pauses.
    pub record IsTerminal : Type 0 where
      pub order_send-Places :
          (req : Request) (w : W)
          → req.ticket ≡ none
          → let r = t.order_send req w in
            Places (my_positions t cfg w) (my_positions t cfg r.1) (retcode_of r.0)
      pub sleep-keeps :
          (d : Carrier) (w : W) → my_positions t cfg (t.sleep d w) ≡ my_positions t cfg w

  -- the positions after a reply: at most one more, and none more after an exception
  module _ {A : Type 0} where
    abbrev pub Opens : List Position → List Position → Reply A → Type 0
    Opens before after (ok _) = (after ≡ before) ⊎ OneMore before after
    Opens before after (err _) = after ≡ before

  abbrev pub Settles : List Position → List Position → Verdict → Type 0
  Settles before after (finish out) = Opens before after out
  Settles before after (resend next _) = (after ≡ before) × (next.request.ticket ≡ none)

  first_new-is_some :
      (before : List ℕ) (qs : List Position) (p : Position)
      → has_ticket p.ticket before ≡ false
      → is_some (first_new before (qs ++ (p ∷ []))) ≡ true
  unfolding first_new
  first_new-is_some before [] p h = ground arith
  first_new-is_some before (q ∷ qs) p h = ground (arith, first_new-is_some before qs p)

  unmoved :
      (a : PolicyAction) {before after : List Position}
      → Landed before after a
      → may_fill a ≡ false
      → after ≡ before
  unmoved a (inl g) h = g
  unmoved a (inr (_, k)) h = absurd (ground arith)

  module _ {W : Type 0} (t : Terminal W) (cfg : BrokerConfig) where
    back_off-Settles :
        (pol : RetryPolicy) (s : Retry) (ds : List Carrier) (before after : List Position)
        → s.request.ticket ≡ none
        → after ≡ before
        → Settles before after (back_off t cfg pol s ds)
    back_off-Settles pol s [] before after q h = (h, q)
    back_off-Settles pol s (d ∷ ds) before after q h = (h, q)

    if-Settles :
        (b : Bool) (x y : Verdict) (before after : List Position)
        → Settles before after x
        → Settles before after y
        → Settles before after (if b then x else y)
    if-Settles true x y before after h k = h
    if-Settles false x y before after h k = k

    resolve-Settles :
        (pol : RetryPolicy) (s : Retry) (o : Option OrderDone) (before after : List Position)
        → s.request.ticket ≡ none
        → first_new (tickets before) after ≡ o
        → Landed before after ambiguous
        → Settles before after (resolve t cfg pol s o)
    resolve-Settles pol s (some out) before after q e (inl g) = inl g
    resolve-Settles pol s (some out) before after q e (inr (m, _)) = inr m
    resolve-Settles pol s none before after q e (inl g) =
        back_off-Settles pol s s.delay_iter before after q g
    resolve-Settles pol s none before after q e (inr (m, _)) =
        let k = first_new-is_some (tickets before) before m.0 m.2 in absurd (ground arith)

    act-Settles :
        (pol : RetryPolicy) (refresh : Refresh t cfg) (s : Retry) (r : SendResult) (w : W)
        (a : PolicyAction) (before : List Position)
        → s.request.ticket ≡ none
        → (refreshed t cfg refresh s.request w).ticket ≡ none
        → Landed before (my_positions t cfg w) a
        → Settles before
            (my_positions t cfg w)
            (act t cfg pol true (tickets before) refresh s r w a)
    unfolding act on_ambiguous recovered
    act-Settles pol refresh s r w success before q k (inl g) = inl g
    act-Settles pol refresh s r w success before q k (inr (m, _)) = inr m
    act-Settles pol refresh s r w success_partial before q k (inl g) = inl g
    act-Settles pol refresh s r w success_partial before q k (inr (m, _)) = inr m
    act-Settles pol refresh s r w ambiguous before q k h =
        resolve-Settles pol s (first_new (tickets before) (my_positions t cfg w)) before
          (my_positions t cfg w) q refl h
    act-Settles pol refresh s r w defer_ladder before q k h = unmoved defer_ladder h refl
    act-Settles pol refresh s r w abort_alert before q k h = unmoved abort_alert h refl
    act-Settles pol refresh s r w abort before q k h = unmoved abort h refl
    act-Settles pol refresh s r w rotate_filling before q k h =
        if-Settles s.rotated _ _ _ _ (unmoved rotate_filling h refl)
          (unmoved rotate_filling h refl, q)
    act-Settles pol refresh s r w retry_fresh_price before q k h =
        (unmoved retry_fresh_price h refl, k)
    act-Settles pol refresh s r w retry_backoff before q k h =
        back_off-Settles pol s s.delay_iter before (my_positions t cfg w) q
          (unmoved retry_backoff h refl)

    verdict-Settles :
        (pol : RetryPolicy) (refresh : Refresh t cfg) (s : Retry) (o : Option SendResult) (w : W)
        (before : List Position)
        → s.request.ticket ≡ none
        → (refreshed t cfg refresh s.request w).ticket ≡ none
        → Landed before (my_positions t cfg w) (classify (retcode_of o))
        → Settles before
            (my_positions t cfg w)
            (verdict t cfg pol true (tickets before) refresh s o w)
    unfolding verdict classify on_ambiguous recovered
    verdict-Settles pol refresh s none w before q k h =
        resolve-Settles pol s (first_new (tickets before) (my_positions t cfg w)) before
          (my_positions t cfg w) q refl h
    verdict-Settles pol refresh s (some r) w before q k h =
        act-Settles pol refresh s r w (classify (some r.retcode)) before q k h

    -- the reply and the positions behind it
    module _ {A : Type 0} where
      abbrev pub LeavesOpen : List Position → Reply A × Link W → Type 0
      LeavesOpen before (out, k) = Opens before (my_positions t cfg k.world) out

    -- a refresh keeps a request that names no position
    abbrev pub KeepsTicket : Refresh t cfg → Type 0
    KeepsTicket refresh =
        (req : Request) (w : W) → req.ticket ≡ none → (refreshed t cfg refresh req w).ticket ≡ none

    pause-keeps :
        (delay : Carrier) (k : Link W)
        → IsTerminal t cfg
        → my_positions t cfg (pause t cfg delay k).world ≡ my_positions t cfg k.world
    unfolding pause
    pause-keeps delay k h = elim (Bool-cases (fl.lt zero_float delay)) [
      | inl e ↦ rw e (h.sleep-keeps delay k.world)
      | inr e ↦ rw e refl
    ]

    post-Settles :
        (pol : RetryPolicy) (refresh : Refresh t cfg) (s : Retry) (k : Link W)
        → IsTerminal t cfg
        → KeepsTicket refresh
        → s.request.ticket ≡ none
        → let before = my_positions t cfg k.world in
          let r = tally_post t cfg s.request k in
          Settles before
            (my_positions t cfg r.1.world)
            (verdict t cfg pol true (tickets before) refresh s r.0 r.1.world)
    unfolding tally_post post
    post-Settles pol refresh s k h g q =
        let r = t.order_send s.request k.world in
        verdict-Settles pol refresh s r.0 r.1 (my_positions t cfg k.world) q (g s.request r.1 q)
          (Places-Landed _ _ _ (h.order_send-Places s.request k.world q))

    follow-LeavesOpen :
        (k : Link W) (again : Retry → Carrier → Reply OrderDone × Link W) (v : Verdict)
        (before : List Position)
        → Settles before (my_positions t cfg k.world) v
        → ((next : Retry) (delay : Carrier)
            → my_positions t cfg k.world ≡ before
            → next.request.ticket ≡ none
            → LeavesOpen before (again next delay))
        → LeavesOpen before (follow t cfg k again v)
    follow-LeavesOpen k again (finish out) before h g = h
    follow-LeavesOpen k again (resend next delay) before (b, q) g = g next delay b q

    send_loop-LeavesOpen :
        (left : ℕ) (pol : RetryPolicy) (refresh : Refresh t cfg) (s : Retry) (k : Link W)
        (before : List Position)
        → IsTerminal t cfg
        → KeepsTicket refresh
        → s.request.ticket ≡ none
        → my_positions t cfg k.world ≡ before
        → LeavesOpen before (send_loop t cfg left pol true (tickets before) refresh s k)
    unfolding send_loop send_error
    send_loop-LeavesOpen zero pol refresh s k before h g q b =
        subst (λ b. LeavesOpen b (send_loop t cfg 0 pol true (tickets b) refresh s k)) b
          (follow-LeavesOpen _ _ _ _ (post-Settles pol refresh s k h g q) (λ next delay c d. c))
    send_loop-LeavesOpen (suc left) pol refresh s k before h g q b =
        subst (λ b. LeavesOpen b (send_loop t cfg (suc left) pol true (tickets b) refresh s k)) b
          (follow-LeavesOpen _ _ _ _ (post-Settles pol refresh s k h g q) (λ next delay c d.
            send_loop-LeavesOpen left pol refresh next
              (pause t cfg delay (tally_post t cfg s.request k).1) (my_positions t cfg k.world) h g
              d (pause-keeps delay (tally_post t cfg s.request k).1 h ∙ c)))

    pub send_with_policy-LeavesOpen :
        (pol : RetryPolicy) (refresh : Refresh t cfg) (req : Request) (k : Link W)
        → IsTerminal t cfg
        → KeepsTicket refresh
        → req.ticket ≡ none
        → LeavesOpen (my_positions t cfg k.world) (send_with_policy t cfg pol refresh true req k)
    unfolding send_with_policy delays
    send_with_policy-LeavesOpen pol refresh req k h g q =
        send_loop-LeavesOpen pol.max_retries pol refresh _ k _ h g q refl
