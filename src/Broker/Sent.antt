-- ===== src/Broker/Sent.antt =====
-- What a send adds to the requests that the terminal has received.
use freq_trading.Base.{
  ℕ, zero, suc, ◌≡◌, inl, inr, refl, Bool, true, false, Option, none, some, List, [], ◌∷◌, ◌++◌,
  ◌∙◌, sym, subst, ap, Bool-cases, if◌then◌else◌,
}
use freq_trading.Num.{Float, zero_float}
use freq_trading.Broker.Retcodes.{
  RetryPolicy, PolicyAction, success, success_partial, retry_fresh_price, retry_backoff, ambiguous,
  defer_ladder, rotate_filling, abort, abort_alert,
}
use freq_trading.Broker.Terminal.{
  Filling, set_filling, Request, SendResult, Terminal, Reply, err, BrokerConfig, Link, post,
  OrderDone,
}
use freq_trading.Broker.Send.{
  Retry, Verdict, finish, resend, on_ambiguous, act, verdict, tally_post, pause, follow, resolve,
  back_off, send_loop, send_with_policy, deliver, send, refreshed, Refresh, send_error,
}

module _ ⦃fl : Float⦄ where
  open fl use {Carrier}

  abbrev pub All : (Request → Type 0) → List Request → Type 0
  All P [] = Unit
  All P (r ∷ rs) = P r × All P rs

  -- new requests on top of the old ones, each of them with the property
  abbrev pub Extends : (Request → Type 0) → List Request → List Request → Type 0
  Extends P old new = (added : List Request) × (new ≡ added ++ old) × All P added

  module _ (P : Request → Type 0) where
    All-append : (xs ys : List Request) → All P xs → All P ys → All P (xs ++ ys)
    All-append [] ys h k = k
    All-append (x ∷ xs) ys (p, h) k = (p, All-append xs ys h k)

    append_assoc : (xs ys zs : List Request) → (xs ++ ys) ++ zs ≡ xs ++ (ys ++ zs)
    append_assoc [] ys zs = refl
    append_assoc (x ∷ xs) ys zs = ap (λ l. x ∷ l) (append_assoc xs ys zs)

    pub Extends-refl : (old : List Request) → Extends P old old
    Extends-refl old = ([], refl, tt)

    pub Extends-one : (r : Request) (old : List Request) → P r → Extends P old (r ∷ old)
    Extends-one r old h = (r ∷ [], refl, (h, tt))

    pub Extends-trans : (a b c : List Request) → Extends P a b → Extends P b c → Extends P a c
    Extends-trans a b c (xs, e, h) (ys, f, k) =
        (ys ++ xs, f ∙ (ap (λ l. ys ++ l) e ∙ sym (append_assoc ys xs a)), All-append ys xs k h)

  All-map :
      (P Q : Request → Type 0)
      → ((r : Request) → P r → Q r)
      → (xs : List Request) → All P xs
      → All Q xs
  All-map P Q f [] h = tt
  All-map P Q f (x ∷ xs) (h, hs) = (f x h, All-map P Q f xs hs)

  pub Extends-map :
      (P Q : Request → Type 0)
      → ((r : Request) → P r → Q r)
      → {old new : List Request} → Extends P old new
      → Extends Q old new
  Extends-map P Q f (xs, e, h) = (xs, e, All-map P Q f xs h)

  module _ {W : Type 0} (t : Terminal W) (cfg : BrokerConfig) where
    -- a retry decided by a pass sends a request with the property
    abbrev pub ResendsWith : (Request → Type 0) → Verdict → Type 0
    ResendsWith P (finish _) = Unit
    ResendsWith P (resend next _) = P next.request

    -- the property survives a change of the filling mode
    abbrev pub KeptByFilling : (Request → Type 0) → Type 0
    KeptByFilling P = (req : Request) (f : Filling) → P req → P (set_filling req f)

    -- and a refresh of the price
    abbrev pub KeptByRefresh : (Request → Type 0) → Refresh t cfg → Type 0
    KeptByRefresh P refresh = (req : Request) (w : W) → P req → P (refreshed t cfg refresh req w)

    module _ (P : Request → Type 0) where
      if-ResendsWith :
          (b : Bool) (x y : Verdict)
          → ResendsWith P x
          → ResendsWith P y
          → ResendsWith P (if b then x else y)
      if-ResendsWith true x y h k = h
      if-ResendsWith false x y h k = k

      back_off-ResendsWith :
          (pol : RetryPolicy) (s : Retry) (ds : List Carrier)
          → P s.request
          → ResendsWith P (back_off t cfg pol s ds)
      back_off-ResendsWith pol s [] h = h
      back_off-ResendsWith pol s (d ∷ ds) h = h

      resolve-ResendsWith :
          (pol : RetryPolicy) (s : Retry) (o : Option OrderDone)
          → P s.request
          → ResendsWith P (resolve t cfg pol s o)
      resolve-ResendsWith pol s (some out) h = tt
      resolve-ResendsWith pol s none h = back_off-ResendsWith pol s s.delay_iter h

      act-ResendsWith :
          (pol : RetryPolicy) (guard : Bool) (before : List ℕ) (refresh : Refresh t cfg) (s : Retry)
          (r : SendResult) (w : W) (a : PolicyAction)
          → KeptByFilling P
          → KeptByRefresh P refresh
          → P s.request
          → ResendsWith P (act t cfg pol guard before refresh s r w a)
      unfolding act on_ambiguous
      act-ResendsWith pol guard before refresh s r w success f g h = tt
      act-ResendsWith pol guard before refresh s r w success_partial f g h = tt
      act-ResendsWith pol guard before refresh s r w ambiguous f g h = resolve-ResendsWith pol s _ h
      act-ResendsWith pol guard before refresh s r w defer_ladder f g h = tt
      act-ResendsWith pol guard before refresh s r w abort_alert f g h = tt
      act-ResendsWith pol guard before refresh s r w abort f g h = tt
      act-ResendsWith pol guard before refresh s r w rotate_filling f g h =
          if-ResendsWith s.rotated _ _ tt (f s.request _ h)
      act-ResendsWith pol guard before refresh s r w retry_fresh_price f g h = g s.request w h
      act-ResendsWith pol guard before refresh s r w retry_backoff f g h =
          back_off-ResendsWith pol s s.delay_iter h

      verdict-ResendsWith :
          (pol : RetryPolicy) (guard : Bool) (before : List ℕ) (refresh : Refresh t cfg) (s : Retry)
          (o : Option SendResult) (w : W)
          → KeptByFilling P
          → KeptByRefresh P refresh
          → P s.request
          → ResendsWith P (verdict t cfg pol guard before refresh s o w)
      unfolding verdict on_ambiguous
      verdict-ResendsWith pol guard before refresh s none w f g h = resolve-ResendsWith pol s _ h
      verdict-ResendsWith pol guard before refresh s (some r) w f g h =
          act-ResendsWith pol guard before refresh s r w _ f g h

      follow-Extends :
          (k : Link W) (again : Retry → Carrier → Reply OrderDone × Link W) (v : Verdict)
          (old : List Request)
          → ResendsWith P v
          → Extends P old k.sent
          → ((next : Retry) (delay : Carrier)
              → P next.request
              → Extends P k.sent (again next delay).1.sent)
          → Extends P old (follow t cfg k again v).1.sent
      follow-Extends k again (finish out) old h b g = b
      follow-Extends k again (resend next delay) old h b g =
          Extends-trans P old k.sent _ b (g next delay h)

      pause-Extends : (delay : Carrier) (k : Link W) → (pause t cfg delay k).sent ≡ k.sent
      unfolding pause
      pause-Extends delay k = elim (Bool-cases (fl.lt zero_float delay)) [
        | inl e ↦ rw e refl
        | inr e ↦ rw e refl
      ]

      send_loop-Extends :
          (left : ℕ) (pol : RetryPolicy) (guard : Bool) (before : List ℕ) (refresh : Refresh t cfg)
          (s : Retry) (k : Link W)
          → KeptByFilling P
          → KeptByRefresh P refresh
          → P s.request
          → Extends P k.sent (send_loop t cfg left pol guard before refresh s k).1.sent
      unfolding send_loop tally_post post
      send_loop-Extends zero pol guard before refresh s k f g h =
          let r = tally_post t cfg s.request k in
          follow-Extends r.1 (λ _ _. (err (send_error r.0 s.request), r.1))
            (verdict t cfg pol guard before refresh s r.0 r.1.world) k.sent
            (verdict-ResendsWith pol guard before refresh s r.0 r.1.world f g h)
            (Extends-one P s.request k.sent h) (λ next delay q. Extends-refl P r.1.sent)
      send_loop-Extends (suc left) pol guard before refresh s k f g h =
          let r = tally_post t cfg s.request k in
          follow-Extends r.1
            (λ next delay.
              send_loop t cfg left pol guard before refresh next (pause t cfg delay r.1))
            (verdict t cfg pol guard before refresh s r.0 r.1.world) k.sent
            (verdict-ResendsWith pol guard before refresh s r.0 r.1.world f g h)
            (Extends-one P s.request k.sent h)
            (λ next delay q.
              let l = pause t cfg delay r.1 in
              subst
                (λ old. Extends P old (send_loop t cfg left pol guard before refresh next l).1.sent)
                (pause-Extends delay r.1)
                (send_loop-Extends left pol guard before refresh next l f g q))

      deliver-Extends :
          (retry : Option RetryPolicy) (refresh : Refresh t cfg) (guard : Bool) (req : Request)
          (k : Link W)
          → KeptByFilling P
          → KeptByRefresh P refresh
          → P req
          → Extends P k.sent (deliver t cfg retry refresh guard req k).1.sent
      unfolding deliver send_with_policy post
      deliver-Extends none refresh guard req k f g h = Extends-one P req k.sent h
      deliver-Extends (some pol) refresh guard req k f g h =
          send_loop-Extends pol.max_retries pol guard _ refresh _ k f g h

      pub send-Extends :
          (refresh : Refresh t cfg) (guard : Bool) (req : Request) (k : Link W)
          → KeptByFilling P
          → KeptByRefresh P refresh
          → P req
          → Extends P k.sent (send t cfg refresh guard req k).1.sent
      unfolding send
      send-Extends refresh guard req k f g h = deliver-Extends cfg.retry refresh guard req k f g h
