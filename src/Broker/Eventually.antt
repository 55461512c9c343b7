-- ===== src/Broker/Eventually.antt =====
-- That a send with a retry policy outlasts the transient refusals that its budget covers.
use freq_trading.Base.{
  ℕ, zero, suc, ◌≤◌, ◌≡◌, ◌⊎◌, inl, inr, refl, true, false, Option, none, some, List, [], ◌∷◌, sym,
  subst, Bool-cases, Bool, arith,
}
use freq_trading.Num.{Float, zero_float}
use freq_trading.Broker.Retcodes.{
  RetryPolicy, PolicyAction, success, success_partial, retry_fresh_price, retry_backoff, ambiguous,
  defer_ladder, rotate_filling, abort, abort_alert, classify, delays,
}
use freq_trading.Broker.Terminal.{
  Request, SendResult, Terminal, Reply, ok, err, BrokerConfig, Link, OrderDone, post,
}
use freq_trading.Broker.Send.{
  Retry, Verdict, finish, resend, retcode_of, on_ambiguous, act, verdict, tally_post, pause,
  send_loop, send_with_policy, Refresh, back_off, resolve, follow, send_error, done_of,
}

-- the answer is a success
abbrev pub is_success : PolicyAction → Bool
is_success success = true
is_success success_partial = true
is_success _ = false

-- the answer is one that a pass retries while attempts are left
abbrev pub is_retryable : PolicyAction → Bool
is_retryable retry_fresh_price = true
is_retryable retry_backoff = true
is_retryable ambiguous = true
is_retryable _ = false

module _ ⦃fl : Float⦄ {W : Type 0} (t : Terminal W) (cfg : BrokerConfig) where
  open fl use {Carrier, lt}

  -- the terminal fills whatever request it gets, after at most so many transient refusals, with and
  -- without a pause between them
  abbrev pub FillsWithin : ℕ → W → Type 0
  FillsWithin zero w =
      (req : Request) → is_success (classify (retcode_of (t.order_send req w).0)) ≡ true
  FillsWithin (suc n) w =
      (req : Request)
      → let r = t.order_send req w in
        (is_success (classify (retcode_of r.0)) ≡ true)
        ⊎ ((is_retryable (classify (retcode_of r.0)) ≡ true)
            × FillsWithin n r.1
            × ((d : Carrier) → FillsWithin n (t.sleep d r.1)))

  abbrev pub IsOk : Reply OrderDone × Link W → Type 0
  IsOk r = (out : OrderDone) × (r.0 ≡ ok out)

  -- a verdict that does not raise
  abbrev pub GoesOn : Verdict → Type 0
  GoesOn (finish out) = (o : OrderDone) × (out ≡ ok o)
  GoesOn (resend _ _) = Unit

  back_off-GoesOn :
      (pol : RetryPolicy) (s : Retry) (ds : List Carrier) → GoesOn (back_off t cfg pol s ds)
  back_off-GoesOn pol s [] = tt
  back_off-GoesOn pol s (d ∷ ds) = tt

  resolve-GoesOn :
      (pol : RetryPolicy) (s : Retry) (o : Option OrderDone) → GoesOn (resolve t cfg pol s o)
  resolve-GoesOn pol s (some out) = (out, refl)
  resolve-GoesOn pol s none = back_off-GoesOn pol s s.delay_iter

  act-GoesOn :
      (pol : RetryPolicy) (guard : Bool) (before : List ℕ) (refresh : Refresh t cfg) (s : Retry)
      (r : SendResult) (w : W) (a : PolicyAction)
      → is_retryable a ≡ true
      → GoesOn (act t cfg pol guard before refresh s r w a)
  unfolding act on_ambiguous
  act-GoesOn pol guard before refresh s r w retry_fresh_price h = tt
  act-GoesOn pol guard before refresh s r w retry_backoff h = back_off-GoesOn pol s s.delay_iter
  act-GoesOn pol guard before refresh s r w ambiguous h = resolve-GoesOn pol s _
  act-GoesOn pol guard before refresh s r w success h = absurd (ground arith)
  act-GoesOn pol guard before refresh s r w success_partial h = absurd (ground arith)
  act-GoesOn pol guard before refresh s r w defer_ladder h = absurd (ground arith)
  act-GoesOn pol guard before refresh s r w rotate_filling h = absurd (ground arith)
  act-GoesOn pol guard before refresh s r w abort h = absurd (ground arith)
  act-GoesOn pol guard before refresh s r w abort_alert h = absurd (ground arith)

  verdict-GoesOn :
      (pol : RetryPolicy) (guard : Bool) (before : List ℕ) (refresh : Refresh t cfg) (s : Retry)
      (o : Option SendResult) (w : W)
      → is_retryable (classify (retcode_of o)) ≡ true
      → GoesOn (verdict t cfg pol guard before refresh s o w)
  unfolding verdict on_ambiguous
  verdict-GoesOn pol guard before refresh s none w h = resolve-GoesOn pol s _
  verdict-GoesOn pol guard before refresh s (some r) w h =
      act-GoesOn pol guard before refresh s r w (classify (some r.retcode)) h

  act_success :
      (pol : RetryPolicy) (guard : Bool) (before : List ℕ) (refresh : Refresh t cfg) (s : Retry)
      (r : SendResult) (w : W) (a : PolicyAction)
      → is_success a ≡ true
      → act t cfg pol guard before refresh s r w a ≡ finish (ok (done_of r))
  unfolding act
  act_success pol guard before refresh s r w success h = refl
  act_success pol guard before refresh s r w success_partial h = refl
  act_success pol guard before refresh s r w retry_fresh_price h = absurd (ground arith)
  act_success pol guard before refresh s r w retry_backoff h = absurd (ground arith)
  act_success pol guard before refresh s r w ambiguous h = absurd (ground arith)
  act_success pol guard before refresh s r w defer_ladder h = absurd (ground arith)
  act_success pol guard before refresh s r w rotate_filling h = absurd (ground arith)
  act_success pol guard before refresh s r w abort h = absurd (ground arith)
  act_success pol guard before refresh s r w abort_alert h = absurd (ground arith)

  verdict_success :
      (pol : RetryPolicy) (guard : Bool) (before : List ℕ) (refresh : Refresh t cfg) (s : Retry)
      (o : Option SendResult) (w : W)
      → is_success (classify (retcode_of o)) ≡ true
      → (r : SendResult) × (verdict t cfg pol guard before refresh s o w ≡ finish (ok (done_of r)))
  unfolding verdict classify
  verdict_success pol guard before refresh s none w h = absurd (ground arith)
  verdict_success pol guard before refresh s (some r) w h =
      (r, act_success pol guard before refresh s r w (classify (some r.retcode)) h)

  follow-IsOk :
      (k : Link W) (again : Retry → Carrier → Reply OrderDone × Link W) (v : Verdict)
      → GoesOn v
      → ((next : Retry) (delay : Carrier) → IsOk (again next delay))
      → IsOk (follow t cfg k again v)
  follow-IsOk k again (finish out) h g = h
  follow-IsOk k again (resend next delay) h g = g next delay

  follow_done :
      (k : Link W) (again : Retry → Carrier → Reply OrderDone × Link W) (v : Verdict)
      (out : OrderDone)
      → v ≡ finish (ok out)
      → IsOk (follow t cfg k again v)
  follow_done k again v out e = subst (λ v. IsOk (follow t cfg k again v)) (sym e) (out, refl)

  pause-FillsWithin :
      (n : ℕ) (delay : Carrier) (k : Link W)
      → FillsWithin n k.world
      → ((d : Carrier) → FillsWithin n (t.sleep d k.world))
      → FillsWithin n (pause t cfg delay k).world
  unfolding pause
  pause-FillsWithin n delay k h g = elim (Bool-cases (lt zero_float delay)) [
    | inl e ↦ rw e (g delay)
    | inr e ↦ rw e h
  ]

  fills_at_once :
      (n : ℕ) (w : W)
      → FillsWithin n w
      → (req : Request)
      → (is_success (classify (retcode_of (t.order_send req w).0)) ≡ true)
        ⊎ ((m : ℕ) × (n ≡ suc m)
            × (is_retryable (classify (retcode_of (t.order_send req w).0)) ≡ true)
            × FillsWithin m (t.order_send req w).1
            × ((d : Carrier) → FillsWithin m (t.sleep d (t.order_send req w).1)))
  fills_at_once zero w h req = inl (h req)
  fills_at_once (suc m) w h req = elim (h req) [
    | inl e ↦ inl e
    | inr (e, f, g) ↦ inr (m, refl, e, f, g)
  ]

  send_loop-IsOk :
      (left n : ℕ) (pol : RetryPolicy) (guard : Bool) (before : List ℕ) (refresh : Refresh t cfg)
      (s : Retry) (k : Link W)
      → n ≤ left
      → FillsWithin n k.world
      → IsOk (send_loop t cfg left pol guard before refresh s k)
  unfolding send_loop tally_post post
  send_loop-IsOk zero n pol guard before refresh s k b h =
      let r = tally_post t cfg s.request k in
      elim (fills_at_once n k.world h s.request) [
        | inl e ↦
            let (o, q) = verdict_success pol guard before refresh s r.0 r.1.world e in
            follow_done r.1 (λ _ _. (err (send_error r.0 s.request), r.1))
              (verdict t cfg pol guard before refresh s r.0 r.1.world) (done_of o) q
        | inr (m, e, _, _, _) ↦ absurd (omega arith)
      ]
  send_loop-IsOk (suc left) n pol guard before refresh s k b h =
      let r = tally_post t cfg s.request k in
      let v = verdict t cfg pol guard before refresh s r.0 r.1.world in
      elim (fills_at_once n k.world h s.request) [
        | inl e ↦
            let (o, q) = verdict_success pol guard before refresh s r.0 r.1.world e in
            follow_done r.1
              (λ next delay.
                send_loop t cfg left pol guard before refresh next (pause t cfg delay r.1))
              v (done_of o) q
        | inr (m, e, a, f, g) ↦
            follow-IsOk r.1
              (λ next delay.
                send_loop t cfg left pol guard before refresh next (pause t cfg delay r.1))
              v (verdict-GoesOn pol guard before refresh s r.0 r.1.world a)
              (λ next delay.
                send_loop-IsOk left m pol guard before refresh next (pause t cfg delay r.1)
                  (omega arith) (pause-FillsWithin m delay r.1 f g))
      ]

  -- Where the terminal fills after no more transient refusals than the policy has retries, the send
  -- returns the result of an order and does not raise.
  pub send_with_policy-IsOk :
      (pol : RetryPolicy) (refresh : Refresh t cfg) (guard : Bool) (req : Request) (n : ℕ)
      (k : Link W)
      → n ≤ pol.max_retries
      → FillsWithin n k.world
      → IsOk (send_with_policy t cfg pol refresh guard req k)
  unfolding send_with_policy delays
  send_with_policy-IsOk pol refresh guard req n k b h =
      send_loop-IsOk pol.max_retries n pol guard _ refresh _ k b h
