-- ===== src/Broker/Attempts.antt =====
-- How often a send with a retry policy tries.
use freq_trading.Base.{ℕ, zero, suc, ◌+◌, ◌≤◌, ◌≡◌, List, [], ◌∷◌, Bool, length, arith}
use freq_trading.Num.{Float}
use freq_trading.Num.Fixed.{ℤ}
use freq_trading.Broker.Retcodes.{RetryPolicy, delays}
use freq_trading.Broker.Terminal.{
  Request, Terminal, Reply, err, BrokerConfig, Link, OrderDone, count_code, post,
}
use freq_trading.Broker.Send.{
  Retry, Verdict, finish, resend, tally_key, verdict, tally_post, pause, send_loop,
  send_with_policy, Refresh, follow, send_error,
}

module _ ⦃fl : Float⦄ where
  open fl use {Carrier}

  -- the sum of the tally
  abbrev pub total : List (ℤ × ℕ) → ℕ
  total [] = 0
  total ((_, n) ∷ rest) = n + total rest

  total-count_code : (c : ℤ) (xs : List (ℤ × ℕ)) → total (count_code c xs) ≡ suc (total xs)
  unfolding count_code
  total-count_code c [] = omega arith
  total-count_code c ((k, n) ∷ rest) = ground (arith, total-count_code c rest)

  module _ {W : Type 0} (t : Terminal W) (cfg : BrokerConfig) where
    -- between one request and `n`, each of them counted by its code
    abbrev pub Counts : ℕ → Link W → Link W → Type 0
    Counts n k l =
        (suc (length k.sent) ≤ length l.sent)
        × (length l.sent ≤ n + length k.sent)
        × (total l.retcode_counts + length k.sent ≡ total k.retcode_counts + length l.sent)

    pause-Counts :
        (delay : Carrier) (n : ℕ) (k l m : Link W)
        → Counts 1 k l
        → Counts n (pause t cfg delay l) m
        → Counts (suc n) k m
    unfolding pause
    pause-Counts delay n k l m h g = ground arith

    follow-Counts :
        (n : ℕ) (k l : Link W) (again : Retry → Carrier → Reply OrderDone × Link W) (v : Verdict)
        → Counts 1 k l
        → ((next : Retry) (delay : Carrier) → Counts (suc n) k (again next delay).1)
        → Counts (suc n) k (follow t cfg l again v).1
    follow-Counts n k l again (finish out) h g = ground arith
    follow-Counts n k l again (resend next delay) h g = g next delay

    tally_post-Counts : (req : Request) (k : Link W) → Counts 1 k (tally_post t cfg req k).1
    unfolding tally_post post
    tally_post-Counts req k =
        let r = t.order_send req k.world in
        let e = total-count_code (tally_key r.0) k.retcode_counts in
        (omega arith, omega arith, omega arith)

    send_loop-Counts :
        (left : ℕ) (pol : RetryPolicy) (guard : Bool) (before : List ℕ) (refresh : Refresh t cfg)
        (s : Retry) (k : Link W)
        → Counts (suc left) k (send_loop t cfg left pol guard before refresh s k).1
    unfolding send_loop
    send_loop-Counts zero pol guard before refresh s k =
        let r = tally_post t cfg s.request k in
        follow-Counts 0 k r.1 (λ _ _. (err (send_error r.0 s.request), r.1))
          (verdict t cfg pol guard before refresh s r.0 r.1.world) (tally_post-Counts s.request k)
          (λ next delay. tally_post-Counts s.request k)
    send_loop-Counts (suc left) pol guard before refresh s k =
        let r = tally_post t cfg s.request k in
        follow-Counts (suc left) k r.1
          (λ next delay. send_loop t cfg left pol guard before refresh next (pause t cfg delay r.1))
          (verdict t cfg pol guard before refresh s r.0 r.1.world) (tally_post-Counts s.request k)
          (λ next delay.
            let l = pause t cfg delay r.1 in
            pause-Counts delay (suc left) k r.1
              (send_loop t cfg left pol guard before refresh next l).1
              (tally_post-Counts s.request k)
              (send_loop-Counts left pol guard before refresh next l))

    -- A send with a retry policy reaches the terminal at least once and at most once more than the
    -- retries that the policy allows, and the tally of the codes grows by the number of its sends.
    pub send_with_policy-Counts :
        (pol : RetryPolicy) (refresh : Refresh t cfg) (guard : Bool) (req : Request) (k : Link W)
        → Counts (suc pol.max_retries) k (send_with_policy t cfg pol refresh guard req k).1
    unfolding send_with_policy delays
    send_with_policy-Counts pol refresh guard req k =
        send_loop-Counts pol.max_retries pol guard _ refresh _ k
