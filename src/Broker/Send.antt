-- ===== src/Broker/Send.antt =====
-- `_send` and `_send_with_policy` of orb/broker/mt5.py.
use freq_trading.Base.{
  ℕ, zero, suc, Bool, true, false, if◌then◌else◌, Option, none, some, List, [], ◌∷◌, ◌||◌, ◌==◌,
}
use freq_trading.Num.{Float, zero_float}
use freq_trading.Num.Fixed.{ℤ, pos, negsuc}
use freq_trading.Broker.Retcodes.{
  RetryPolicy, PolicyAction, success, success_partial, retry_fresh_price, retry_backoff, ambiguous,
  defer_ladder, rotate_filling, abort, abort_alert, classify, delays,
}
use freq_trading.Broker.Terminal.{
  Filling, ioc, fok, return, Request, SendResult, OrderDone, Position, Terminal, Fault, none_result,
  rejected, Reply, ok, err, BrokerConfig, Link, count_code, set_filling, my_positions, post,
}

module _ ⦃fl : Float⦄ where
  open fl use {Carrier, lt}

  -- `x in tickets`
  abbrev pub has_ticket : ℕ → List ℕ → Bool
  has_ticket x [] = false
  has_ticket x (y ∷ ys) = (y == x) || has_ticket x ys

  abbrev pub tickets : List Position → List ℕ
  tickets [] = []
  tickets (p ∷ ps) = p.ticket ∷ tickets ps

  abbrev pub done_of : SendResult → OrderDone
  done_of r = record {
    code = pos r.retcode;
    order = r.order;
    deal_id = r.deal_id;
    fill_price = r.fill_price;
    fill_volume = r.fill_volume;
  }

  -- `_raise_send_error`
  unfoldable pub send_error : Option SendResult → Request → Fault
  send_error none req = none_result
  send_error (some r) req = rejected r.retcode req

  -- `res.retcode`, none where `order_send` returned None
  abbrev pub retcode_of : Option SendResult → Option ℕ
  retcode_of none = none
  retcode_of (some r) = some r.retcode

  -- the key of the tally, -1 for None
  abbrev pub tally_key : Option SendResult → ℤ
  tally_key none = negsuc 0
  tally_key (some r) = pos r.retcode

  -- the loop of `_recovered_entry` over the positions
  unfoldable pub first_new : List ℕ → List Position → Option OrderDone
  first_new before [] = none
  first_new before (p ∷ ps) =
      let later = first_new before ps in
      if has_ticket p.ticket before
      then later
      else some (record {
        code = negsuc 0;
        order = p.ticket;
        deal_id = 0;
        fill_price = p.price_open;
        fill_volume = p.volume;
      })

  -- the table `swap` with its default
  unfoldable pub swap_filling : Option Filling → Filling
  swap_filling (some ioc) = fok
  swap_filling (some fok) = ioc
  swap_filling (some return) = return
  swap_filling none = return

  -- the variables of the loop that change; what is left of the delays
  pub record Retry : Type 0 where
    pub request : Request
    pub rotated : Bool
    pub delay_iter : List Carrier

  -- what one pass decides
  pub data Verdict : Type 0 where
    finish : Reply OrderDone → Verdict
    resend : Retry → Carrier → Verdict

  module _ {W : Type 0} (t : Terminal W) (cfg : BrokerConfig) where
    -- `refresh_price`, where it is given
    abbrev pub Refresh : Type 0
    Refresh = Option (Request → W → Request)

    -- `request = refresh_price() or request`
    abbrev pub refreshed : Refresh → Request → W → Request
    refreshed none req w = req
    refreshed (some f) req w = f req w

    -- `next(delay_iter, pol.max_delay)` and the retry after it
    abbrev pub back_off : RetryPolicy → Retry → List Carrier → Verdict
    back_off pol s [] = resend s pol.max_delay
    back_off pol s (d ∷ ds) = resend (record s { delay_iter = ds }) d

    -- `_recovered_entry` where the guard is armed
    unfoldable pub recovered : Bool → List ℕ → W → Option OrderDone
    recovered guard before w = if guard then first_new before (my_positions t cfg w) else none

    -- a recovered entry ends the loop; without one the outcome counts as a failure
    abbrev pub resolve : RetryPolicy → Retry → Option OrderDone → Verdict
    resolve pol s (some out) = finish (ok out)
    resolve pol s none = back_off pol s s.delay_iter

    -- an ambiguous outcome
    unfoldable pub on_ambiguous : RetryPolicy → Bool → List ℕ → Retry → W → Verdict
    unfolding recovered
    on_ambiguous pol guard before s w = resolve pol s (recovered guard before w)

    -- what each action does with an answer that is not None
    unfoldable pub act :
        RetryPolicy → Bool → List ℕ → Refresh → Retry → SendResult → W → PolicyAction → Verdict
    unfolding on_ambiguous swap_filling
    act pol guard before refresh s r w success = finish (ok (done_of r))
    act pol guard before refresh s r w success_partial = finish (ok (done_of r))
    act pol guard before refresh s r w ambiguous = on_ambiguous pol guard before s w
    act pol guard before refresh s r w defer_ladder = finish (err (send_error (some r) s.request))
    act pol guard before refresh s r w abort_alert = finish (err (send_error (some r) s.request))
    act pol guard before refresh s r w abort = finish (err (send_error (some r) s.request))
    act pol guard before refresh s r w rotate_filling =
        if s.rotated
        then finish (err (send_error (some r) s.request))
        else resend
            (record s {
              request = set_filling s.request (swap_filling s.request.type_filling);
              rotated = true;
            })
            zero_float
    act pol guard before refresh s r w retry_fresh_price =
        resend (record s { request = refreshed refresh s.request w }) zero_float
    act pol guard before refresh s r w retry_backoff = back_off pol s s.delay_iter

    -- One pass of the loop after the answer, but for the test of the attempts. Every branch
    -- that retries is tested alike, so the test stands in the loop.
    unfoldable pub verdict :
        RetryPolicy → Bool → List ℕ → Refresh → Retry → Option SendResult → W → Verdict
    unfolding classify
    verdict pol guard before refresh s none w = on_ambiguous pol guard before s w
    verdict pol guard before refresh s (some r) w =
        act pol guard before refresh s r w (classify (some r.retcode))

    -- `order_send` and the tally of its code
    unfoldable pub tally_post : Request → Link W → Option SendResult × Link W
    unfolding post count_code
    tally_post req k =
        let r = post t cfg req k in
        (r.0, record (r.1) { retcode_counts = count_code (tally_key r.0) r.1.retcode_counts })

    -- `if delay > 0: pol.sleep_fn(delay)`
    unfoldable pub pause : Carrier → Link W → Link W
    pause delay k = if lt zero_float delay then record k { world = t.sleep delay k.world } else k

    -- the end of a pass, with what a retry goes on with
    abbrev pub follow :
        Link W → (Retry → Carrier → Reply OrderDone × Link W) → Verdict → Reply OrderDone × Link W
    follow k again (finish out) = (out, k)
    follow k again (resend next delay) = again next delay

    -- The loop of `_send_with_policy`. The first argument is how many attempts may follow the next
    -- one, `pol.max_retries - attempt`; without one a retry raises.
    unfoldable pub send_loop :
        ℕ → RetryPolicy → Bool → List ℕ → Refresh → Retry → Link W → Reply OrderDone × Link W
    unfolding tally_post verdict pause
    send_loop zero pol guard before refresh s k =
        let r = tally_post s.request k in
        follow r.1 (λ _ _. (err (send_error r.0 s.request), r.1))
          (verdict pol guard before refresh s r.0 r.1.world)
    send_loop (suc left) pol guard before refresh s k =
        let r = tally_post s.request k in
        follow r.1 (λ next delay. send_loop left pol guard before refresh next (pause delay r.1))
          (verdict pol guard before refresh s r.0 r.1.world)

    -- `_send_with_policy`
    unfoldable pub send_with_policy :
        RetryPolicy → Refresh → Bool → Request → Link W → Reply OrderDone × Link W
    unfolding send_loop delays
    send_with_policy pol refresh guard req k =
        let before = if guard then tickets (my_positions t cfg k.world) else [] in
        send_loop pol.max_retries pol guard before refresh
          (record { request = req; rotated = false; delay_iter = delays pol }) k

    -- `_send` without a retry policy, after the answer
    abbrev pub once : Request → Option SendResult → Reply OrderDone
    once req none = err none_result
    once req (some r) = if r.retcode == 10009 then ok (done_of r) else err (rejected r.retcode req)

    -- `_send` without and with a retry policy
    unfoldable pub deliver :
        Option RetryPolicy → Refresh → Bool → Request → Link W → Reply OrderDone × Link W
    unfolding post send_with_policy
    deliver none refresh guard req k = let r = post t cfg req k in (once req r.0, r.1)
    deliver (some pol) refresh guard req k = send_with_policy pol refresh guard req k

    -- `_send`
    unfoldable pub send : Refresh → Bool → Request → Link W → Reply OrderDone × Link W
    unfolding deliver
    send refresh guard req k = deliver cfg.retry refresh guard req k
