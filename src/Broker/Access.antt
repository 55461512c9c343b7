-- ===== src/Broker/Access.antt =====
-- Which accounts the broker trades on.
use freq_trading.Base.{ℕ, ◌≡◌, ◌==◌, refl, false, some, arith, sym, subst, List, [], ◌∷◌}
use freq_trading.Num.{Float}
use freq_trading.Models.{Signal}
use freq_trading.Broker.Terminal.{Terminal, BrokerConfig, Link}
use freq_trading.Broker.Entries.{Login, connect, execute}

module _ ⦃fl : Float⦄ {W : Type 0} (t : Terminal W) (cfg : BrokerConfig) where
  -- the calls of `execute` for signals in turn
  abbrev pub execute_all : List Signal → Link W → Link W
  execute_all [] k = k
  execute_all (sig ∷ sigs) k = execute_all sigs (execute t cfg sig k).1

  connect-refuses :
      (login : Login) (mode : ℕ) (k : Link W)
      → login.trade_mode ≡ some mode
      → (mode == 0) ≡ false
      → (connect t cfg false login k).1 ≡ k
  unfolding connect
  connect-refuses login mode k e h = ground arith

  execute-idle : (sig : Signal) (k : Link W) → k.connected ≡ false → (execute t cfg sig k).1 ≡ k
  unfolding execute
  execute-idle sig k h = ground arith

  execute_all-idle :
      (sigs : List Signal) (k : Link W) → k.connected ≡ false → execute_all sigs k ≡ k
  execute_all-idle [] k h = refl
  execute_all-idle (sig ∷ sigs) k h =
      let e = execute-idle sig k h in
      subst (λ l. execute_all sigs l ≡ k) (sym e) (execute_all-idle sigs k h)

  -- Without leave to trade live, a connection attempt of an unconnected broker to an account that is
  -- not a demo account changes nothing, and no signal after it sends a request.
  pub connect-demo_only :
      (login : Login) (mode : ℕ) (sigs : List Signal) (k : Link W)
      → k.connected ≡ false
      → login.trade_mode ≡ some mode
      → (mode == 0) ≡ false
      → execute_all sigs (connect t cfg false login k).1 ≡ k
  connect-demo_only login mode sigs k h e n =
      subst (λ l. execute_all sigs l ≡ k) (sym (connect-refuses login mode k e n))
        (execute_all-idle sigs k h)
