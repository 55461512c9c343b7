-- ===== src/SmcEngine/Invariant.antt =====
-- What holds of the strategy between two calls.
use freq_trading.Base.{
  ℕ, ◌+◌, ◌≤◌, ◌≡◌, ◌≢◌, refl, Bool, true, false, ◌∙◌, if◌then◌else◌, subst, sym, List, [], ◌∷◌,
  arith, is_some,
}
use freq_trading.Num.{Float}
use freq_trading.Models.{
  State, Event, idle, range_defined, breakout, exit_state, is_breakout, is_range_defined, is_idle,
}
use freq_trading.Smc.Config.{SmcConfig}
use freq_trading.Engine.State.{Emission, transition, signal}
use freq_trading.Engine.Invariant.{entries, exits}
use freq_trading.SmcEngine.State.{SmcEngine}

-- the edges of the state diagram: arm, disarm, entry, exit
abbrev pub is_edge : State → State → Bool
is_edge idle range_defined = true
is_edge range_defined idle = true
is_edge range_defined breakout = true
is_edge breakout range_defined = true
is_edge _ _ = false

pub leaves_armed :
    (a : State) → a ≢ exit_state → is_breakout a ≡ false → is_idle a ≡ false → is_edge a idle ≡ true
leaves_armed idle x b n = absurd (ground arith)
leaves_armed range_defined x b n = refl
leaves_armed breakout x b n = absurd (ground arith)
leaves_armed exit_state x b n = absurd (x refl)

pub leaves_idle :
    (a : State)
    → a ≢ exit_state
    → is_breakout a ≡ false
    → is_range_defined a ≡ false
    → is_edge a range_defined ≡ true
leaves_idle idle x b n = refl
leaves_idle range_defined x b n = absurd (ground arith)
leaves_idle breakout x b n = absurd (ground arith)
leaves_idle exit_state x b n = absurd (x refl)

pub is_breakout-eq : (a : State) → is_breakout a ≡ true → a ≡ breakout
is_breakout-eq idle h = absurd (ground arith)
is_breakout-eq range_defined h = absurd (ground arith)
is_breakout-eq breakout h = refl
is_breakout-eq exit_state h = absurd (ground arith)

module _ ⦃fl : Float⦄ where
  open fl use {Carrier}

  -- the transitions, newest first, lead from IDLE to the state, each along an edge
  abbrev pub IsTrace : List Emission → State → Type 0
  IsTrace [] s = s ≡ idle
  IsTrace (transition t ∷ xs) s =
      (t.state_to ≡ s) × (is_edge t.state_from t.state_to ≡ true) × IsTrace xs t.state_from
  IsTrace (signal _ ∷ xs) s = IsTrace xs s

  -- of the state, whether there is a position, the trades of the day, and what was emitted
  pub record Fits (max_trades : ℕ) (state : State) (held : Bool) (traded : ℕ)
      (emitted : List Emission) : Type 0 where
    pub settled : state ≢ exit_state
    pub positioned : held ≡ is_breakout state
    pub capped : traded ≤ max_trades
    pub balanced : entries emitted ≡ exits emitted + (if is_breakout state then 1 else 0)
    pub traced : IsTrace emitted state

  -- the transition to a state without a position
  pub moved :
      (max_trades : ℕ) (a b : State) (held : Bool) (traded : ℕ) (xs : List Emission) (ts : ℕ)
      (event : Event)
      → Fits max_trades a held traded xs
      → held ≡ false
      → is_edge a b ≡ true
      → is_breakout b ≡ false
      → Fits max_trades b held traded
          (transition (record { ts = ts; state_from = a; state_to = b; event = event }) ∷ xs)
  moved max_trades a b held traded xs ts event v h e n =
      let p = v.positioned in
      let q = v.balanced in
      record {
        settled = λ x. absurd (ground arith);
        positioned = h ∙ sym n;
        capped = v.capped;
        balanced = ground arith;
        traced = (refl, e, v.traced);
      }

  module _ (cfg : SmcConfig) {Pr : Type 0} where
    abbrev pub IsValid : SmcEngine Pr → Type 0
    IsValid e = Fits cfg.max_trades_per_day e.state (is_some e.position) e.traded_today e.emitted

    -- the parts that the invariant reads are the same
    pub record IsSame (e f : SmcEngine Pr) : Type 0 where
      pub state : f.state ≡ e.state
      pub position : is_some f.position ≡ is_some e.position
      pub traded_today : f.traded_today ≡ e.traded_today
      pub emitted : f.emitted ≡ e.emitted

    pub IsSame-IsValid : (e f : SmcEngine Pr) → IsSame e f → IsValid e → IsValid f
    IsSame-IsValid e f s v =
        subst (λ x. Fits cfg.max_trades_per_day x (is_some f.position) f.traded_today f.emitted)
          (sym s.state)
          (subst (λ x. Fits cfg.max_trades_per_day e.state x f.traded_today f.emitted)
            (sym s.position)
            (subst (λ x. Fits cfg.max_trades_per_day e.state (is_some e.position) x f.emitted)
              (sym s.traded_today)
              (subst
                (λ x. Fits cfg.max_trades_per_day e.state (is_some e.position) e.traded_today x)
                (sym s.emitted) v)))
