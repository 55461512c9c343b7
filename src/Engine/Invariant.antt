-- ===== src/Engine/Invariant.antt =====
-- What holds of the engine between two calls.
use freq_trading.Base.{
  ℕ, ◌+◌, ◌≡◌, ◌≢◌, Bool, true, false, if◌then◌else◌, List, [], ◌∷◌, arith, is_some,
}
use freq_trading.Num.{Float}
use freq_trading.Models.{
  State, idle, range_defined, breakout, exit_state, is_breakout, is_range_defined, entry, exit,
  OrbConfig, Result, ok, err, Error, candle_error, out_of_order_error, indicator_error,
}
use freq_trading.Engine.State.{Emission, transition, signal, Engine, new}

-- The exceptions that the engine documents; the others are errors of the program.
abbrev pub is_documented : Error → Bool
is_documented candle_error = true
is_documented out_of_order_error = true
is_documented indicator_error = true
is_documented _ = false

abbrev pub documented : {A : Type 0} → Result A → Bool
documented (ok _) = true
documented (err x) = is_documented x

module _ ⦃fl : Float⦄ where
  -- one for a signal that opens a position
  abbrev pub opens : Emission → ℕ
  opens (transition _) = 0
  opens (signal s) = elim s.kind [ entry ↦ 1 | _ ↦ 0 ]

  -- one for a signal that closes a position for good, which a partial take profit does not
  abbrev pub closes : Emission → ℕ
  closes (transition _) = 0
  closes (signal s) = elim s.kind [ exit ↦ if is_breakout s.state_to then 0 else 1 | _ ↦ 0 ]

  abbrev pub entries : List Emission → ℕ
  entries [] = 0
  entries (x ∷ xs) = opens x + entries xs

  abbrev pub exits : List Emission → ℕ
  exits [] = 0
  exits (x ∷ xs) = closes x + exits xs

  -- The edges of the state diagram.
  abbrev pub is_edge : State → State → Bool
  is_edge idle idle = true
  is_edge idle range_defined = true
  is_edge range_defined idle = true
  is_edge range_defined range_defined = true
  is_edge range_defined breakout = true
  is_edge breakout idle = true
  is_edge breakout range_defined = true
  is_edge breakout breakout = true
  is_edge _ _ = false

  -- The transitions, newest first, lead from IDLE to the given state, each along an edge.
  abbrev pub IsPath : List Emission → State → Type 0
  IsPath [] s = s ≡ idle
  IsPath (transition t ∷ xs) s =
      (t.state_to ≡ s) × (is_edge t.state_from t.state_to ≡ true) × IsPath xs t.state_from
  IsPath (signal _ ∷ xs) s = IsPath xs s

  pub record IsValid (e : Engine) : Type 0 where
    pub settled : e.state ≢ exit_state
    pub both_ends : is_some e.range_hi ≡ is_some e.range_lo
    pub armed : is_range_defined e.state ≡ true → e.rebuild ≡ false → is_some e.range_hi ≡ true
    pub unlocked : e.rebuild ≡ true → e.range_locked ≡ false
    pub positioned : is_some e.pos ≡ is_breakout e.state
    pub traded_range : is_breakout e.state ≡ true → is_some e.range_hi ≡ true
    pub traded_atr : is_breakout e.state ≡ true → is_some e.atr.atr ≡ true
    pub balanced : entries e.emitted ≡ exits e.emitted + (if is_breakout e.state then 1 else 0)
    pub started : is_some e.session_id ≡ false → e.state ≡ idle
    pub traced : IsPath e.emitted e.state

  -- A call ended with a valid engine and no error of the program.
  abbrev pub IsSound : {A : Type 0} → Result A × Engine → Type 0
  IsSound (r, e) = (documented r ≡ true) × IsValid e

  pub new-IsValid : (cfg : OrbConfig) → IsValid (new cfg)
  unfolding new
  new-IsValid cfg = ground arith
