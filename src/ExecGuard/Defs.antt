-- ===== src/ExecGuard/Defs.antt =====
-- `SpreadGate`, `SessionGate` and `assess_fill` of orb/execguard.py, and the windows that
-- `parse_killzones` accepts once its text is split into numbers.
use freq_trading.Base.{
  ℕ, ◌+◌, ◌*◌, ◌/◌, ◌%◌, Bool, true, false, if◌then◌else◌, ◌&&◌, ◌||◌, Option, none, some, List, [],
  ◌∷◌, ltb, leb, ◌==◌,
}
use freq_trading.Num.{Float, zero_float}
use freq_trading.Session.Defs.{day, minute}

-- hours and minutes of the start and of the end, as a token of the text gives them
pub record Token : Type 0 where
  pub h1 : ℕ
  pub m1 : ℕ
  pub h2 : ℕ
  pub m2 : ℕ

-- the loop of `parse_killzones` over tokens that match its pattern; none where it raises
unfoldable pub windows_of : List Token → Option (List (ℕ × ℕ))
windows_of [] = some []
windows_of (t ∷ ts) =
    let rest = windows_of ts in
    let start = t.h1 * 60 + t.m1 in
    let end = t.h2 * 60 + t.m2 in
    if start == end then none else elim rest [ none ↦ none | some ws ↦ some ((start, end) ∷ ws) ]

-- one window of the loop of `SessionGate.allows`
unfoldable pub in_killzone : ℕ → ℕ × ℕ → Bool
in_killzone now (start, end) =
    if ltb start end then leb start now && ltb now end else leb start now || ltb now end

-- the loop of `SessionGate.allows`
unfoldable pub any_window : ℕ → List (ℕ × ℕ) → Bool
any_window now [] = false
any_window now (w ∷ ws) = in_killzone now w || any_window now ws

-- `ts.hour * 60 + ts.minute` of an instant
abbrev pub minute_of_day : ℕ → ℕ
minute_of_day ts = ts % day / minute

-- `SessionGate.allows`, of an instant in UTC
unfoldable pub session_allows : List (ℕ × ℕ) → ℕ → Bool
session_allows [] ts = true
session_allows (w ∷ ws) ts = any_window (minute_of_day ts) (w ∷ ws)

module _ ⦃fl : Float⦄ where
  open fl use {Carrier, sub, quot, abs, round_to, lt, le, eq}

  -- `SpreadGate(max_spread)`; none where it raises ValueError
  unfoldable pub new_gate : Carrier → Option Carrier
  new_gate max_spread = if le max_spread zero_float then none else some max_spread

  -- `SpreadGate.allows`
  unfoldable pub spread_allows : (max_spread bid ask : Carrier) → Bool × Carrier
  spread_allows max_spread bid ask =
      let spread = round_to (sub ask bid) 10 in (le spread max_spread, spread)

  pub record FillAssessment : Type 0 where
    pub slippage : Carrier
    pub risk_inflation_r : Option Carrier
    pub rr_planned : Option Carrier
    pub rr_achieved : Option Carrier
    pub breach : Bool
    pub degraded : Bool

  -- `x is None or x == 0.0`
  abbrev pub is_missing : Option Carrier → Bool
  is_missing none = true
  is_missing (some x) = eq x zero_float

  -- the distance of a price from the stop, 0.0 without a stop
  abbrev pub stop_distance : Carrier → Option Carrier → Carrier
  stop_distance price none = zero_float
  stop_distance price (some stop) = if eq stop zero_float then zero_float else abs (sub price stop)

  -- the distance from a price to the target in units of the risk, where there is a target
  abbrev pub reward_ratio : Carrier → Option Carrier → Carrier → Option Carrier
  reward_ratio price none dist = none
  reward_ratio price (some tp) dist =
      if eq tp zero_float then none else some (quot (abs (sub tp price)) dist)

  -- `limit is not None and test(limit)`
  abbrev pub set_and : (Carrier → Bool) → Option Carrier → Bool
  set_and test none = false
  set_and test (some x) = test x

  -- `assess_fill`
  unfoldable pub assess_fill :
      (requested filled : Carrier) (stop tp max_slippage rr_floor : Option Carrier) → FillAssessment
  assess_fill requested filled stop tp max_slippage rr_floor =
      let slippage = round_to (abs (sub filled requested)) 10 in
      let plan_dist = stop_distance requested stop in
      let fill_dist = stop_distance filled stop in
      let planned = lt zero_float plan_dist in
      let achieved =
        if planned && lt zero_float fill_dist then reward_ratio filled tp fill_dist else none in
      record {
        slippage = slippage;
        risk_inflation_r = if planned then some (quot slippage plan_dist) else none;
        rr_planned = if planned then reward_ratio requested tp plan_dist else none;
        rr_achieved = achieved;
        breach = set_and (λ limit. lt limit slippage) max_slippage;
        degraded = set_and (λ least. set_and (λ rr. lt rr least) achieved) rr_floor;
      }
