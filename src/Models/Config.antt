-- ===== src/Models/Config.antt =====
-- `OrbConfig` of orb/models.py with the checks of its `__post_init__`, and its warmup length.
use freq_trading.Base.{
  ℕ, ◌+◌, Bool, true, false, if◌then◌else◌, not, ◌&&◌, ◌||◌, Option, none, some, ltb, leb, List, [],
  ◌∷◌, ◌++◌,
}
use freq_trading.Num.{Float, zero_float}
use freq_trading.Models.Enums.{Result, ok, err, config_error}

-- The strings that the configuration takes; `other` is any other string.
pub data ReentryOn : Type 0 where
  on_close intrabar other_reentry : ReentryOn

pub data RearmRange : Type 0 where
  rebuild keep other_rearm : RearmRange

pub data OnGap : Type 0 where
  hold reset other_gap : OnGap

abbrev pub is_on_close : ReentryOn → Bool
is_on_close on_close = true
is_on_close _ = false

abbrev pub is_rebuild : RearmRange → Bool
is_rebuild rebuild = true
is_rebuild _ = false

abbrev pub is_reset : OnGap → Bool
is_reset reset = true
is_reset _ = false

abbrev pub known_reentry : ReentryOn → Bool
known_reentry other_reentry = false
known_reentry _ = true

abbrev pub known_rearm : RearmRange → Bool
known_rearm other_rearm = false
known_rearm _ = true

abbrev pub known_gap : OnGap → Bool
known_gap other_gap = false
known_gap _ = true

module _ ⦃fl : Float⦄ where
  open fl use {Carrier, lit, lt, le}

  -- Counts are natural numbers, so the check that `max_gap_bars` is not negative is the type's.
  -- `session_open_utc` is in microseconds since midnight.
  pub record OrbConfig : Type 0 where
    pub session_open_utc : ℕ
    pub session_len_min : ℕ
    pub range_minutes : ℕ
    pub use_roc : Bool
    pub roc_period : ℕ
    pub roc_min : Carrier
    pub use_rvol : Bool
    pub rvol_period : ℕ
    pub rvol_min : Carrier
    pub atr_period : ℕ
    pub atr_mult : Carrier
    pub stop_max_dist : Option Carrier
    pub stop_min_dist : Option Carrier
    pub reentry_on : ReentryOn
    pub qty : Carrier
    pub tp_rrr : Option Carrier
    pub tp_close_frac : Carrier
    pub allow_long : Bool
    pub allow_short : Bool
    pub one_trade_per_session : Bool
    pub rearm_after_exit : Bool
    pub rearm_range : RearmRange
    pub expected_bar_sec : ℕ
    pub max_gap_bars : ℕ
    pub on_gap : OnGap
    pub strict_monotonic : Bool
    pub instrument_dp : ℕ

  -- `x is not None and x <= 0`
  abbrev pub not_positive : Option Carrier → Bool
  not_positive none = false
  not_positive (some x) = le x zero_float

  -- both are given, and the first exceeds the second
  abbrev pub exceeds : Option Carrier → Option Carrier → Bool
  exceeds (some a) (some b) = lt b a
  exceeds _ _ = false

  -- `__post_init__`: the first check that fails raises.
  unfoldable pub check_config : OrbConfig → Result (Unit {0})
  check_config k =
      if ltb k.range_minutes 1
      then err config_error
      else if ltb k.roc_period 1 || ltb k.rvol_period 1 || ltb k.atr_period 1
      then err config_error
      else if le k.atr_mult zero_float
      then err config_error
      else if not_positive k.stop_max_dist
      then err config_error
      else if not_positive k.stop_min_dist
      then err config_error
      else if exceeds k.stop_min_dist k.stop_max_dist
      then err config_error
      else if lt k.qty zero_float
      then err config_error
      else if not_positive k.tp_rrr
      then err config_error
      else if not (lt zero_float k.tp_close_frac && le k.tp_close_frac (lit 1 0))
      then err config_error
      else if not (known_rearm k.rearm_range)
      then err config_error
      else if not (known_reentry k.reentry_on)
      then err config_error
      else if not (known_gap k.on_gap)
      then err config_error
      else if not (k.allow_long || k.allow_short)
      then err config_error
      else if leb k.session_len_min k.range_minutes
      then err config_error
      else if ltb k.expected_bar_sec 1
      then err config_error
      else ok tt

  -- `max` of a list of counts.
  abbrev pub max_of : ℕ → List ℕ → ℕ
  max_of m [] = m
  max_of m (n ∷ ns) = max_of (if ltb m n then n else m) ns

  -- `warmup_bars`: the bars that the enabled indicators need.
  unfoldable pub warmup_bars : OrbConfig → ℕ
  warmup_bars k = max_of k.range_minutes (
      (if k.use_roc then (k.roc_period + 1) ∷ [] else [])
      ++ ((if k.use_rvol then k.rvol_period ∷ [] else []) ++ (k.atr_period + 1) ∷ []))
