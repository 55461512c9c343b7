-- ===== src/Models/Enums.antt =====
-- The enumerations and exceptions of orb/models.py, the event names and reason strings that
-- orb/engine.py, orb/smc/strategy.py and
-- orb/svp/strategy.py put into their records, and results with an exception.
use freq_trading.Base.{Bool, true, false, List}

-- The last three are Python's own: an operand that is None, a failed assert, a missing key.
pub data Error : Type 0 where
  candle_error out_of_order_error indicator_error config_error type_error assertion_error
        key_error :
      Error

pub data Result (A : Type 0) : Type 0 where
  ok : A → Result A
  err : Error → Result A

pub data State : Type 0 where
  idle range_defined breakout exit_state : State

pub data Direction : Type 0 where
  long short : Direction

pub data ExitReason : Type 0 where
  take_profit trail_stop broker_closed range_reentry session_end gap_invalidate : ExitReason

pub data SignalKind : Type 0 where
  entry exit reject : SignalKind

-- The checks of orb/smc/strategy.py and the source of a point of interest, as a reason lists them.
pub data Confluence : Type 0 where
  sweep disp cisd align pd poi : Confluence

pub data PoiSource : Type 0 where
  poc prior_poc d1_ob h4_ob : PoiSource

-- The setups of orb/svp/strategy.py.
pub data SvpSetup : Type 0 where
  edge_rot_vah_fade edge_rot_val_fade lvn_break_long lvn_break_short absorb_long absorb_short :
      SvpSetup

-- The reason of a signal: the string that the engine writes.
pub data Reason : Type 0 where
  momentum_fail_roc momentum_fail_rvol take_profit_partial : Reason
  breakout_of : Direction → Reason
  closed_by : ExitReason → Reason
  svp_setup : SvpSetup → Reason
  smc_setup : Direction → List Confluence → PoiSource → Reason

-- The event name of a transition.
pub data Event : Type 0 where
  range_open range_build range_lock breakout_long breakout_short : Event
  exit_tp exit_trail exit_reentry exit_session exit_gap exit_broker exit_tp_partial : Event
  rearm trade_done session_done session_reset gap_reset : Event
  arm disarm entry_long entry_short session_open : Event

abbrev pub is_breakout : State → Bool
is_breakout breakout = true
is_breakout _ = false

abbrev pub is_range_defined : State → Bool
is_range_defined range_defined = true
is_range_defined _ = false

abbrev pub is_idle : State → Bool
is_idle idle = true
is_idle _ = false

abbrev pub is_long : Direction → Bool
is_long long = true
is_long short = false
