-- ===== src/Models/Records.antt =====
-- The output records of orb/models.py and the open position. The `detail` text of a transition
-- is for the log alone and is left out.
use freq_trading.Base.{ℕ, Option}
use freq_trading.Num.{Float}
use freq_trading.Models.Enums.{State, Direction, SignalKind, Reason, Event}

pub record StateTransition : Type 0 where
  pub ts : ℕ
  pub state_from : State
  pub state_to : State
  pub event : Event

module _ ⦃fl : Float⦄ where
  open fl use {Carrier}

  pub record Signal : Type 0 where
    pub ts : ℕ
    pub kind : SignalKind
    pub direction : Direction
    pub price : Carrier
    pub state_from : State
    pub state_to : State
    pub reason : Reason
    pub range_high : Option Carrier
    pub range_low : Option Carrier
    pub roc : Option Carrier
    pub rvol : Option Carrier
    pub atr : Option Carrier
    pub stop : Option Carrier
    pub tp : Option Carrier
    pub qty : Option Carrier
    pub bars_held : Option ℕ

  pub record PositionState : Type 0 where
    pub direction : Direction
    pub entry_ts : ℕ
    pub entry_price : Carrier
    pub stop : Carrier
    pub atr_at_entry : Carrier
    pub tp : Option Carrier
    pub bars_held : ℕ
    pub mfe : Carrier
    pub mae : Carrier
