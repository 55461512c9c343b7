-- ===== src/Structure/Breaks.antt =====
-- The events of the tracker over a run of bars.
use freq_trading.Base.{◌≡◌, ◌↔◌, Bool, true, false, Option, none, some}
use freq_trading.Num.{Float}
use freq_trading.Models.{Candle, Direction, long, short}
use freq_trading.Structure.Defs.{
  choch, SwingPoint, StructureEvent, StructureTracker, breaks_up, breaks_down,
}

abbrev pub opposite : Direction → Direction
opposite long = short
opposite short = long

module _ ⦃fl : Float⦄ where
  open fl use {Carrier, lt, le}

  -- the reference of a direction
  abbrev pub reference : Direction → StructureTracker → Option SwingPoint
  reference long s = s.ref_high
  reference short s = s.ref_low

  -- the close is strictly beyond the level
  abbrev pub passes : Direction → Carrier → Carrier → Bool
  passes long level close = lt level close
  passes short level close = lt close level

  abbrev level_of : Option SwingPoint → Option Carrier
  level_of none = none
  level_of (some r) = some r.price

  -- What an update reports of the tracker `s` whose window has the bar, and of `t` after it.
  abbrev pub Reports : Candle → StructureTracker → Option StructureEvent → StructureTracker → Type 0
  Reports c s none t = (t ≡ s) × (breaks_up c s ≡ false) × (breaks_down c s ≡ false)
  Reports c s (some ev) t =
      (level_of (reference ev.direction s) ≡ some ev.level)
      × (passes ev.direction ev.level c.close ≡ true)
      × (reference ev.direction t ≡ none)
      × (reference (opposite ev.direction) t ≡ reference (opposite ev.direction) s)
      × (t.trend ≡ some ev.direction)
      × ((ev.kind ≡ choch) ↔ (s.trend ≡ some (opposite ev.direction)))
