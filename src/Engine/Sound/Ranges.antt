-- ===== src/Engine/Sound/Ranges.antt =====
-- The momentum gate, the breakout and the range on a valid engine.
use freq_trading.Base.{◌≡◌, true, false, arith, is_some}
use freq_trading.Num.{Float}
use freq_trading.Models.{
  idle, range_defined, OrbConfig, Result, ok, err, Candle, Direction, long, short,
}
use freq_trading.Indicators.Ready.{roc_value_ready}
use freq_trading.Session.{SessionInfo}
use freq_trading.Engine.State.{Engine, warm, emit_transition, emit_signal}
use freq_trading.Engine.Entry.{
  Momentum, gate, roc_passes, rvol_passes, momentum, breakout_direction, entry_signal,
  open_position, judge, judged, check_breakout, opened,
}
use freq_trading.Engine.Step.{
  lock_range, maybe_lock, open_range, on_idle, extend_range, build_range, armed_bar,
  on_range_defined,
}
use freq_trading.Engine.Invariant.{IsValid, IsSound, documented}

module _ ⦃fl : Float⦄ (cfg : OrbConfig) where
  open fl use {Carrier}

  judge-IsSound :
      (c : Candle) (d : Direction) (m : Momentum) (e : Engine)
      → IsValid e
      → e.state ≡ range_defined
      → is_some e.range_hi ≡ true
      → is_some e.atr.atr ≡ true
      → IsSound (judge cfg c d m e)
  unfolding judge entry_signal open_position emit_signal emit_transition opened
  judge-IsSound c d m e v s h a = ground arith

  -- a momentum gate on a warm engine
  momentum-documented :
      (c : Candle) (d : Direction) (e : Engine)
      → warm cfg e ≡ true
      → documented (momentum cfg c d e).0 ≡ true
  unfolding warm momentum gate roc_passes rvol_passes
  momentum-documented c d e w = ground (arith, roc_value_ready e.roc)

  momentum-engine :
      (c : Candle) (d : Direction) (e : Engine)
      → IsValid e
      → e.state ≡ range_defined
      → is_some e.range_hi ≡ true
      → is_some e.atr.atr ≡ true
      → let f = (momentum cfg c d e).1 in
        IsValid f
        × (f.state ≡ range_defined)
        × (is_some f.range_hi ≡ true)
        × (is_some f.atr.atr ≡ true)
  unfolding momentum
  momentum-engine c d e v s h a = ground arith

  judged-IsSound :
      (c : Candle) (d : Direction) (r : Result Momentum × Engine)
      → documented r.0 ≡ true
      → IsValid r.1
      → r.1.state ≡ range_defined
      → is_some r.1.range_hi ≡ true
      → is_some r.1.atr.atr ≡ true
      → IsSound (judged cfg c d r)
  judged-IsSound c d (err x, e) q v s h a = (q, v)
  judged-IsSound c d (ok m, e) q v s h a = judge-IsSound c d m e v s h a

  judged-momentum-IsSound :
      (c : Candle) (d : Direction) (e : Engine)
      → IsValid e
      → e.state ≡ range_defined
      → is_some e.range_hi ≡ true
      → warm cfg e ≡ true
      → IsSound (judged cfg c d (momentum cfg c d e))
  unfolding warm
  judged-momentum-IsSound c d e v s h w =
      let (v', s', h', a') = momentum-engine c d e v s h (ground arith) in
      judged-IsSound c d (momentum cfg c d e) (momentum-documented c d e w) v' s' h' a'

  check_breakout-IsSound :
      (c : Candle) (e : Engine)
      → IsValid e
      → e.state ≡ range_defined
      → is_some e.range_hi ≡ true
      → warm cfg e ≡ true
      → IsSound (check_breakout cfg c e)
  unfolding check_breakout breakout_direction
  check_breakout-IsSound c e v s h w =
      ground
        (arith, judged-momentum-IsSound c long e v s h w, judged-momentum-IsSound c short e v s h w)

  maybe_lock-IsValid :
      (c : Candle) (e : Engine)
      → IsValid e
      → e.state ≡ range_defined
      → is_some e.range_hi ≡ true
      → IsValid (maybe_lock cfg c e)
  unfolding maybe_lock lock_range emit_transition
  maybe_lock-IsValid c e v s h = ground arith

  pub on_idle-IsValid :
      (c : Candle) (i : SessionInfo) (e : Engine)
      → IsValid e
      → e.state ≡ idle
      → is_some e.session_id ≡ true
      → IsValid (on_idle cfg c i e)
  unfolding on_idle open_range emit_transition
  on_idle-IsValid c i e v h q = ground (arith, maybe_lock-IsValid c (open_range cfg c e))

  build_range-IsSound :
      (c : Candle) (e : Engine)
      → IsValid e
      → e.state ≡ range_defined
      → e.range_locked ≡ false
      → IsSound (build_range cfg c e)
  unfolding build_range extend_range maybe_lock lock_range emit_transition
  build_range-IsSound c e v h l = ground arith

  armed_bar-IsSound :
      (c : Candle) (i : SessionInfo) (e : Engine)
      → IsValid e
      → e.state ≡ range_defined
      → is_some e.range_hi ≡ true
      → IsSound (armed_bar cfg c i e)
  unfolding armed_bar lock_range emit_transition
  armed_bar-IsSound c i e v h r =
      ground
        (arith, check_breakout-IsSound c e v h r, check_breakout-IsSound c (lock_range cfg c e))

  pub on_range_defined-IsSound :
      (c : Candle) (i : SessionInfo) (e : Engine)
      → IsValid e
      → e.state ≡ range_defined
      → IsSound (on_range_defined cfg c i e)
  unfolding on_range_defined
  on_range_defined-IsSound c i e v h =
      ground (arith, build_range-IsSound c e v h, armed_bar-IsSound c i e v h)
