-- ===== src/SvpEngine/Triggers.antt =====
-- What sets off an entry of `SvpEngine`: each of its setups against a description of it.
use freq_trading.Base.{ℕ, ◌≡◌, ◌⊎◌, Bool, true, false, Option, none, some, get_elem?}
use freq_trading.Num.{Float, zero_float, max, min}
use freq_trading.Models.{
  Candle, Direction, long, short, Signal, SvpSetup, edge_rot_vah_fade, edge_rot_val_fade,
  lvn_break_long, lvn_break_short, absorb_long, absorb_short,
}
use freq_trading.Profile.Nodes.{ProfileLevels, balanced}
use freq_trading.SvpEngine.Config.{SvpConfig}
use freq_trading.SvpEngine.State.{SvpEngine}
use freq_trading.SvpEngine.Filters.{entry_allowed, risk_stop}
use freq_trading.SvpEngine.Setups.{open_setup}

module _ ⦃fl : Float⦄ (k : SvpConfig) (c : Candle) where
  open fl use {Carrier, lit, abs, add, sub, mul, lt, le}

  -- the configuration allows the direction
  abbrev pub permits : Direction → Bool
  permits long = k.allow_long
  permits short = k.allow_short

  -- the distance kept beyond a shelf
  abbrev pub margin : Carrier
  margin = mul k.stop_buffer_ticks k.tick_size

  -- the bar closes strictly within the value area
  abbrev pub ClosesInside : ProfileLevels → Type 0
  ClosesInside lv = (lt lv.val c.close ≡ true) × (lt c.close lv.vah ≡ true)

  -- heavy volume on a small body at a high volume node
  abbrev pub Absorbs : ProfileLevels → (avg : Option Carrier) → Type 0
  Absorbs lv avg =
      (a : Carrier) × (i : ℕ) × (node : Carrier) × (avg ≡ some a)
      × (le a zero_float ≡ false)
      × (lt c.volume (mul k.absorb_vol_mult a) ≡ false)
      × (lt (mul k.absorb_body_ticks k.tick_size) (abs (sub c.close c.open_price)) ≡ false)
      × (get_elem? lv.hvns i ≡ some node)
      × (le (abs (sub c.close node)) (mul (lit k.ticks_per_row 0) k.tick_size) ≡ true)

  -- the wick above the body, the wick below it, and the least that counts
  abbrev pub upper_wick : Carrier
  upper_wick = sub c.high (max c.open_price c.close)

  abbrev pub lower_wick : Carrier
  lower_wick = sub (min c.open_price c.close) c.low

  abbrev pub least_wick : Carrier
  least_wick = mul k.absorb_wick_mult (max (abs (sub c.close c.open_price)) k.tick_size)

  -- The setup is enabled and the bar shows it, with its direction and its structural stop: a bar of a
  -- balanced day that pierces one edge of the value area alone and closes inside; a close through a
  -- low volume node; heavy volume on a small body at a high volume node with a long wick.
  abbrev pub IsTrigger :
      ProfileLevels
      → (prev_close avg : Option Carrier) → SvpSetup
      → Direction
      → (stop : Carrier) → Type 0
  IsTrigger lv prev_close avg edge_rot_vah_fade direction stop =
      (k.enable_edge_rotation ≡ true)
      × (direction ≡ short)
      × (stop ≡ add lv.vah margin)
      × (lv.shape ≡ balanced)
      × (le lv.vah c.high ≡ true)
      × (le c.low lv.val ≡ false)
      × ClosesInside lv
  IsTrigger lv prev_close avg edge_rot_val_fade direction stop =
      (k.enable_edge_rotation ≡ true)
      × (direction ≡ long)
      × (stop ≡ sub lv.val margin)
      × (lv.shape ≡ balanced)
      × (le c.low lv.val ≡ true)
      × (le lv.vah c.high ≡ false)
      × ClosesInside lv
  IsTrigger lv prev_close avg lvn_break_long direction stop =
      (k.enable_lvn ≡ true)
      × (direction ≡ long)
      × ((i : ℕ) × (prev : Carrier) × (lvn : Carrier) × (prev_close ≡ some prev)
          × (get_elem? lv.lvns i ≡ some lvn)
          × (stop ≡ sub lvn margin)
          × (le prev lvn ≡ true)
          × (lt lvn c.close ≡ true))
  IsTrigger lv prev_close avg lvn_break_short direction stop =
      (k.enable_lvn ≡ true)
      × (direction ≡ short)
      × ((i : ℕ) × (prev : Carrier) × (lvn : Carrier) × (prev_close ≡ some prev)
          × (get_elem? lv.lvns i ≡ some lvn)
          × (stop ≡ add lvn margin)
          × (le lvn prev ≡ true)
          × (lt c.close lvn ≡ true))
  IsTrigger lv prev_close avg absorb_long direction stop =
      (k.enable_absorption_proxy ≡ true)
      × (direction ≡ long)
      × (stop ≡ sub c.low margin)
      × Absorbs lv avg
      × (le least_wick lower_wick ≡ true)
      × (le upper_wick lower_wick ≡ true)
  IsTrigger lv prev_close avg absorb_short direction stop =
      (k.enable_absorption_proxy ≡ true)
      × (direction ≡ short)
      × (stop ≡ add c.high margin)
      × Absorbs lv avg
      × (le least_wick upper_wick ≡ true)
      × (lt lower_wick upper_wick ≡ true)

  -- Nothing changed, or an entry that a setup sets off, in a permitted direction that the filters
  -- allow.
  abbrev pub EntersOr :
      ProfileLevels
      → (prev_close avg : Option Carrier) → SvpEngine
      → Option Signal × SvpEngine
      → Type 0
  EntersOr lv prev_close avg e r =
      (r ≡ (none, e))
      ⊎ ((direction : Direction) × (stop : Carrier) × (setup : SvpSetup) × (permits direction
            ≡ true)
          × (entry_allowed k c direction e ≡ true)
          × IsTrigger lv prev_close avg setup direction stop
          × (r ≡ open_setup c direction (risk_stop k c direction stop e.atr.atr) setup lv e))
