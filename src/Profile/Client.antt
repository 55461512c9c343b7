-- ===== src/Profile/Client.antt =====
-- The volume profile as the strategy of orb/smc/strategy.py uses it.
use freq_trading.Base.{ℕ, Bool, true, if◌then◌else◌, Option, none, some, []}
use freq_trading.Num.{Float, zero_float}
use freq_trading.Num.Fixed.{ℤ}
use freq_trading.Smc.Config.{row_size}
use freq_trading.SmcEngine.State.{Profile, Levels}
use freq_trading.Profile.Histogram.{VolumeProfile, update_profile, is_ready, poc_row, row_price}
use freq_trading.Profile.Nodes.{ProfileLevels, levels}

module _ ⦃fl : Float⦄ where
  open fl use {Carrier, lit}

  -- `VolumeProfile(row_size, min_bars=min_bars, tpo_fallback=tpo_fallback)` with a row size above
  -- zero
  unfoldable pub new_profile : Carrier → ℕ → Bool → VolumeProfile
  new_profile row_size min_bars tpo_fallback = record {
    row_size = row_size;
    value_area_pct = lit 70 2;
    hvn_frac = lit 70 2;
    lvn_frac = lit 30 2;
    min_bars = min_bars;
    max_rows_per_bar = 5000;
    tiebreak_up = true;
    i_max_peak = lit 15 1;
    tpo_fallback = tpo_fallback;
    anchor = none;
    hist = [];
    span = none;
    total = zero_float;
    bars = 0;
  }

  -- what the strategy reads of a snapshot
  abbrev pub read_levels : Option ProfileLevels → Option Levels
  read_levels none = none
  read_levels (some lv) = some (record { poc = lv.poc; vah = lv.vah; val = lv.val })

  module _ (floor_int : Carrier → ℤ) (of_int : ℤ → Carrier) (of_count : ℕ → Carrier) where
    abbrev pub poc_price : VolumeProfile → Option Carrier → Option ℤ → Option Carrier
    poc_price p (some anchor) (some row) = some (row_price floor_int of_int of_count p anchor row)
    poc_price p _ _ = none

    -- `poc`
    unfoldable pub profile_poc : VolumeProfile → Option Carrier
    unfolding is_ready poc_row
    profile_poc p = if is_ready p then poc_price p p.anchor (poc_row p.hist) else none

    -- the interface of the strategy, filled by the volume profile
    unfoldable pub smc_profile : Profile VolumeProfile
    unfolding new_profile update_profile is_ready profile_poc levels
    smc_profile = record {
      fresh = λ cfg. new_profile (row_size cfg) cfg.min_profile_bars true;
      update = update_profile floor_int of_int of_count;
      ready = is_ready;
      poc = profile_poc;
      levels = λ p. read_levels (levels floor_int of_int of_count p);
    }
