-- ===== src/Broker/Retcodes.antt =====
-- orb/broker/retcodes.py: the action for each return code of the trade server, and the delays of a
-- retry policy. The names of the codes are for the log alone and are left out.
use freq_trading.Base.{ℕ, zero, suc, if◌then◌else◌, Option, none, some, List, [], ◌∷◌, ◌==◌}
use freq_trading.Num.{Float, min}

pub data PolicyAction : Type 0 where
  success success_partial retry_fresh_price retry_backoff ambiguous defer_ladder rotate_filling
        abort abort_alert :
      PolicyAction

abbrev pub policy : List (ℕ × PolicyAction)
policy =
    (10009, success)
    ∷ (10008, success)
    ∷ (10010, success_partial)
    ∷ (10004, retry_fresh_price)
    ∷ (10015, retry_fresh_price)
    ∷ (10020, retry_fresh_price)
    ∷ (10006, retry_backoff)
    ∷ (10011, retry_backoff)
    ∷ (10021, retry_backoff)
    ∷ (10024, retry_backoff)
    ∷ (10028, retry_backoff)
    ∷ (10012, ambiguous)
    ∷ (10031, ambiguous)
    ∷ (10019, defer_ladder)
    ∷ (10030, rotate_filling)
    ∷ (10013, abort)
    ∷ (10014, abort)
    ∷ (10017, abort)
    ∷ (10018, abort)
    ∷ (10022, abort)
    ∷ (10029, abort)
    ∷ (10033, abort)
    ∷ (10034, abort)
    ∷ (10016, abort_alert)
    ∷ (10026, abort_alert)
    ∷ (10027, abort_alert)
    ∷ []

-- `table.get(code, default)`
unfoldable pub get : List (ℕ × PolicyAction) → ℕ → PolicyAction → PolicyAction
get [] code default = default
get ((c, a) ∷ rest) code default =
    let later = get rest code default in if c == code then a else later

-- `classify`
unfoldable pub classify : Option ℕ → PolicyAction
unfolding get
classify none = ambiguous
classify (some code) = get policy code abort

module _ ⦃fl : Float⦄ where
  open fl use {Carrier, mul, lt}

  -- `sleep_fn` is the terminal's
  pub record RetryPolicy : Type 0 where
    pub max_retries : ℕ
    pub base_delay : Carrier
    pub mult : Carrier
    pub max_delay : Carrier

  -- the rest of the loop of `delays`
  unfoldable pub delays_from : ℕ → (d mult max_delay : Carrier) → List Carrier
  delays_from zero d mult max_delay = []
  delays_from (suc n) d mult max_delay = min d max_delay ∷ delays_from n (mul d mult) mult max_delay

  -- `delays`
  unfoldable pub delays : RetryPolicy → List Carrier
  delays k = delays_from k.max_retries k.base_delay k.mult k.max_delay
