-- ===== src/Babysitter/Stops.antt =====
-- Every action of a bar is for a position of that bar, and a new stop tightens the old one.
use freq_trading.Base.{
  ℕ, ◌≡◌, ◌⊎◌, refl, Bool, true, false, if◌then◌else◌, not, ◌||◌, List, [], ◌∷◌, ◌++◌, arith, inl,
  inr,
}
use freq_trading.Num.{Float}
use freq_trading.Babysitter.Defs.{
  BrokerPosition, TradeState, Action, partial_close, update_sl, Settings, is_long_position,
  has_stop, trade_of, partial_due, target, tighter, manage, manage_all, on_bar,
}

module _ ⦃fl : Float⦄ (k : Settings) where
  open fl use {Carrier, mul, lt, eq}

  -- The action is for the position: a partial close of the configured fraction of its volume, or a
  -- stop that is strictly tighter than the one it has.
  abbrev pub Fits : BrokerPosition → Action → Type 0
  Fits p (partial_close t v) = (p.ticket ≡ t) × (v ≡ mul p.volume k.partial_frac)
  Fits p (update_sl t x) =
      (p.ticket ≡ t)
      × ((not (has_stop p) || (if is_long_position p then lt p.sl x else lt x p.sl)) ≡ true)

  -- the action fits one of the positions
  abbrev pub FitsOne : List BrokerPosition → Action → Type 0
  FitsOne [] a = ⊥
  FitsOne (p ∷ ps) a = Fits p a ⊎ FitsOne ps a

  abbrev pub AllFit : List BrokerPosition → List Action → Type 0
  AllFit ps [] = Unit
  AllFit ps (a ∷ as') = FitsOne ps a × AllFit ps as'

  AllFit-append :
      (ps : List BrokerPosition) (xs ys : List Action)
      → AllFit ps xs
      → AllFit ps ys
      → AllFit ps (xs ++ ys)
  AllFit-append ps [] ys h q = q
  AllFit-append ps (x ∷ xs) ys h q = (h.0, AllFit-append ps xs ys h.1 q)

  AllFit-cons :
      (p : BrokerPosition) (ps : List BrokerPosition) (xs : List Action)
      → AllFit ps xs
      → AllFit (p ∷ ps) xs
  AllFit-cons p ps [] h = tt
  AllFit-cons p ps (x ∷ xs) h = (inr h.0, AllFit-cons p ps xs h.1)

  AllFit-when :
      (ps : List BrokerPosition) (b : Bool) (a : Action)
      → (b ≡ true → FitsOne ps a)
      → AllFit ps (if b then a ∷ [] else [])
  AllFit-when ps true a h = (h refl, tt)
  AllFit-when ps false a h = tt

  tighter-improves :
      (p : BrokerPosition) (x : Carrier)
      → tighter k p x ≡ true
      → (not (has_stop p) || (if is_long_position p then lt p.sl x else lt x p.sl)) ≡ true
  unfolding tighter
  tighter-improves p x h = ground arith

  manage-AllFit :
      (p : BrokerPosition) (ps : List BrokerPosition) (close : Carrier) (m : List (ℕ × TradeState))
      → AllFit (p ∷ ps) (manage k p close m).1
  unfolding manage
  manage-AllFit p ps close m =
      let st = trade_of k p m in
      let t = target k p st close in
      AllFit-append (p ∷ ps)
        (if partial_due k p st close
          then partial_close p.ticket (mul p.volume k.partial_frac) ∷ []
          else [])
        (if tighter k p t then update_sl p.ticket t ∷ [] else [])
        (AllFit-when (p ∷ ps) (partial_due k p st close) _ (λ _. inl (refl, refl)))
        (AllFit-when (p ∷ ps) (tighter k p t) _ (λ h. inl (refl, tighter-improves p t h)))

  manage_all-AllFit :
      (ps : List BrokerPosition) (close : Carrier) (m : List (ℕ × TradeState))
      → AllFit ps (manage_all k ps close m).1
  unfolding manage_all
  manage_all-AllFit [] close m = tt
  manage_all-AllFit (p ∷ ps) close m =
      let (m', acts) = manage k p close m in
      AllFit-append (p ∷ ps) acts (manage_all k ps close m').1 (manage-AllFit p ps close m)
        (AllFit-cons p ps (manage_all k ps close m').1 (manage_all-AllFit ps close m'))

  -- Every action of a bar is for a position of the bar: a partial close of the configured fraction
  -- of its volume, or a stop that is strictly tighter than the one that it has, if it has one.
  pub on_bar-AllFit :
      (ps : List BrokerPosition) (close : Carrier) (m : List (ℕ × TradeState))
      → AllFit ps (on_bar k ps close m).1
  unfolding on_bar
  on_bar-AllFit ps close m = manage_all-AllFit ps close m
