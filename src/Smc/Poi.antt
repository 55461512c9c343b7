-- ===== src/Smc/Poi.antt =====
-- What a point of interest consumes.
use freq_trading.Base.{
  ℕ, suc, ◌+◌, ◌≡◌, inl, inr, refl, true, false, if◌then◌else◌, not, ◌&&◌, Option, none, some, List,
  [], ◌∷◌, arith, length, Option-cases, subst, sym,
}
use freq_trading.Num.{Float}
use freq_trading.Models.{Direction, long, short}
use freq_trading.Smc.Blocks.{OrderBlock, OrderBlockTracker, qualifies, consume, poi_at}

module _ ⦃fl : Float⦄ where
  open fl use {Carrier, le}

  -- the blocks that are not mitigated
  abbrev pub open_count : List OrderBlock → ℕ
  open_count [] = 0
  open_count (ob ∷ obs) = (if ob.mitigated then 0 else 1) + open_count obs

  abbrev pub active : Direction → OrderBlockTracker → List OrderBlock
  active long s = s.active_long
  active short s = s.active_short

  abbrev pub against : Direction → Direction
  against long = short
  against short = long

  -- no open block of the list overlaps the interval
  abbrev pub NoneQualifies : (lo hi : Carrier) → List OrderBlock → Type 0
  NoneQualifies lo hi [] = Unit
  NoneQualifies lo hi (ob ∷ obs) =
      ((not ob.mitigated && (le ob.bottom hi && le lo ob.top)) ≡ false) × NoneQualifies lo hi obs

  -- What is taken from a list: nothing where nothing qualifies; otherwise a block that overlaps the
  -- interval, marked, with as many blocks as before, one fewer of them open.
  abbrev pub Takes :
      (lo hi : Carrier)
      → (before : List OrderBlock) → Option OrderBlock
      → (after : List OrderBlock) → Type 0
  Takes lo hi before none after = (after ≡ before) × NoneQualifies lo hi before
  Takes lo hi before (some ob) after =
      (ob.mitigated ≡ true)
      × (le ob.bottom hi ≡ true)
      × (le lo ob.top ≡ true)
      × (length after ≡ length before)
      × (suc (open_count after) ≡ open_count before)

  consume_nothing :
      (lo hi : Carrier) (xs : List OrderBlock) → consume lo hi xs ≡ none → NoneQualifies lo hi xs
  unfolding consume qualifies
  consume_nothing lo hi [] h = tt
  consume_nothing lo hi (ob ∷ obs) h = ground (arith, consume_nothing lo hi obs)

  consume_block :
      (lo hi : Carrier) (xs : List OrderBlock) (ob : OrderBlock) (after : List OrderBlock)
      → consume lo hi xs ≡ some (ob, after)
      → Takes lo hi xs (some ob) after
  unfolding consume qualifies
  consume_block lo hi [] ob after h = absurd (ground arith)
  consume_block lo hi (x ∷ xs) ob after h = elim (Option-cases (consume lo hi xs)) [
    | inl e ↦ ground arith
    | inr (q, e) ↦ ground (arith, consume_block lo hi xs q.0 q.1)
  ]

  -- the result of a call of `poi_at` on the tracker `s`
  abbrev pub TakenFrom :
      (lo hi : Carrier)
      → Direction
      → OrderBlockTracker
      → Option OrderBlock × OrderBlockTracker
      → Type 0
  TakenFrom lo hi d s (o, t) =
      Takes lo hi (active d s) o (active d t) × (active (against d) t ≡ active (against d) s)

  -- A call that returns no block changes nothing, and no open block of the direction overlaps the
  -- interval. A block that is returned overlaps it and is marked; the direction has as many blocks
  -- as before, one fewer of them open. The other direction is untouched.
  pub poi_at-Takes :
      (lo hi : Carrier) (d : Direction) (s : OrderBlockTracker)
      → TakenFrom lo hi d s (poi_at lo hi d s)
  unfolding poi_at
  poi_at-Takes lo hi long s = elim (Option-cases (consume lo hi s.active_long)) [
    | inl e ↦
        let q : poi_at lo hi long s ≡ (none, s) = ground arith in
        subst (TakenFrom lo hi long s) (sym q) ((refl, consume_nothing lo hi s.active_long e), refl)
    | inr (t, e) ↦
        let q : poi_at lo hi long s ≡ (some t.0, record s { active_long = t.1 }) = ground arith in
        subst (TakenFrom lo hi long s) (sym q) (consume_block lo hi s.active_long t.0 t.1 e, refl)
  ]
  poi_at-Takes lo hi short s = elim (Option-cases (consume lo hi s.active_short)) [
    | inl e ↦
        let q : poi_at lo hi short s ≡ (none, s) = ground arith in
        subst (TakenFrom lo hi short s) (sym q)
          ((refl, consume_nothing lo hi s.active_short e), refl)
    | inr (t, e) ↦
        let q : poi_at lo hi short s ≡ (some t.0, record s { active_short = t.1 }) = ground arith in
        subst (TakenFrom lo hi short s) (sym q) (consume_block lo hi s.active_short t.0 t.1 e, refl)
  ]
