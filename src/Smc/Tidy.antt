-- ===== src/Smc/Tidy.antt =====
-- The registers of the order blocks stay bounded and sorted by direction.
use freq_trading.Base.{
  ℕ, zero, suc, ◌+◌, ◌-◌, ◌≤◌, ◌≡◌, inl, inr, refl, if◌then◌else◌, Option, none, some, List, [],
  ◌∷◌, ◌++◌, drop, arith, length, Option-cases, Bool-cases, subst, sym,
}
use freq_trading.Num.{Float}
use freq_trading.Models.{Candle, Direction, long, short}
use freq_trading.Indicators.{append_bounded}
use freq_trading.Indicators.Windows.{length-append_bounded}
use freq_trading.Structure.Defs.{StructureEvent}
use freq_trading.Smc.Blocks.{
  OrderBlock, OrderBlockTracker, touch, refresh, is_displacement, last_opposite, add_candidate,
  propose, promote_all, promote, drop_stale, sweep, update_blocks, max_pending, poi_at, consume,
  qualifies, new_blocks,
}

module _ ⦃fl : Float⦄ where
  open fl use {Carrier}

  abbrev pub AllOf : Direction → List OrderBlock → Type 0
  AllOf d [] = Unit
  AllOf d (ob ∷ obs) = (ob.direction ≡ d) × AllOf d obs

  -- at most `most` blocks, all of the direction
  abbrev pub IsRegister : Direction → ℕ → List OrderBlock → Type 0
  IsRegister d most xs = (length xs ≤ most) × AllOf d xs

  pub record IsTidy (s : OrderBlockTracker) : Type 0 where
    pub pending_long : IsRegister long max_pending s.pending_long
    pub pending_short : IsRegister short max_pending s.pending_short
    pub active_long : IsRegister long s.max_blocks s.active_long
    pub active_short : IsRegister short s.max_blocks s.active_short

  AllOf-append :
      (d : Direction) (xs ys : List OrderBlock) → AllOf d xs → AllOf d ys → AllOf d (xs ++ ys)
  AllOf-append d [] ys h k = k
  AllOf-append d (x ∷ xs) ys h k = (h.0, AllOf-append d xs ys h.1 k)

  AllOf-drop : (d : Direction) (n : ℕ) (xs : List OrderBlock) → AllOf d xs → AllOf d (drop n xs)
  AllOf-drop d zero xs h = h
  AllOf-drop d (suc n) [] h = tt
  AllOf-drop d (suc n) (x ∷ xs) h = AllOf-drop d n xs h.1

  append_bounded-IsRegister :
      (d : Direction) (most : ℕ) (ob : OrderBlock) (xs : List OrderBlock)
      → IsRegister d most xs
      → ob.direction ≡ d
      → IsRegister d most (append_bounded most ob xs)
  append_bounded-IsRegister d most ob xs h e = (
    length-append_bounded most ob xs,
    AllOf-drop d (length (xs ++ ob ∷ []) - most) (xs ++ ob ∷ [])
        (AllOf-append d xs (ob ∷ []) h.1 (e, tt)),
  )

  refresh-IsRegister :
      (d : Direction) (expiry bar : ℕ) (c : Candle) (most : ℕ) (xs : List OrderBlock)
      → IsRegister d most xs
      → IsRegister d most (refresh d expiry bar c xs)
  unfolding refresh touch
  refresh-IsRegister d expiry bar c most [] h = h
  refresh-IsRegister d expiry bar c zero (x ∷ xs) h = absurd (omega (arith, h.0))
  refresh-IsRegister d expiry bar c (suc most) (x ∷ xs) h =
      ground (arith, refresh-IsRegister d expiry bar c most xs)

  drop_stale-IsRegister :
      (d : Direction) (confirm bar most : ℕ) (xs : List OrderBlock)
      → IsRegister d most xs
      → IsRegister d most (drop_stale confirm bar xs)
  unfolding drop_stale
  drop_stale-IsRegister d confirm bar most [] h = h
  drop_stale-IsRegister d confirm bar most (x ∷ xs) h =
      ground (arith, drop_stale-IsRegister d confirm bar most xs)

  promote_all-IsRegister :
      (d : Direction) (confirm most bar : ℕ) (xs reg : List OrderBlock)
      → AllOf d xs
      → IsRegister d most reg
      → IsRegister d most (promote_all confirm most bar xs reg)
  unfolding promote_all
  promote_all-IsRegister d confirm most bar [] reg h k = k
  promote_all-IsRegister d confirm most bar (x ∷ xs) reg h k =
      promote_all-IsRegister d confirm most bar xs _ h.1
        (let r = append_bounded-IsRegister d most x reg k h.0 in ground arith)

  add_candidate-IsTidy :
      (d : Direction) (prev : Candle) (s : OrderBlockTracker)
      → IsTidy s
      → IsTidy (add_candidate d prev s)
  unfolding add_candidate
  add_candidate-IsTidy long prev s v = record {
    pending_long = append_bounded-IsRegister long max_pending _ s.pending_long v.pending_long refl;
    pending_short = v.pending_short;
    active_long = v.active_long;
    active_short = v.active_short;
  }
  add_candidate-IsTidy short prev s v = record {
    pending_long = v.pending_long;
    pending_short =
        append_bounded-IsRegister short max_pending _ s.pending_short v.pending_short refl;
    active_long = v.active_long;
    active_short = v.active_short;
  }

  propose-IsTidy : (c : Candle) (s : OrderBlockTracker) → IsTidy s → IsTidy (propose c s)
  unfolding propose
  propose-IsTidy c s v =
      let d = if fl.lt c.open_price c.close then long else short in
      elim (Option-cases (last_opposite d s.recent)) [
        | inl e ↦ let q : propose c s ≡ s = ground arith in subst IsTidy (sym q) v
        | inr (prev, e) ↦ elim (Bool-cases (is_displacement s c)) [
          | inl b ↦
              let q : propose c s ≡ add_candidate d prev s = ground arith in
              subst IsTidy (sym q) (add_candidate-IsTidy d prev s v)
          | inr b ↦ let q : propose c s ≡ s = ground arith in subst IsTidy (sym q) v
        ]
      ]

  promote-IsTidy :
      (event : Option StructureEvent) (s : OrderBlockTracker) → IsTidy s → IsTidy (promote event s)
  unfolding promote
  promote-IsTidy none s v = v
  promote-IsTidy (some ev) s v = ground (
    arith,
    promote_all-IsRegister long s.confirm_bars s.max_blocks s.bar s.pending_long s.active_long,
    promote_all-IsRegister short s.confirm_bars s.max_blocks s.bar s.pending_short s.active_short,
  )

  sweep-IsTidy :
      (c : Candle) (event : Option StructureEvent) (s : OrderBlockTracker)
      → IsTidy s
      → IsTidy (sweep c event s)
  unfolding sweep
  sweep-IsTidy c event s v =
      let bar = s.bar + 1 in
      let fresh : OrderBlockTracker = record s {
        bar = bar;
        active_long = refresh long s.expiry_bars bar c s.active_long;
        active_short = refresh short s.expiry_bars bar c s.active_short;
      } in
      let w : IsTidy fresh = record {
        pending_long = v.pending_long;
        pending_short = v.pending_short;
        active_long =
            refresh-IsRegister long s.expiry_bars bar c s.max_blocks s.active_long v.active_long;
        active_short =
            refresh-IsRegister short s.expiry_bars bar c s.max_blocks s.active_short v.active_short;
      } in
      let t = promote event (propose c fresh) in
      let u = promote-IsTidy event (propose c fresh) (propose-IsTidy c fresh w) in
      record {
        pending_long =
            drop_stale-IsRegister long s.confirm_bars bar max_pending t.pending_long u.pending_long;
        pending_short =
            drop_stale-IsRegister short s.confirm_bars bar max_pending t.pending_short
              u.pending_short;
        active_long = u.active_long;
        active_short = u.active_short;
      }

  update_blocks-IsTidy :
      (c : Candle) (event : Option StructureEvent) (s : OrderBlockTracker)
      → IsTidy s
      → IsTidy (update_blocks c event s).1
  unfolding update_blocks
  update_blocks-IsTidy c event s v =
      let t = sweep c event s in
      let u = sweep-IsTidy c event s v in
      let p = u.pending_long in
      let q = u.pending_short in let a = u.active_long in let b = u.active_short in ground arith

  -- a list with one block marked
  consume-IsRegister :
      (d : Direction) (most : ℕ) (lo hi : Carrier) (xs : List OrderBlock) {ob : OrderBlock}
      {ys : List OrderBlock}
      → IsRegister d most xs
      → consume lo hi xs ≡ some (ob, ys)
      → IsRegister d most ys
  unfolding consume qualifies
  consume-IsRegister d most lo hi [] {ob} {ys} h e = absurd (ground arith)
  consume-IsRegister d zero lo hi (x ∷ xs) {ob} {ys} h e = absurd (omega (arith, h.0))
  consume-IsRegister d (suc most) lo hi (x ∷ xs) {ob} {ys} h e =
      elim (Option-cases (consume lo hi xs)) [
        | inl n ↦ ground arith
        | inr (q, n) ↦ ground (arith, consume-IsRegister d most lo hi xs {ob = q.0} {ys = q.1})
      ]

  poi_at-IsTidy :
      (lo hi : Carrier) (d : Direction) (s : OrderBlockTracker)
      → IsTidy s
      → IsTidy (poi_at lo hi d s).1
  unfolding poi_at
  poi_at-IsTidy lo hi long s v = elim (Option-cases (consume lo hi s.active_long)) [
    | inl e ↦
        let q : poi_at lo hi long s ≡ (none, s) = ground arith in subst (λ r. IsTidy r.1) (sym q) v
    | inr (t, e) ↦
        let q : poi_at lo hi long s ≡ (some t.0, record s { active_long = t.1 }) = ground arith in
        subst (λ r. IsTidy r.1) (sym q)
          (record {
            pending_long = v.pending_long;
            pending_short = v.pending_short;
            active_long = consume-IsRegister long s.max_blocks lo hi s.active_long v.active_long e;
            active_short = v.active_short;
          })
  ]
  poi_at-IsTidy lo hi short s v = elim (Option-cases (consume lo hi s.active_short)) [
    | inl e ↦
        let q : poi_at lo hi short s ≡ (none, s) = ground arith in subst (λ r. IsTidy r.1) (sym q) v
    | inr (t, e) ↦
        let q : poi_at lo hi short s ≡ (some t.0, record s { active_short = t.1 }) = ground arith in
        subst (λ r. IsTidy r.1) (sym q)
          (record {
            pending_long = v.pending_long;
            pending_short = v.pending_short;
            active_long = v.active_long;
            active_short =
                consume-IsRegister short s.max_blocks lo hi s.active_short v.active_short e;
          })
  ]

  new_blocks-IsTidy :
      (frac mult : Carrier) (confirm max_blocks expiry period : ℕ) {s : OrderBlockTracker}
      → new_blocks frac mult confirm max_blocks expiry period ≡ some s
      → IsTidy s
  unfolding new_blocks
  new_blocks-IsTidy frac mult confirm max_blocks expiry period {s} h = ground arith

  module _ (frac mult : Carrier) (confirm max_blocks expiry period : ℕ) where
    -- a new tracker of the arguments, and the tracker after each call
    pub data Reach : OrderBlockTracker → Type 0 where
      start :
          {s : OrderBlockTracker}
          → new_blocks frac mult confirm max_blocks expiry period ≡ some s
          → Reach s
      bar :
          {s : OrderBlockTracker}
          → Reach s
          → (c : Candle) (event : Option StructureEvent) → Reach (update_blocks c event s).1
      ask :
          {s : OrderBlockTracker}
          → Reach s
          → (lo hi : Carrier) (d : Direction) → Reach (poi_at lo hi d s).1

    -- After any calls of `update` and `poi_at` on a new tracker, bars on which the ATR raises
    -- included, the active blocks are at most `max_blocks` and the candidates at most five a side,
    -- with only blocks of its own direction in each.
    pub Reach-IsTidy : {s : OrderBlockTracker} → Reach s → IsTidy s
    Reach-IsTidy (start h) = new_blocks-IsTidy frac mult confirm max_blocks expiry period h
    Reach-IsTidy (bar {s} r c event) = update_blocks-IsTidy c event s (Reach-IsTidy r)
    Reach-IsTidy (ask {s} r lo hi d) = poi_at-IsTidy lo hi d s (Reach-IsTidy r)
