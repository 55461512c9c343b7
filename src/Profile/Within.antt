-- ===== src/Profile/Within.antt =====
-- That the value area encloses the point of control, stays within the rows of the profile, and that
-- its loop ends before the fuel does.
use freq_trading.Base.{
  ℕ, zero, suc, ◌+◌, ◌≤◌, ◌<◌, ◌≡◌, refl, Bool, true, false, not, ◌&&◌, Option, none, some, arith,
  Bool-cases, inl, inr,
}
use freq_trading.Num.{Float}
use freq_trading.Num.Fixed.{ℤ, pos_part, neg_part}
use freq_trading.Profile.Rows.{suc_row, pred_row, le_row, AtMost, suc_row-parts, pred_row-parts}
use freq_trading.Profile.Histogram.{Hist}
use freq_trading.Profile.Area.{
  Area, up_ok, dn_ok, goes_up, absorb_up, absorb_down, pass, go_on, grow, room, seed_area,
  area_from,
}

module _ ⦃fl : Float⦄ (h : Hist) (mn mx poc : ℤ) where
  open fl use {Carrier, lt}

  pub record IsAround (s : Area) : Type 0 where
    pub lower : AtMost mn s.lo
    pub low : AtMost s.lo poc
    pub high : AtMost poc s.hi
    pub upper : AtMost s.hi mx
    pub above : pos_part s.up + neg_part s.hi ≡ suc (pos_part s.hi + neg_part s.up)
    pub below : suc (pos_part s.dn + neg_part s.lo) ≡ pos_part s.lo + neg_part s.dn

  -- a pass leaves an area around the point of control, with fewer rows to absorb
  pub record Advances (s next : Area) : Type 0 where
    pub around : IsAround next
    pub fewer : room h mn mx next < room h mn mx s

  absorb_up-Advances :
      (s : Area) → IsAround s → up_ok h mn mx s ≡ true → Advances s (absorb_up h mn mx s)
  unfolding absorb_up
  absorb_up-Advances s a u =
      let p = suc_row-parts s.up in
      let q = suc_row-parts (suc_row s.up) in
      let a1 = a.lower in
      let a2 = a.low in
      let a3 = a.high in
      let a4 = a.upper in
      let a5 = a.above in
      let a6 = a.below in
      elim (Bool-cases (le_row (suc_row s.up) mx)) [
        | inl b ↦ rw b (record {
          around = record {
            lower = a1;
            low = a2;
            high = ground arith;
            upper = ground arith;
            above = ground arith;
            below = a6;
          };
          fewer = ground arith;
        })
        | inr b ↦ rw b (record {
          around = record {
            lower = a1;
            low = a2;
            high = ground arith;
            upper = ground arith;
            above = ground arith;
            below = a6;
          };
          fewer = ground arith;
        })
      ]

  absorb_down-Advances :
      (s : Area) → IsAround s → dn_ok h mn mx s ≡ true → Advances s (absorb_down h mn mx s)
  unfolding absorb_down
  absorb_down-Advances s a u =
      let p = pred_row-parts s.dn in
      let q = pred_row-parts (pred_row s.dn) in
      let a1 = a.lower in
      let a2 = a.low in
      let a3 = a.high in
      let a4 = a.upper in
      let a5 = a.above in
      let a6 = a.below in
      elim (Bool-cases (le_row mn (pred_row s.dn))) [
        | inl b ↦ rw b (record {
          around = record {
            lower = ground arith;
            low = ground arith;
            high = a3;
            upper = a4;
            above = a5;
            below = ground arith;
          };
          fewer = ground arith;
        })
        | inr b ↦ rw b (record {
          around = record {
            lower = ground arith;
            low = ground arith;
            high = a3;
            upper = a4;
            above = a5;
            below = ground arith;
          };
          fewer = ground arith;
        })
      ]

  goes_up-up_ok :
      (tiebreak_up : Bool) (s : Area)
      → (not (up_ok h mn mx s) && not (dn_ok h mn mx s)) ≡ false
      → goes_up h mn mx tiebreak_up s ≡ true
      → up_ok h mn mx s ≡ true
  unfolding goes_up
  goes_up-up_ok tiebreak_up s e g = ground arith

  goes_up-dn_ok :
      (tiebreak_up : Bool) (s : Area)
      → goes_up h mn mx tiebreak_up s ≡ false
      → dn_ok h mn mx s ≡ true
  unfolding goes_up
  goes_up-dn_ok tiebreak_up s g = ground arith

  -- what a pass gives, if it gives anything
  abbrev pub Onward : Area → Option Area → Type 0
  Onward s none = Unit
  Onward s (some next) = Advances s next

  pass-Onward :
      (target : Carrier) (tiebreak_up : Bool) (s : Area)
      → IsAround s
      → Onward s (pass h mn mx target tiebreak_up s)
  unfolding pass
  pass-Onward target tiebreak_up s a = elim (Bool-cases (not (lt s.va target))) [
    | inl e ↦ rw e tt
    | inr e ↦ elim (Bool-cases (not (up_ok h mn mx s) && not (dn_ok h mn mx s))) [
      | inl n ↦ rw (e, n) tt
      | inr n ↦ elim (Bool-cases (goes_up h mn mx tiebreak_up s)) [
        | inl g ↦ rw (e, n, g) (absorb_up-Advances s a (goes_up-up_ok tiebreak_up s n g))
        | inr g ↦ rw (e, n, g) (absorb_down-Advances s a (goes_up-dn_ok tiebreak_up s g))
      ]
    ]
  ]

  -- without a row to absorb the loop ends
  pass_without_room :
      (target : Carrier) (tiebreak_up : Bool) (s : Area)
      → room h mn mx s ≡ 0
      → pass h mn mx target tiebreak_up s ≡ none
  unfolding pass
  pass_without_room target tiebreak_up s e = ground arith

  -- an area around the point of control at which the loop has ended
  abbrev pub Ends : Carrier → Bool → Area → Type 0
  Ends target tiebreak_up s = IsAround s × (pass h mn mx target tiebreak_up s ≡ none)

  go_on-Ends :
      (target : Carrier) (tiebreak_up : Bool) (s : Area) (f : Area → Area) (o : Option Area)
      → IsAround s
      → pass h mn mx target tiebreak_up s ≡ o
      → Onward s o
      → ((next : Area) → Advances s next → Ends target tiebreak_up (f next))
      → Ends target tiebreak_up (go_on h mn mx s f o)
  go_on-Ends target tiebreak_up s f none a e w g = (a, e)
  go_on-Ends target tiebreak_up s f (some next) a e w g = g next w

  grow-Ends :
      (n : ℕ) (target : Carrier) (tiebreak_up : Bool) (s : Area)
      → IsAround s
      → room h mn mx s ≤ n
      → Ends target tiebreak_up (grow h mn mx n target tiebreak_up s)
  unfolding grow
  grow-Ends zero target tiebreak_up s a r =
      (a, pass_without_room target tiebreak_up s (omega arith))
  grow-Ends (suc n) target tiebreak_up s a r =
      go_on-Ends target tiebreak_up s (λ next. grow h mn mx n target tiebreak_up next)
        (pass h mn mx target tiebreak_up s) a refl (pass-Onward target tiebreak_up s a)
        (λ next w. let l = w.fewer in grow-Ends n target tiebreak_up next w.around (omega arith))

  seed_area-IsAround : AtMost mn poc → AtMost poc mx → IsAround (seed_area h mn mx poc)
  seed_area-IsAround l u =
      let p = suc_row-parts poc in
      let q = pred_row-parts poc in
      record { lower = l; low = omega arith; high = omega arith; upper = u; above = p; below = q }

  -- From a point of control among the rows of the profile, the area of the loop lies within these
  -- rows and encloses the point of control, and the loop has ended there of its own: the target is
  -- met or no row is left.
  pub area_from-Ends :
      (target : Carrier) (tiebreak_up : Bool)
      → AtMost mn poc
      → AtMost poc mx
      → Ends target tiebreak_up (area_from h mn mx target tiebreak_up poc)
  unfolding area_from
  area_from-Ends target tiebreak_up l u =
      grow-Ends (room h mn mx (seed_area h mn mx poc)) target tiebreak_up (seed_area h mn mx poc)
        (seed_area-IsAround l u) (omega arith)
