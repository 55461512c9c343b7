-- ===== src/Profile/Enclosed.antt =====
-- That the rows of a histogram stay within its span, over any run of bars, and what follows for the
-- value area.
use freq_trading.Base.{
  ℕ, zero, suc, ◌+◌, ◌≤◌, ◌≡◌, refl, sym, subst, Bool, true, false, if◌then◌else◌, Option, none,
  some, List, [], ◌∷◌, arith, Bool-cases, inl, inr, ltb,
}
use freq_trading.Num.{Float, zero_float}
use freq_trading.Num.Fixed.{ℤ, pos_part, neg_part}
use freq_trading.Models.{Candle}
use freq_trading.Profile.Rows.{suc_row, lt_row, same_row, rows_from, AtMost, suc_row-parts}
use freq_trading.Profile.Histogram.{
  Hist, VolumeProfile, reset_profile, add_share, spread_over, scan_poc, poc_row, widen_span,
  distribute, update_profile, anchor_of, weight_of, row_of,
}
use freq_trading.Profile.Area.{area_of, value_area}
use freq_trading.Profile.Within.{area_from-Ends}

module _ ⦃fl : Float⦄ where
  open fl use {Carrier, lt, le, add, mul, quot, neg, lit}

  abbrev pub InSpan : (mn mx : ℤ) → ℤ → Type 0
  InSpan mn mx r = AtMost mn r × AtMost r mx

  -- every row of the histogram lies in the span
  abbrev pub AllInSpan : (mn mx : ℤ) → Hist → Type 0
  AllInSpan mn mx [] = Unit
  AllInSpan mn mx ((r, _) ∷ rest) = InSpan mn mx r × AllInSpan mn mx rest

  abbrev pub SomeInSpan : (mn mx : ℤ) → Option ℤ → Type 0
  SomeInSpan mn mx none = Unit
  SomeInSpan mn mx (some r) = InSpan mn mx r

  if-SomeInSpan :
      (mn mx : ℤ) (b : Bool) (x y : Option ℤ)
      → SomeInSpan mn mx x
      → SomeInSpan mn mx y
      → SomeInSpan mn mx (if b then x else y)
  if-SomeInSpan mn mx true x y h k = h
  if-SomeInSpan mn mx false x y h k = k

  scan_poc-SomeInSpan :
      (mn mx : ℤ) (h : Hist) (best_r : Option ℤ) (best_v : Carrier)
      → AllInSpan mn mx h
      → SomeInSpan mn mx best_r
      → SomeInSpan mn mx (scan_poc h best_r best_v)
  unfolding scan_poc
  scan_poc-SomeInSpan mn mx [] best_r best_v a b = b
  scan_poc-SomeInSpan mn mx ((r, v) ∷ rest) best_r best_v (i, a) b =
      scan_poc-SomeInSpan mn mx rest (if lt best_v v then some r else best_r)
        (if lt best_v v then v else best_v) a
        (if-SomeInSpan mn mx (lt best_v v) (some r) best_r i b)

  if-AllInSpan :
      (mn mx : ℤ) (b : Bool) (x y : Hist)
      → AllInSpan mn mx x
      → AllInSpan mn mx y
      → AllInSpan mn mx (if b then x else y)
  if-AllInSpan mn mx true x y h k = h
  if-AllInSpan mn mx false x y h k = k

  add_share-AllInSpan :
      (mn mx r : ℤ) (share : Carrier) (h : Hist)
      → InSpan mn mx r
      → AllInSpan mn mx h
      → AllInSpan mn mx (add_share r share h)
  unfolding add_share
  add_share-AllInSpan mn mx r share [] i a = (i, tt)
  add_share-AllInSpan mn mx r share ((k, v) ∷ rest) i (j, a) =
      if-AllInSpan mn mx (same_row k r) ((k, add v share) ∷ rest) _ (j, a)
        (if-AllInSpan mn mx (lt_row r k) ((r, add zero_float share) ∷ (k, v) ∷ rest)
          ((k, v) ∷ add_share r share rest) (i, (j, a))
          (j, add_share-AllInSpan mn mx r share rest i a))

  -- so many rows from a row up do not pass the highest one
  abbrev pub Reaches : ℕ → ℤ → ℤ → Type 0
  Reaches n r mx = n + (pos_part r + neg_part mx) ≤ suc (pos_part mx + neg_part r)

  spread_over-AllInSpan :
      (n : ℕ) (mn mx r : ℤ) (share : Carrier) (h : Hist)
      → AtMost mn r
      → Reaches n r mx
      → AllInSpan mn mx h
      → AllInSpan mn mx (spread_over n r share h)
  unfolding spread_over
  spread_over-AllInSpan zero mn mx r share h l u a = a
  spread_over-AllInSpan (suc n) mn mx r share h l u a =
      let p = suc_row-parts r in
      spread_over-AllInSpan n mn mx (suc_row r) share (add_share r share h) (omega arith)
        (omega arith) (add_share-AllInSpan mn mx r share h (l, omega arith) a)

  AllInSpan-wider :
      (mn mx mn1 mx1 : ℤ) (h : Hist)
      → AtMost mn1 mn
      → AtMost mx mx1
      → AllInSpan mn mx h
      → AllInSpan mn1 mx1 h
  AllInSpan-wider mn mx mn1 mx1 [] l u a = tt
  AllInSpan-wider mn mx mn1 mx1 ((r, v) ∷ rest) l u ((i, j), a) =
      ((omega arith, omega arith), AllInSpan-wider mn mx mn1 mx1 rest l u a)

  -- the histogram of a profile lies in its span; without a span it is empty
  abbrev pub Spans : Option (ℤ × ℤ) → Hist → Type 0
  Spans none h = h ≡ []
  Spans (some (mn, mx)) h = AllInSpan mn mx h

  abbrev pub IsSpanned : VolumeProfile → Type 0
  IsSpanned p = Spans p.span p.hist

  lower_of : (lo mn : ℤ) → let m = if lt_row lo mn then lo else mn in AtMost m lo × AtMost m mn
  lower_of lo mn = elim (Bool-cases (lt_row lo mn)) [
    | inl b ↦ rw b (ground arith, ground arith)
    | inr b ↦ rw b (ground arith, ground arith)
  ]

  upper_of : (hi mx : ℤ) → let m = if lt_row mx hi then hi else mx in AtMost hi m × AtMost mx m
  upper_of hi mx = elim (Bool-cases (lt_row mx hi)) [
    | inl b ↦ rw b (ground arith, ground arith)
    | inr b ↦ rw b (ground arith, ground arith)
  ]

  spread-AllInSpan :
      (lo hi mn mx : ℤ) (share : Carrier) (h : Hist)
      → AtMost lo hi
      → AtMost mn lo
      → AtMost hi mx
      → AllInSpan mn mx h
      → AllInSpan mn mx (spread_over (rows_from lo hi) lo share h)
  spread-AllInSpan lo hi mn mx share h o l u a =
      spread_over-AllInSpan (rows_from lo hi) mn mx lo share h l (omega arith) a

  spread-Spans :
      (s : Option (ℤ × ℤ)) (lo hi : ℤ) (share : Carrier) (h : Hist)
      → AtMost lo hi
      → Spans s h
      → Spans (some (widen_span lo hi s)) (spread_over (rows_from lo hi) lo share h)
  spread-Spans none lo hi share h o a =
      spread-AllInSpan lo hi lo hi share h o (omega arith) (omega arith)
        (subst (AllInSpan lo hi) (sym a) tt)
  spread-Spans (some (mn, mx)) lo hi share h o a =
      let (l, k) = lower_of lo mn in
      let (u, j) = upper_of hi mx in
      spread-AllInSpan lo hi (if lt_row lo mn then lo else mn) (if lt_row mx hi then hi else mx)
        share h o l u (AllInSpan-wider mn mx _ _ h k j a)

  if-IsSpanned :
      (b : Bool) (p q : VolumeProfile) → IsSpanned p → IsSpanned q → IsSpanned (if b then p else q)
  if-IsSpanned true p q h k = h
  if-IsSpanned false p q h k = k

  module _ (floor_int : Carrier → ℤ) (of_int : ℤ → Carrier) (of_count : ℕ → Carrier) where
    distribute-IsSpanned :
        (lo hi : ℤ) (weight : Carrier) (p : VolumeProfile)
        → AtMost lo hi
        → IsSpanned p
        → IsSpanned (distribute floor_int of_int of_count lo hi weight p)
    unfolding distribute
    distribute-IsSpanned lo hi weight p o a =
        let n = rows_from lo hi in
        if-IsSpanned (ltb p.max_rows_per_bar n) p _ a
          (spread-Spans p.span lo hi (quot weight (of_count n)) p.hist o a)

    update_profile-IsSpanned :
        (c : Candle) (p : VolumeProfile)
        → IsSpanned p
        → IsSpanned (update_profile floor_int of_int of_count c p)
    unfolding update_profile
    update_profile-IsSpanned c p a =
        let x = anchor_of p c in
        let q = record p { anchor = some x; bars = suc p.bars } in
        let weight = weight_of p c in
        let lo = row_of floor_int of_int of_count p x c.low in
        let hi = row_of floor_int of_int of_count p x c.high in
        elim (Bool-cases (le weight zero_float)) [
          | inl e ↦ rw e a
          | inr e ↦ elim (Bool-cases (lt_row hi lo)) [
            | inl b ↦ rw (e, b) (distribute-IsSpanned hi lo weight q (ground arith) a)
            | inr b ↦ rw (e, b) (distribute-IsSpanned lo hi weight q (ground arith) a)
          ]
        ]

    -- the bars of a session in turn
    abbrev pub update_all : List Candle → VolumeProfile → VolumeProfile
    update_all [] p = p
    update_all (c ∷ cs) p = update_all cs (update_profile floor_int of_int of_count c p)

    update_all-IsSpanned :
        (cs : List Candle) (p : VolumeProfile) → IsSpanned p → IsSpanned (update_all cs p)
    update_all-IsSpanned [] p a = a
    update_all-IsSpanned (c ∷ cs) p a =
        update_all-IsSpanned cs (update_profile floor_int of_int of_count c p)
          (update_profile-IsSpanned c p a)

  -- a value area, if there is one, is for a point of control that it encloses, within the span
  abbrev pub Encloses : Option (ℤ × ℤ) → Option ℤ → Option (ℤ × ℤ) → Type 0
  Encloses span poc none = Unit
  Encloses (some (mn, mx)) (some poc) (some (lo, hi)) =
      AtMost mn lo × AtMost lo poc × AtMost poc hi × AtMost hi mx
  Encloses _ _ (some _) = ⊥

  abbrev pub InSpanOf : Option (ℤ × ℤ) → Option ℤ → Type 0
  InSpanOf none poc = Unit
  InSpanOf (some (mn, mx)) poc = SomeInSpan mn mx poc

  poc_row-InSpanOf : (s : Option (ℤ × ℤ)) (h : Hist) → Spans s h → InSpanOf s (poc_row h)
  unfolding poc_row
  poc_row-InSpanOf none h a = tt
  poc_row-InSpanOf (some (mn, mx)) h a = scan_poc-SomeInSpan mn mx h none (neg (lit 1 0)) a tt

  area_of-Encloses :
      (p : VolumeProfile) (poc : Option ℤ) (s : Option (ℤ × ℤ))
      → InSpanOf s poc
      → Encloses s poc (area_of p poc s)
  unfolding area_of
  area_of-Encloses p none none i = tt
  area_of-Encloses p none (some (mn, mx)) i = tt
  area_of-Encloses p (some poc) none i = tt
  area_of-Encloses p (some poc) (some (mn, mx)) (l, u) =
      let target = mul p.value_area_pct p.total in
      let (a, e) = area_from-Ends p.hist mn mx poc target p.tiebreak_up l u in
      elim (Bool-cases (le p.total zero_float)) [
        | inl b ↦ rw b tt
        | inr b ↦ rw b (a.lower, a.low, a.high, a.upper)
      ]

  -- Over any bars of a session, the value area, if there is one, is for a point of control that it
  -- encloses, and it lies within the lowest and the highest row that a bar has touched.
  pub value_area-Encloses :
      (floor_int : Carrier → ℤ) (of_int : ℤ → Carrier) (of_count : ℕ → Carrier) (cs : List Candle)
      (p : VolumeProfile)
      → let q = update_all floor_int of_int of_count cs (reset_profile p) in
        Encloses q.span (poc_row q.hist) (value_area q)
  unfolding value_area reset_profile
  value_area-Encloses floor_int of_int of_count cs p =
      let q = update_all floor_int of_int of_count cs (reset_profile p) in
      area_of-Encloses q (poc_row q.hist) q.span (
        poc_row-InSpanOf q.span q.hist
          (update_all-IsSpanned floor_int of_int of_count cs (reset_profile p) refl))
