-- ===== src/Indicators/Windows.antt =====
-- A bounded deque holds the last elements that were fed to it.
use freq_trading.Base.{
  ℕ, zero, suc, ◌+◌, ◌-◌, ◌≤◌, ◌<◌, ◌≡◌, refl, ◌∙◌, ap, arith, some, List, [], ◌∷◌, ◌++◌, length,
  drop, head?, last?, get_elem?, length-append, length-drop,
}
use mathlib.Core.List.{append-nil, append_assoc}
use native.Mathlib.Nat.{zero-add, suc-add}
use freq_trading.Indicators.Defs.{append_bounded}

module _ {ℓ} {A : Type ℓ} where
  -- the deque after a list of appends
  abbrev pub feed : ℕ → List A → List A → List A
  feed m q [] = q
  feed m q (x ∷ xs) = feed m (append_bounded m x q) xs

  -- the last `m` elements
  abbrev pub last_of : ℕ → List A → List A
  last_of m xs = drop (length xs - m) xs

  drop-drop-append :
      (k j : ℕ) (xs ys : List A)
      → k ≤ length xs
      → drop j (drop k xs ++ ys) ≡ drop (k + j) (xs ++ ys)
  drop-drop-append zero j xs ys h = rw zero-add refl
  drop-drop-append (suc k) j [] ys h = elim h [ ]
  drop-drop-append (suc k) j (x ∷ xs) ys h = rw suc-add (drop-drop-append k j xs ys (omega arith))

  pub length-append_bounded : (m : ℕ) (x : A) (xs : List A) → length (append_bounded m x xs) ≤ m
  length-append_bounded m x xs = rw length-drop (omega arith)

  pub last?-append : (x : A) (xs : List A) → last? (xs ++ x ∷ []) ≡ some x
  last?-append x [] = refl
  last?-append x (y ∷ []) = refl
  last?-append x (y ∷ z ∷ xs) = last?-append x (z ∷ xs)

  head?-drop : (n : ℕ) (xs : List A) → head? (drop n xs) ≡ get_elem? xs n
  head?-drop zero [] = refl
  head?-drop zero (x ∷ xs) = refl
  head?-drop (suc n) [] = refl
  head?-drop (suc n) (x ∷ xs) = head?-drop n xs

  last?-drop : (n : ℕ) (xs : List A) → n < length xs → last? (drop n xs) ≡ last? xs
  last?-drop zero xs h = refl
  last?-drop (suc n) (x ∷ y ∷ xs) h = last?-drop n (y ∷ xs) (omega arith)
  last?-drop (suc n) (x ∷ []) h = absurd (omega arith)
  last?-drop (suc n) [] h = absurd (omega arith)

  -- Dropping the overflow early or late makes no difference.
  last_of-drop :
      (m : ℕ) (ys xs : List A) → last_of m (drop (length ys - m) ys ++ xs) ≡ last_of m (ys ++ xs)
  last_of-drop m ys xs =
      drop-drop-append (length ys - m) (length (drop (length ys - m) ys ++ xs) - m) ys xs
        (omega arith)
      ∙ ap (λ n. drop n (ys ++ xs))
          (omega (
            arith,
            length-append (drop (length ys - m) ys) xs,
            length-append ys xs,
            length-drop (length ys - m) ys,
          ))

  pub feed-eq-last_of : (m : ℕ) (q xs : List A) → length q ≤ m → feed m q xs ≡ last_of m (q ++ xs)
  feed-eq-last_of m q [] h =
      rw append-nil (ap (λ n. drop n q) (let e : 0 ≡ length q - m = omega arith in e))
  feed-eq-last_of m q (x ∷ xs) h =
      feed-eq-last_of m (append_bounded m x q) xs (length-append_bounded m x q)
      ∙ (last_of-drop m (q ++ x ∷ []) xs ∙ ap (last_of m) (append_assoc q (x ∷ []) xs))
