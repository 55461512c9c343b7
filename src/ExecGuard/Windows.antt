-- ===== src/ExecGuard/Windows.antt =====
-- The killzones as arcs of the day.
use freq_trading.Base.{
  ℕ, ◌+◌, ◌-◌, ◌%◌, ◌≡◌, ◌≤◌, ◌<◌, ◌≢◌, refl, Bool, false, ◌||◌, some, List, [], ◌∷◌, arith, ltb,
}
use freq_trading.ExecGuard.Defs.{
  Token, windows_of, in_killzone, any_window, minute_of_day, session_allows,
}

-- the minutes from `a` forward to `b` on the clock of the day
abbrev pub ahead : ℕ → ℕ → ℕ
ahead a b = (b + 1440 - a) % 1440

-- the minute is on the arc from the start to the end
abbrev pub on_arc : ℕ → ℕ × ℕ → Bool
on_arc now (start, end) = ltb (ahead start now) (ahead start end)

abbrev pub on_some_arc : ℕ → List (ℕ × ℕ) → Bool
on_some_arc now [] = false
on_some_arc now (w ∷ ws) = on_arc now w || on_some_arc now ws

-- what the pattern of the parser lets through
abbrev pub AreTimes : List Token → Type 0
AreTimes [] = Unit
AreTimes (t ∷ ts) = (t.h1 < 24) × (t.m1 < 60) × (t.h2 < 24) × (t.m2 < 60) × AreTimes ts

-- two minutes of the day that are not the same
abbrev IsArc : ℕ × ℕ → Type 0
IsArc (start, end) = (start < 1440) × (end < 1440) × (start ≢ end)

abbrev AreArcs : List (ℕ × ℕ) → Type 0
AreArcs [] = Unit
AreArcs (w ∷ ws) = IsArc w × AreArcs ws

ahead_later : (a b : ℕ) → a ≤ b → b < 1440 → ahead a b ≡ b - a
ahead_later a b h k = omega arith

ahead_earlier : (a b : ℕ) → b < a → a < 1440 → ahead a b ≡ b + 1440 - a
ahead_earlier a b h k = omega arith

in_killzone-eq-on_arc :
    (now : ℕ) (w : ℕ × ℕ) → now < 1440 → IsArc w → in_killzone now w ≡ on_arc now w
unfolding in_killzone
in_killzone-eq-on_arc now (s, e) h (p, q, n) = ground arith

windows_of-AreArcs :
    (ts : List Token) (ws : List (ℕ × ℕ)) → AreTimes ts → windows_of ts ≡ some ws → AreArcs ws
unfolding windows_of
windows_of-AreArcs [] [] h e = tt
windows_of-AreArcs [] (w ∷ ws) h e = absurd (ground arith)
windows_of-AreArcs (t ∷ ts) [] h e = absurd (ground arith)
windows_of-AreArcs (t ∷ ts) (w ∷ ws) h e = ground (arith, windows_of-AreArcs ts ws)

any_window-eq-on_some_arc :
    (now : ℕ) (ws : List (ℕ × ℕ)) → now < 1440 → AreArcs ws → any_window now ws ≡ on_some_arc now ws
unfolding any_window
any_window-eq-on_some_arc now [] h a = refl
any_window-eq-on_some_arc now (w ∷ ws) h a =
    ground (arith, in_killzone-eq-on_arc now w, any_window-eq-on_some_arc now ws)

-- With the windows of a text that parses, at least one, an instant is allowed exactly if its
-- minute of the day lies on the arc of one of them: from the start, which is included, forward to
-- the end, which is not, past midnight where the start is after the end.
pub session_allows-eq-on_some_arc :
    (ts : List Token) {w : ℕ × ℕ} {ws : List (ℕ × ℕ)} (now : ℕ)
    → AreTimes ts
    → windows_of ts ≡ some (w ∷ ws)
    → session_allows (w ∷ ws) now ≡ on_some_arc (minute_of_day now) (w ∷ ws)
unfolding session_allows
session_allows-eq-on_some_arc ts {w} {ws} now h e =
    any_window-eq-on_some_arc (minute_of_day now) (w ∷ ws) (omega arith)
      (windows_of-AreArcs ts (w ∷ ws) h e)
