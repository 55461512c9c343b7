-- ===== src/Mtf/Fold.antt =====
-- A bucket of the higher timeframe is the fold of its bars.
use freq_trading.Base.{
  ℕ, ◌+◌, ◌*◌, ◌≤◌, ◌<◌, ◌≡◌, ◌≢◌, refl, true, some, List, [], ◌∷◌, arith, ◌∙◌, ap, subst, sym,
}
use freq_trading.Num.{Float, max, min}
use freq_trading.Models.{Candle}
use freq_trading.Session.{minute}
use freq_trading.Mtf.Defs.{
  TimeframeAggregator, valid_minutes, bucket, start_bucket, snapshot, fold_bar, update_aggregator,
  developing,
}

valid_minutes_bounds : (m : ℕ) → valid_minutes m ≡ true → (1 ≤ m) × (m ≤ 1440)
unfolding valid_minutes
valid_minutes_bounds m h = ground arith

-- With the minutes that the constructor accepts, an instant lies in its bucket: not before its
-- opening, and less than its length after it.
bucket_bounds :
    (m ts : ℕ) → valid_minutes m ≡ true → (bucket m ts ≤ ts) × (ts < bucket m ts + m * minute)
unfolding bucket
bucket_bounds m ts h = let (a, b) = valid_minutes_bounds m h in ground arith

module _ ⦃fl : Float⦄ where
  open fl use {Carrier, add}

  abbrev pub highest : Carrier → List Candle → Carrier
  highest x [] = x
  highest x (c ∷ cs) = highest (max x c.high) cs

  abbrev pub lowest : Carrier → List Candle → Carrier
  lowest x [] = x
  lowest x (c ∷ cs) = lowest (min x c.low) cs

  abbrev pub final_close : Carrier → List Candle → Carrier
  final_close x [] = x
  final_close x (c ∷ cs) = final_close c.close cs

  abbrev pub total_volume : Carrier → List Candle → Carrier
  total_volume x [] = x
  total_volume x (c ∷ cs) = total_volume (add x c.volume) cs

  -- all the bars lie in one bucket
  abbrev pub AllIn : (minutes k : ℕ) → List Candle → Type 0
  AllIn m k [] = Unit
  AllIn m k (c ∷ cs) = (bucket m c.ts.micros ≡ k) × AllIn m k cs

  -- the aggregator after bars
  pub feed_bars : List Candle → TimeframeAggregator → TimeframeAggregator
  feed_bars [] a = a
  feed_bars (c ∷ cs) a = feed_bars cs (update_aggregator c a).1

  -- the candle of a bucket with these bars
  abbrev pub folded : ℕ → Candle → List Candle → Candle
  folded k c cs = record {
    ts = record { aware = true; micros = k };
    open_price = c.open_price;
    high = highest c.high cs;
    low = lowest c.low cs;
    close = final_close c.close cs;
    volume = total_volume c.volume cs;
  }

  update_aggregator_same :
      (k : ℕ) (c : Candle) (a : TimeframeAggregator)
      → a.key ≡ some k
      → bucket a.minutes c.ts.micros ≡ k
      → (update_aggregator c a).1 ≡ fold_bar c a
  unfolding update_aggregator
  update_aggregator_same k c a h b = ground arith

  feed_bars_same :
      (k : ℕ) (cs : List Candle) (a : TimeframeAggregator)
      → a.key ≡ some k
      → AllIn a.minutes k cs
      → feed_bars cs a ≡ record a {
        h = highest a.h cs;
        l = lowest a.l cs;
        c = final_close a.c cs;
        v = total_volume a.v cs;
      }
  unfolding feed_bars fold_bar
  feed_bars_same k [] a h b = refl
  feed_bars_same k (c ∷ cs) a h b =
      rw (update_aggregator_same k c a h b.0) (feed_bars_same k cs (fold_bar c a) h b.1)

  update_aggregator_new :
      (k : ℕ) (c : Candle) (a : TimeframeAggregator)
      → bucket a.minutes c.ts.micros ≡ k
      → a.key ≢ some k
      → (update_aggregator c a).1 ≡ start_bucket k c a
  unfolding update_aggregator
  update_aggregator_new k c a b h = ground arith

  feed_bars_new :
      (k : ℕ) (c : Candle) (cs : List Candle) (a : TimeframeAggregator)
      → a.key ≢ some k
      → AllIn a.minutes k (c ∷ cs)
      → let f = feed_bars (c ∷ cs) a in
        (f.minutes ≡ a.minutes) × (f.key ≡ some k) × (snapshot k f ≡ folded k c cs)
  unfolding feed_bars start_bucket snapshot
  feed_bars_new k c cs a h b =
      let e : feed_bars (c ∷ cs) a ≡ record (start_bucket k c a) {
        h = highest c.high cs;
        l = lowest c.low cs;
        c = final_close c.close cs;
        v = total_volume c.volume cs;
      } =
        ap (feed_bars cs) (update_aggregator_new k c a b.0 h)
        ∙ feed_bars_same k cs (start_bucket k c a) refl b.1 in
      subst (λ f. (f.minutes ≡ a.minutes) × (f.key ≡ some k) × (snapshot k f ≡ folded k c cs))
        (sym e) (refl, refl, refl)

  -- Bars of one bucket, the first of them in a new bucket, leave a developing candle that is their
  -- fold: first open, highest high, lowest low, last close, and the volumes added up. The first bar
  -- of another bucket after them makes the aggregator return exactly that candle.
  pub completed_bucket :
      (k : ℕ) (c : Candle) (cs : List Candle) (next : Candle) (a : TimeframeAggregator)
      → a.key ≢ some k
      → AllIn a.minutes k (c ∷ cs)
      → bucket a.minutes next.ts.micros ≢ k
      → (developing (feed_bars (c ∷ cs) a) ≡ some (folded k c cs))
        × ((update_aggregator next (feed_bars (c ∷ cs) a)).0 ≡ some (folded k c cs))
  unfolding developing update_aggregator
  completed_bucket k c cs next a h b n = let (m, q, f) = feed_bars_new k c cs a h b in ground arith
