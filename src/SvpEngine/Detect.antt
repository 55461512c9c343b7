-- ===== src/SvpEngine/Detect.antt =====
-- That each setup of `SvpEngine` enters only as described.
use freq_trading.Base.{
  ℕ, ◌≡◌, inl, inr, refl, Bool, true, false, if◌then◌else◌, not, ◌&&◌, Option, none, some, List, [],
  ◌∷◌, arith, suc, get_elem?, Bool-cases,
}
use freq_trading.Num.{Float, zero_float}
use freq_trading.Models.{
  Candle, Direction, long, short, Signal, SvpSetup, edge_rot_vah_fade, edge_rot_val_fade,
  lvn_break_long, lvn_break_short, absorb_long, absorb_short,
}
use freq_trading.Profile.Nodes.{
  ProfileLevels, Shape, balanced, upper_heavy, lower_heavy, double_peak, thin, no_shape,
}
use freq_trading.SvpEngine.Config.{SvpConfig, buffer, svp_row_size}
use freq_trading.SvpEngine.State.{SvpEngine}
use freq_trading.SvpEngine.Filters.{entry_allowed}
use freq_trading.SvpEngine.Setups.{
  open_setup, enter_setup, fade_edge, edge_rotation, is_d, break_from, lvn_break, is_heavy,
  near_node, reject_wick, absorption_proxy, try_setup, detect_setup,
}
use freq_trading.SvpEngine.Triggers.{
  permits, Absorbs, upper_wick, lower_wick, least_wick, IsTrigger, EntersOr,
}

module _ ⦃fl : Float⦄ (k : SvpConfig) (c : Candle) where
  open fl use {Carrier, lit, abs, add, sub, mul, lt, le}

  and-true : (a b : Bool) → (a && b) ≡ true → (a ≡ true) × (b ≡ true)
  and-true a b h = ground arith

  not-true : (a : Bool) → not a ≡ true → a ≡ false
  not-true a h = ground arith

  module _ (lv : ProfileLevels) (prev_close avg : Option Carrier) (e : SvpEngine) where
    enter_setup-EntersOr :
        (direction : Direction) (stop : Carrier) (setup : SvpSetup)
        → permits k c direction ≡ true
        → IsTrigger k c lv prev_close avg setup direction stop
        → EntersOr k c lv prev_close avg e (enter_setup k c lv direction stop setup e)
    unfolding enter_setup
    enter_setup-EntersOr direction stop setup h g =
        elim (Bool-cases (entry_allowed k c direction e)) [
          | inl b ↦ rw b (inr (direction, stop, setup, h, b, g, refl))
          | inr b ↦ rw b (inl refl)
        ]

    -- a guarded entry
    guarded-EntersOr :
        (test allow : Bool) (x y : Option Signal × SvpEngine)
        → (test ≡ true → allow ≡ true → EntersOr k c lv prev_close avg e x)
        → EntersOr k c lv prev_close avg e y
        → EntersOr k c lv prev_close avg e (if test && allow then x else y)
    guarded-EntersOr true true x y h g = h refl refl
    guarded-EntersOr true false x y h g = g
    guarded-EntersOr false allow x y h g = g

    if-EntersOr :
        (b : Bool) (x y : Option Signal × SvpEngine)
        → (b ≡ true → EntersOr k c lv prev_close avg e x)
        → (b ≡ false → EntersOr k c lv prev_close avg e y)
        → EntersOr k c lv prev_close avg e (if b then x else y)
    if-EntersOr true x y h g = h refl
    if-EntersOr false x y h g = g refl

    is_d-balanced : (s : Shape) → is_d k c lv s ≡ true → s ≡ balanced
    is_d-balanced balanced h = refl
    is_d-balanced upper_heavy h = absurd (ground arith)
    is_d-balanced lower_heavy h = absurd (ground arith)
    is_d-balanced double_peak h = absurd (ground arith)
    is_d-balanced thin h = absurd (ground arith)
    is_d-balanced no_shape h = absurd (ground arith)

    edge_rotation-EntersOr :
        k.enable_edge_rotation ≡ true → EntersOr k c lv prev_close avg e (edge_rotation k c lv e)
    unfolding edge_rotation fade_edge
    edge_rotation-EntersOr on =
        let high = le lv.vah c.high in
        let low = le c.low lv.val in
        let inside = lt lv.val c.close && lt c.close lv.vah in
        let fade_high = enter_setup k c lv short (add lv.vah (buffer k)) edge_rot_vah_fade e in
        let fade_low = enter_setup k c lv long (sub lv.val (buffer k)) edge_rot_val_fade e in
        if-EntersOr (is_d k c lv lv.shape) (fade_edge k c lv e) (none, e)
          (λ d.
            guarded-EntersOr ((high && not low) && inside) k.allow_short fade_high
              (if ((low && not high) && inside) && k.allow_long then fade_low else (none, e))
              (λ g a.
                let (hl, i) = and-true (high && not low) inside g in
                let (h, l) = and-true high (not low) hl in
                enter_setup-EntersOr short (add lv.vah (buffer k)) edge_rot_vah_fade a (
                  on,
                  refl,
                  refl,
                  is_d-balanced lv.shape d,
                  h,
                  not-true low l,
                  and-true (lt lv.val c.close) (lt c.close lv.vah) i,
                ))
              (guarded-EntersOr ((low && not high) && inside) k.allow_long fade_low (none, e)
                (λ g a.
                  let (lh, i) = and-true (low && not high) inside g in
                  let (l, h) = and-true low (not high) lh in
                  enter_setup-EntersOr long (sub lv.val (buffer k)) edge_rot_val_fade a (
                    on,
                    refl,
                    refl,
                    is_d-balanced lv.shape d,
                    l,
                    not-true high h,
                    and-true (lt lv.val c.close) (lt c.close lv.vah) i,
                  ))
                (inl refl)))
          (λ _. inl refl)

    break_from-EntersOr :
        (prev : Carrier) (lvns : List Carrier)
        → k.enable_lvn ≡ true
        → prev_close ≡ some prev
        → ((i : ℕ) (lvn : Carrier)
            → get_elem? lvns i ≡ some lvn
            → (j : ℕ) × (get_elem? lv.lvns j ≡ some lvn))
        → EntersOr k c lv prev_close avg e (break_from k c lv prev lvns e)
    unfolding break_from
    break_from-EntersOr prev [] on p m = inl refl
    break_from-EntersOr prev (lvn ∷ lvns) on p m =
        let up = enter_setup k c lv long (sub lvn (buffer k)) lvn_break_long e in
        let down = enter_setup k c lv short (add lvn (buffer k)) lvn_break_short e in
        let rest = break_from k c lv prev lvns e in
        let (j, q) = m 0 lvn refl in
        guarded-EntersOr (le prev lvn && lt lvn c.close) k.allow_long up
          (if (le lvn prev && lt c.close lvn) && k.allow_short then down else rest)
          (λ g a.
            let (x, y) = and-true (le prev lvn) (lt lvn c.close) g in
            enter_setup-EntersOr long (sub lvn (buffer k)) lvn_break_long a
              (on, refl, (j, prev, lvn, p, q, refl, x, y)))
          (guarded-EntersOr (le lvn prev && lt c.close lvn) k.allow_short down rest
            (λ g a.
              let (x, y) = and-true (le lvn prev) (lt c.close lvn) g in
              enter_setup-EntersOr short (add lvn (buffer k)) lvn_break_short a
                (on, refl, (j, prev, lvn, p, q, refl, x, y)))
            (break_from-EntersOr prev lvns on p (λ i x h. m (suc i) x h)))

    lvn_break-EntersOr :
        (o : Option Carrier)
        → k.enable_lvn ≡ true
        → prev_close ≡ o
        → EntersOr k c lv prev_close avg e (lvn_break k c lv o e)
    unfolding lvn_break
    lvn_break-EntersOr none on p = inl refl
    lvn_break-EntersOr (some prev) on p = break_from-EntersOr prev lv.lvns on p (λ i x h. (i, h))

    reject_wick-EntersOr :
        k.enable_absorption_proxy ≡ true
        → Absorbs k c lv avg
        → EntersOr k c lv prev_close avg e (reject_wick k c lv (abs (sub c.close c.open_price)) e)
    unfolding reject_wick
    reject_wick-EntersOr on b =
        let up = enter_setup k c lv long (sub c.low (buffer k)) absorb_long e in
        let down = enter_setup k c lv short (add c.high (buffer k)) absorb_short e in
        guarded-EntersOr
          (le (least_wick k c) (lower_wick k c) && le (upper_wick k c) (lower_wick k c))
          k.allow_long up
          (if (le (least_wick k c) (upper_wick k c) && lt (lower_wick k c) (upper_wick k c))
              && k.allow_short
            then down
            else (none, e))
          (λ g a.
            let (x, y) =
              and-true (le (least_wick k c) (lower_wick k c)) (le (upper_wick k c) (lower_wick k c))
                g in
            enter_setup-EntersOr long (sub c.low (buffer k)) absorb_long a
              (on, refl, refl, b, x, y))
          (guarded-EntersOr
            (le (least_wick k c) (upper_wick k c) && lt (lower_wick k c) (upper_wick k c))
            k.allow_short down (none, e)
            (λ g a.
              let (x, y) =
                and-true (le (least_wick k c) (upper_wick k c))
                  (lt (lower_wick k c) (upper_wick k c)) g in
              enter_setup-EntersOr short (add c.high (buffer k)) absorb_short a
                (on, refl, refl, b, x, y))
            (inl refl))

    near_node_sound :
        (row : Carrier) (hs : List Carrier)
        → near_node k c lv row hs ≡ true
        → (i : ℕ) × (node : Carrier) × (get_elem? hs i ≡ some node)
          × (le (abs (sub c.close node)) row ≡ true)
    near_node_sound row [] h = absurd (ground arith)
    near_node_sound row (x ∷ hs) h = elim (Bool-cases (le (abs (sub c.close x)) row)) [
      | inl b ↦ (0, x, refl, b)
      | inr b ↦ let (i, node, g, l) = near_node_sound row hs (ground arith) in (suc i, node, g, l)
    ]

    is_heavy_sound :
        (o : Option Carrier)
        → is_heavy k c lv o ≡ true
        → (a : Carrier) × (o ≡ some a)
          × (le a zero_float ≡ false)
          × (lt c.volume (mul k.absorb_vol_mult a) ≡ false)
    is_heavy_sound none h = absurd (ground arith)
    is_heavy_sound (some a) h = (a, refl, ground arith, ground arith)

    absorption_proxy-EntersOr :
        k.enable_absorption_proxy ≡ true
        → EntersOr k c lv prev_close avg e (absorption_proxy k c lv avg e)
    unfolding absorption_proxy
    absorption_proxy-EntersOr on =
        let body = abs (sub c.close c.open_price) in
        let wide = lt (mul k.absorb_body_ticks k.tick_size) body in
        let row = svp_row_size k in
        let far = not (near_node k c lv row lv.hvns) in
        let final = reject_wick k c lv body e in
        if-EntersOr (not (is_heavy k c lv avg)) (none, e)
          (if wide then (none, e) else if far then (none, e) else final) (λ _. inl refl)
          (λ heavy.
            if-EntersOr wide (none, e) (if far then (none, e) else final) (λ _. inl refl)
              (λ small.
                if-EntersOr far (none, e) final (λ _. inl refl)
                  (λ close.
                    let (a, p, x, y) = is_heavy_sound avg (ground arith) in
                    let (i, node, g, l) = near_node_sound row lv.hvns (ground arith) in
                    reject_wick-EntersOr on (a, i, node, p, x, y, small, g, l))))

  -- a setup whose outcome is such if it is enabled, before others whose outcome is such
  try_setup-EntersOr :
      (lv : ProfileLevels) (prev_close avg : Option Carrier) (enabled : Bool)
      (f g : SvpEngine → Option Signal × SvpEngine) (e : SvpEngine)
      → (enabled ≡ true → EntersOr k c lv prev_close avg e (f e))
      → EntersOr k c lv prev_close avg e (g e)
      → EntersOr k c lv prev_close avg e (try_setup k c lv enabled f g e)
  unfolding open_setup
  try_setup-EntersOr lv prev_close avg false f g e h l = l
  try_setup-EntersOr lv prev_close avg true f g e h l = elim (h refl) [
    | inl p ↦ rw p l
    | inr (d, stop, setup, a, b, q, p) ↦ rw p (inr (d, stop, setup, a, b, q, refl))
  ]

  pub detect_setup-EntersOr :
      (lv : ProfileLevels) (prev_close avg : Option Carrier) (e : SvpEngine)
      → EntersOr k c lv prev_close avg e (detect_setup k c lv prev_close avg e)
  unfolding detect_setup
  detect_setup-EntersOr lv prev_close avg e =
      let absorb =
        try_setup k c lv k.enable_absorption_proxy (absorption_proxy k c lv avg) (λ f. (none, f)) in
      try_setup-EntersOr lv prev_close avg k.enable_edge_rotation (edge_rotation k c lv)
        (try_setup k c lv k.enable_lvn (lvn_break k c lv prev_close) absorb) e
        (edge_rotation-EntersOr lv prev_close avg e)
        (try_setup-EntersOr lv prev_close avg k.enable_lvn (lvn_break k c lv prev_close) absorb e
          (λ on. lvn_break-EntersOr lv prev_close avg e prev_close on refl)
          (try_setup-EntersOr lv prev_close avg k.enable_absorption_proxy
            (absorption_proxy k c lv avg) (λ f. (none, f)) e
            (absorption_proxy-EntersOr lv prev_close avg e) (inl refl)))
