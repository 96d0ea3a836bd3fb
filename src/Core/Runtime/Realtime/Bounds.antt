-- ===== src/Core/Runtime/Realtime/Bounds.antt =====
-- A tick keeps the active bar a valid bar that covers the tick's price.
use pinelib.Prelude.{Option-cases, arith, false, inl, inr, ok, refl, true, ◌≡◌}
use pinelib.Core.Value.{Float}
use pinelib.Core.Bar.{Bar, IsValid, make_bar, py_max, py_min}
use pinelib.Core.Runtime.State.{TickUpdate}
use pinelib.Core.Runtime.Realtime.{ticked_bar}

-- IEEE 754 comparison of doubles that are not NaN.
pub record IsOrder {F : Type 0} (fl : Float F) : Type 0 where
  pub lt_asymm :
      (a b : F) → fl.is_nan a ≡ false → fl.is_nan b ≡ false → fl.lt a b ≡ true → fl.lt b a ≡ false
  pub lt_irrefl : (a : F) → fl.is_nan a ≡ false → fl.lt a a ≡ false
  pub not_lt_trans :
      (a b c : F)
      → fl.is_nan a ≡ false
      → fl.is_nan b ≡ false
      → fl.is_nan c ≡ false
      → fl.lt a b ≡ false
      → fl.lt b c ≡ false
      → fl.lt a c ≡ false

-- No field of the bar is NaN.
pub record IsNumeric {F : Type 0} (fl : Float F) (b : Bar F) : Type 0 where
  pub open_price : fl.is_nan b.open_price ≡ false
  pub high : fl.is_nan b.high ≡ false
  pub low : fl.is_nan b.low ≡ false
  pub close : fl.is_nan b.close ≡ false

module _ {F : Type 0} (fl : Float F) (o : IsOrder fl) where
  pub max-nan :
      (a b : F) → fl.is_nan a ≡ false → fl.is_nan b ≡ false → fl.is_nan (py_max fl a b) ≡ false
  max-nan a b p q = ground arith

  pub min-nan :
      (a b : F) → fl.is_nan a ≡ false → fl.is_nan b ≡ false → fl.is_nan (py_min fl a b) ≡ false
  min-nan a b p q = ground arith

  pub max-left :
      (a b : F) → fl.is_nan a ≡ false → fl.is_nan b ≡ false → fl.lt (py_max fl a b) a ≡ false
  max-left a b p q = ground (arith, o.lt_asymm a b p q, o.lt_irrefl a p)

  pub max-right :
      (a b : F) → fl.is_nan a ≡ false → fl.is_nan b ≡ false → fl.lt (py_max fl a b) b ≡ false
  max-right a b p q = ground (arith, o.lt_irrefl b q)

  pub max_least :
      (c a b : F) → fl.lt c a ≡ false → fl.lt c b ≡ false → fl.lt c (py_max fl a b) ≡ false
  max_least c a b p q = ground arith

  pub min-left :
      (a b : F) → fl.is_nan a ≡ false → fl.is_nan b ≡ false → fl.lt a (py_min fl a b) ≡ false
  min-left a b p q = ground (arith, o.lt_asymm b a q p, o.lt_irrefl a p)

  pub min-right :
      (a b : F) → fl.is_nan a ≡ false → fl.is_nan b ≡ false → fl.lt b (py_min fl a b) ≡ false
  min-right a b p q = ground (arith, o.lt_irrefl b q)

  pub min_greatest :
      (c a b : F) → fl.lt a c ≡ false → fl.lt b c ≡ false → fl.lt (py_min fl a b) c ≡ false
  min_greatest c a b p q = ground arith

  ticked_high :
      (b : Bar F) (p : F)
      → IsNumeric fl b
      → fl.is_nan p ≡ false
      → fl.lt b.high (py_max fl b.open_price b.close) ≡ false
      → fl.lt (py_max fl b.high p) (py_max fl b.open_price p) ≡ false
  ticked_high b p n q h =
      let hn = max-nan b.high p n.high q in
      max_least (py_max fl b.high p) b.open_price p
        (o.not_lt_trans _ b.high _ hn n.high n.open_price (max-left b.high p n.high q) (
          o.not_lt_trans _ (py_max fl b.open_price b.close) _ n.high
            (max-nan b.open_price b.close n.open_price n.close) n.open_price h
            (max-left b.open_price b.close n.open_price n.close)))
        (max-right b.high p n.high q)

  ticked_low :
      (b : Bar F) (p : F)
      → IsNumeric fl b
      → fl.is_nan p ≡ false
      → fl.lt (py_min fl b.open_price b.close) b.low ≡ false
      → fl.lt (py_min fl b.open_price p) (py_min fl b.low p) ≡ false
  ticked_low b p n q h =
      let ln = min-nan b.low p n.low q in
      min_greatest (py_min fl b.low p) b.open_price p
        (o.not_lt_trans b.open_price b.low (py_min fl b.low p) n.open_price n.low ln
          (o.not_lt_trans b.open_price (py_min fl b.open_price b.close) b.low n.open_price
            (min-nan b.open_price b.close n.open_price n.close) n.low
            (min-left b.open_price b.close n.open_price n.close) h)
          (min-left b.low p n.low q))
        (min-right b.low p n.low q)

  -- The bar that a tick makes.
  pub record Ticked (tick : TickUpdate F) (b b' : Bar F) : Type 0 where
    pub valid : IsValid fl b'
    pub same_open : b'.open_price ≡ b.open_price
    pub same_time : b'.time ≡ b.time
    pub same_close_time : b'.time_close ≡ b.time_close
    pub last_price : b'.close ≡ tick.price
    pub high_covers : fl.lt b'.high tick.price ≡ false
    pub high_grows : fl.lt b'.high b.high ≡ false
    pub low_covers : fl.lt tick.price b'.low ≡ false
    pub low_falls : fl.lt b.low b'.low ≡ false

  abbrev pub updated_bar : TickUpdate F → Bar F → Bar F
  updated_bar tick b = record b {
    high = py_max fl b.high tick.price;
    low = py_min fl b.low tick.price;
    close = tick.price;
    volume = fl.add b.volume tick.volume;
  }

  pub ticked_bar_total :
      (tick : TickUpdate F) (b : Bar F)
      → IsValid fl b
      → IsNumeric fl b
      → fl.is_nan tick.price ≡ false
      → ticked_bar fl tick b ≡ ok (updated_bar tick b)
  unfolding ticked_bar make_bar
  ticked_bar_total tick b v n q =
      let th = ticked_high b tick.price n q v.high_bound in
      let tl = ticked_low b tick.price n q v.low_bound in
      elim (Option-cases b.time_close) [
        | inl x ↦ ground arith
        | inr (u, eu) ↦ ground (arith, v.close_time u eu)
      ]

  pub updated_bar-Ticked :
      (tick : TickUpdate F) (b : Bar F)
      → IsValid fl b
      → IsNumeric fl b
      → fl.is_nan tick.price ≡ false
      → Ticked tick b (updated_bar tick b)
  updated_bar-Ticked tick b v n q = record {
    valid = record {
      high_bound = ticked_high b tick.price n q v.high_bound;
      low_bound = ticked_low b tick.price n q v.low_bound;
      close_time = v.close_time;
    };
    same_open = refl;
    same_time = refl;
    same_close_time = refl;
    last_price = refl;
    high_covers = max-right b.high tick.price n.high q;
    high_grows = max-left b.high tick.price n.high q;
    low_covers = min-right b.low tick.price n.low q;
    low_falls = min-left b.low tick.price n.low q;
  }
