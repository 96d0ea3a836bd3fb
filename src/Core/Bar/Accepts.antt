-- ===== src/Core/Bar/Accepts.antt =====
-- Which bars the constructor accepts (Bar.validate of pinelib/core/bar.py).
use pinelib.Prelude.{
  ℕ, Option, arith, data_format_error, false, ltb, none, ok, refl, some, ◌↔◌, ◌≡◌, ◌≤◌, >>=-eq-ok,
  raise_if, subst,
}
use mathlib.Core.Option.{some-injective}
use pinelib.Prelude.Int.{ℤ, negsuc, pos, ◌≤ℤ◌}
use pinelib.Core.Value.{Float}
use pinelib.Core.Bar.{Bar, checked_close, make_bar, py_max, py_min}
use pinelib.Core.Runtime.Realtime.Bounds.{
  IsOrder, max-left, max-nan, max-right, max_least, min-left, min-nan, min-right, min_greatest,
}

module _ {F : Type 0} (fl : Float F) where
  -- The time is not negative, the close time is not before it, and open and close lie between low
  -- and high.
  pub record Fits (t : ℤ) (o h l c : F) (tc : Option ℤ) : Type 0 where
    pub time : pos 0 ≤ℤ t
    pub closes : (u : ℤ) → tc ≡ some u → t ≤ℤ u
    pub open_below : fl.lt h o ≡ false
    pub close_below : fl.lt h c ≡ false
    pub open_above : fl.lt o l ≡ false
    pub close_above : fl.lt c l ≡ false

  -- No price is NaN.
  pub record AreNumbers (o h l c : F) : Type 0 where
    pub open_number : fl.is_nan o ≡ false
    pub high_number : fl.is_nan h ≡ false
    pub low_number : fl.is_nan l ≡ false
    pub close_number : fl.is_nan c ≡ false

checked_close-eq-ok :
    (t : ℕ) (tc : Option ℤ)
    → ((u : ℤ) → tc ≡ some u → pos t ≤ℤ u)
    → (r : Option ℕ) × (checked_close t tc ≡ ok r)
unfolding checked_close
checked_close-eq-ok t none h = (none, refl)
checked_close-eq-ok t (some (negsuc n)) h = absurd (let k = h (negsuc n) refl in omega arith)
checked_close-eq-ok t (some (pos u)) h =
    let fits : ltb u t ≡ false = let k = h (pos u) refl in ground arith in (some u, rw fits refl)

checked_close-closes :
    (t : ℕ) (tc : Option ℤ) {r : Option ℕ}
    → checked_close t tc ≡ ok r
    → (u : ℤ) → tc ≡ some u
    → pos t ≤ℤ u
unfolding checked_close
checked_close-closes t none e u q = cc
checked_close-closes t (some (negsuc n)) e u q = cc
checked_close-closes t (some (pos n)) e u q =
    let fits : t ≤ n = ground arith in
    subst (λ x. pos t ≤ℤ x) (some-injective (pos n) u q) (omega arith)

module _ {F : Type 0} (fl : Float F) (ord : IsOrder fl) where
  made-Fits :
      (t : ℤ) (o h l c v : F) (tc : Option ℤ) {b : Bar F}
      → AreNumbers fl o h l c
      → make_bar fl t o h l c v tc ≡ ok b
      → Fits fl t o h l c tc
  unfolding make_bar
  made-Fits (negsuc k) o h l c v tc n e = cc
  made-Fits (pos k) o h l c v tc n e =
      let top = py_max fl o c in
      let bottom = py_min fl o c in
      let p = n.open_number in
      let q = n.close_number in
      let top_number = max-nan fl ord o c p q in
      let bottom_number = min-nan fl ord o c p q in
      let (r, a, e1) = >>=-eq-ok (checked_close k tc) _ e in
      let (_, _, e2) = >>=-eq-ok (raise_if (fl.lt h top) data_format_error) _ e1 in
      let high_bound : fl.lt h top ≡ false = ground arith in
      let low_bound : fl.lt bottom l ≡ false = ground arith in
      record {
        time = omega arith;
        closes = checked_close-closes k tc a;
        open_below =
            ord.not_lt_trans h top o n.high_number top_number p high_bound
              (max-left fl ord o c p q);
        close_below =
            ord.not_lt_trans h top c n.high_number top_number q high_bound
              (max-right fl ord o c p q);
        open_above =
            ord.not_lt_trans o bottom l p bottom_number n.low_number (min-left fl ord o c p q)
              low_bound;
        close_above =
            ord.not_lt_trans c bottom l q bottom_number n.low_number (min-right fl ord o c p q)
              low_bound;
      }

  Fits-made :
      (t : ℤ) (o h l c v : F) (tc : Option ℤ)
      → Fits fl t o h l c tc
      → (b : Bar F) × (make_bar fl t o h l c v tc ≡ ok b)
  unfolding make_bar
  Fits-made (negsuc k) o h l c v tc f = absurd (let impossible = f.time in omega arith)
  Fits-made (pos k) o h l c v tc f =
      let (r, a) = checked_close-eq-ok k tc f.closes in
      let top = max_least fl ord h o c f.open_below f.close_below in
      let bottom = min_greatest fl ord l o c f.open_above f.close_above in
      (
        record {
          time = k;
          open_price = o;
          high = h;
          low = l;
          close = c;
          volume = v;
          time_close = r;
        },
        rw (a, top, bottom) refl,
      )

  -- Over numbers that are ordered, none of them NaN, the constructor makes a bar exactly when the
  -- time is not negative, the close time is not before it, and open and close are neither above
  -- high nor below low.
  pub make_bar_iff :
      (t : ℤ) (o h l c v : F) (tc : Option ℤ)
      → AreNumbers fl o h l c
      → ((b : Bar F) × (make_bar fl t o h l c v tc ≡ ok b)) ↔ Fits fl t o h l c tc
  make_bar_iff t o h l c v tc n =
      (λ made. made-Fits t o h l c v tc n (made.1), Fits-made t o h l c v tc)
