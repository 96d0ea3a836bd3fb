-- ===== src/Core/Bar.antt =====
-- OHLCV bars (pinelib/core/bar.py). Times are UTC milliseconds; a bar that exists has passed
-- `validate`, so its times are natural numbers.
pub mod Accepts
use pinelib.Prelude.{
  ℕ, Option, Result, arith, data_format_error, false, if◌then◌else◌, ltb, none, ok, raise, raise_if,
  some, ◌>>=◌, ◌>>◌, ◌≡◌, ◌≤◌,
}
use pinelib.Prelude.Int.{ℤ, negsuc, pos}
use pinelib.Core.Value.{Float}

pub record Bar (F : Type 0) : Type 0 where
  pub time : ℕ
  pub open_price : F
  pub high : F
  pub low : F
  pub close : F
  pub volume : F
  pub time_close : Option ℕ

-- The test of `time_close` against `time`.
unfoldable pub checked_close : ℕ → Option ℤ → Result (Option ℕ)
checked_close t none = ok none
checked_close t (some (negsuc _)) = raise data_format_error
checked_close t (some (pos u)) = if ltb u t then raise data_format_error else ok (some u)

module _ {F : Type 0} (fl : Float F) where
  -- Python's max and min keep the first of two values that compare neither way.
  abbrev pub py_max : F → F → F
  py_max a b = if fl.lt a b then b else a

  abbrev pub py_min : F → F → F
  py_min a b = if fl.lt b a then b else a

  -- `Bar(...)`, which validates.
  unfoldable pub make_bar : ℤ → F → F → F → F → F → Option ℤ → Result (Bar F)
  unfolding checked_close
  make_bar (negsuc _) o h l c v tc = raise data_format_error
  make_bar (pos t) o h l c v tc = do
    close_time ← checked_close t tc
    raise_if (fl.lt h (py_max o c)) data_format_error
    raise_if (fl.lt (py_min o c) l) data_format_error
    ok (record {
      time = t;
      open_price = o;
      high = h;
      low = l;
      close = c;
      volume = v;
      time_close = close_time;
    })

  unfoldable pub with_time_close : ℤ → Bar F → Result (Bar F)
  with_time_close tc b = make_bar (pos b.time) b.open_price b.high b.low b.close b.volume (some tc)

  -- What `validate` establishes.
  pub record IsValid (b : Bar F) : Type 0 where
    pub high_bound : fl.lt b.high (py_max b.open_price b.close) ≡ false
    pub low_bound : fl.lt (py_min b.open_price b.close) b.low ≡ false
    pub close_time : (u : ℕ) → b.time_close ≡ some u → b.time ≤ u
