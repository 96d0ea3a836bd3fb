-- ===== src/Ta/Oscillators.antt =====
-- Oscillators and other states with a window of changes (pinelib/ta/_impl_states.py).
pub mod Volume
pub mod Momentum
pub mod Differences
use pinelib.Prelude.{
  any, not, is_some, ℕ, Bool, List, Option, [], any, drop, false, if◌then◌else◌, is_some, last?,
  leb, length, ltb, map, none, not, some, suc, true, ◌++◌, ◌||◌, ◌∷◌,
}
use pinelib.Core.Value.{Float}
use pinelib.Core.Bar.{py_max}
use pinelib.Ta.{Arithmetic, gt, pushed, whole, present}

-- _CciState, _MeanDevState and _CorrelationState are their windows.
pub record CciState (F : Type 0) : Type 0 where
  pub limit : ℕ
  pub typical_prices : List F

pub record MeanDevState (F : Type 0) : Type 0 where
  pub limit : ℕ
  pub values : List (Option F)

pub record CorrelationState (F : Type 0) : Type 0 where
  pub limit : ℕ
  pub values1 : List (Option F)
  pub values2 : List (Option F)

module _ {F : Type 0} (ar : Arithmetic F) where
  -- `sum(xs) / length`
  abbrev pub mean_over : ℕ → List F → F
  mean_over n xs = ar.div (ar.sum xs) (whole ar n)

  -- `sum(abs(m - v) for v in values) / length`
  abbrev pub deviation_from : ℕ → F → List F → F
  deviation_from n m values = mean_over n (map (λ v. ar.abs (ar.float.sub m v)) values)

  -- `(h + low_value + c) / 3.0`
  abbrev pub typical_price : F → F → F → F
  typical_price h low c = ar.div (ar.float.add (ar.float.add h low) c) (whole ar 3)

  unfoldable pub cci_update : Option F → Option F → Option F → CciState F → CciState F × Option F
  cci_update (some h) (some low) (some c) s =
      let tp = typical_price h low c in
      let prices = pushed s.limit s.typical_prices tp in
      let sma_tp = mean_over s.limit prices in
      let mean_dev = deviation_from s.limit tp prices in
      let scale = ar.div (whole ar 15) (whole ar 1000) in
      (
        record s { typical_prices = prices },
        if ltb (length prices) s.limit || ar.float.is_zero mean_dev
            then none
            else some (ar.div (ar.float.sub tp sma_tp) (ar.mul scale mean_dev)),
      )
  cci_update (some h) (some low) none s = (s, none)
  cci_update (some h) none c s = (s, none)
  cci_update none low c s = (s, none)

  -- The last value, the mean and the mean deviation from it.
  unfoldable pub mean_dev_update : Option F → MeanDevState F → MeanDevState F × Option (F × F × F)
  mean_dev_update value s =
      let values = pushed s.limit s.values value in
      let nums = present values in
      let mean = mean_over s.limit nums in
      (
        record s { values = values },
        elim (last? nums) [
          | none ↦ none
          | some newest ↦
              if ltb (length values) s.limit || any (λ v. not (is_some v)) values
              then none
              else some
                  (newest, mean, mean_over s.limit (map (λ v. ar.abs (ar.float.sub v mean)) nums))
        ],
      )

  -- `[x - m for x in xs]`
  abbrev pub centred : F → List F → List F
  centred m xs = map (λ x. ar.float.sub x m) xs

  -- `[x * y for x, y in zip(xs, ys)]`
  abbrev pub zip_products : List F → List F → List F
  zip_products [] ys = []
  zip_products (x ∷ xs) [] = []
  zip_products (x ∷ xs) (y ∷ ys) = ar.mul x y ∷ zip_products xs ys

  unfoldable pub correlation_value : ℕ → List F → List F → Option F
  correlation_value n xs ys =
      let dx = centred (mean_over n xs) xs in
      let dy = centred (mean_over n ys) ys in
      let denx = ar.sum (map ar.squared dx) in
      let deny = ar.sum (map ar.squared dy) in
      if ar.float.is_zero denx || ar.float.is_zero deny
      then none
      else some (ar.div (ar.sum (zip_products dx dy)) (ar.sqrt (ar.mul denx deny)))

  unfoldable pub correlation_update :
      Option F → Option F → CorrelationState F → CorrelationState F × Option F
  unfolding correlation_value
  correlation_update value1 value2 s =
      let values1 = pushed s.limit s.values1 value1 in
      let values2 = pushed s.limit s.values2 value2 in
      let xs = present values1 in
      let ys = present values2 in
      (
        record s { values1 = values1; values2 = values2 },
        if ltb (length values1) s.limit
              || any (λ v. not (is_some v)) values1
              || any (λ v. not (is_some v)) values2
            then none
            else correlation_value s.limit xs ys,
      )
