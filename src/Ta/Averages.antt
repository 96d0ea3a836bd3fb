-- ===== src/Ta/Averages.antt =====
-- Weighted averages (_WmaState and _HmaState of pinelib/ta/_impl_states.py).
pub mod Weighted
use pinelib.Prelude.{
  ℕ, Bool, List, Option, [], if◌then◌else◌, leb, length, ltb, max, none, some, suc, ◌+◌, ◌*◌, ◌/◌,
  ◌++◌, ◌∷◌, zero,
}
use pinelib.Core.Value.{Float}
use pinelib.Ta.{Arithmetic, pushed, whole}

pub record WmaState (F : Type 0) : Type 0 where
  pub limit : ℕ
  pub values : List F
  pub total : F
  pub weighted_total : F

pub record HmaState (F : Type 0) : Type 0 where
  pub limit : ℕ
  pub half_length : ℕ
  pub sqrt_length : ℕ
  pub wma_half_vals : List F
  pub wma_full_vals : List F
  pub results : List F

module _ {F : Type 0} (ar : Arithmetic F) where
  abbrev pub new_wma : ℕ → WmaState F
  new_wma n = record { limit = n; values = []; total = whole ar 0; weighted_total = whole ar 0 }

  -- A value that takes the place of the oldest; a length is positive, so there is one.
  unfoldable pub wma_roll : F → WmaState F → WmaState F
  wma_roll number s = elim s.values [
    | [] ↦ s
    | oldest ∷ values ↦ record s {
      values = values ++ number ∷ [];
      weighted_total =
          ar.float.add (ar.float.sub s.weighted_total s.total) (ar.mul (whole ar s.limit) number);
      total = ar.float.add (ar.float.sub s.total oldest) number;
    }
  ]

  unfoldable pub wma_grow : F → WmaState F → WmaState F
  wma_grow number s = record s {
    values = s.values ++ number ∷ [];
    weighted_total =
        ar.float.add s.weighted_total (ar.mul (whole ar (suc (length s.values))) number);
    total = ar.float.add s.total number;
  }

  unfoldable pub wma_update : Option F → WmaState F → WmaState F × Option F
  unfolding wma_roll wma_grow
  wma_update none s = (s, none)
  wma_update (some number) s =
      let t = if leb s.limit (length s.values) then wma_roll number s else wma_grow number s in
      (
        t,
        if ltb (length t.values) s.limit
            then none
            else some (
                ar.div t.weighted_total (ar.div (whole ar (s.limit * (s.limit + 1))) (whole ar 2))),
      )

  -- `[w * v for w, v in zip(range(k, …), values)]`
  abbrev pub weighted_terms : ℕ → List F → List F
  weighted_terms k [] = []
  weighted_terms k (x ∷ xs) = ar.mul (whole ar k) x ∷ weighted_terms (suc k) xs

  -- `sum(range(1, count + 1))`
  abbrev pub weight_sum : ℕ → ℕ → ℕ
  weight_sum k zero = 0
  weight_sum k (suc count) = k + weight_sum (suc k) count

  -- `sum(w * v …) / sum(wts)`
  unfoldable pub weighted_mean : List F → F
  weighted_mean xs = ar.div (ar.sum (weighted_terms 1 xs)) (whole ar (weight_sum 1 (length xs)))

  -- The lengths that `__post_init__` sets.
  unfoldable pub new_hma : ℕ → HmaState F
  new_hma n = record {
    limit = n;
    half_length = max 1 (n / 2);
    sqrt_length = max 1 (ar.int_sqrt n);
    wma_half_vals = [];
    wma_full_vals = [];
    results = [];
  }

  unfoldable pub hma_update : Option F → HmaState F → HmaState F × Option F
  unfolding weighted_mean
  hma_update none s = (s, none)
  hma_update (some number) s =
      let half = pushed s.half_length s.wma_half_vals number in
      let full = pushed s.limit s.wma_full_vals number in
      let raw = ar.float.sub (ar.mul (whole ar 2) (weighted_mean half)) (weighted_mean full) in
      let results = pushed s.sqrt_length s.results raw in
      let waiting : HmaState F = record s { wma_half_vals = half; wma_full_vals = full } in
      if ltb (length full) s.limit then (waiting, none) else (
        record waiting { results = results },
        if ltb (length results) s.sqrt_length then none else some (weighted_mean results),
      )
