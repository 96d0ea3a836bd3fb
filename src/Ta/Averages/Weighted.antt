-- ===== src/Ta/Averages/Weighted.antt =====
-- The weighted moving average against the delay line of its window (_WmaState of
-- pinelib/ta/_impl_states.py), with the sums rounded as the code rounds them.
use pinelib.Prelude.{
  ℕ, List, Option, [], arith, false, leb, length, none, refl, some, suc, true, ◌∙◌, ◌∷◌, ◌≡◌, ◌≤◌,
}
use pinelib.Ta.{Arithmetic, present, whole}
use pinelib.Ta.Window.{last_of}
use pinelib.Ta.Rolling.Delay.{IsRolling, rolling, steps, steps-rolling}
use pinelib.Ta.Averages.{WmaState, new_wma, wma_grow, wma_roll, wma_update}

module _ {F : Type 0} (ar : Arithmetic F) where
  -- The sum and the weighted sum with one value more, whose weight is its place.
  abbrev pub add_weighted : ℕ → F × F → F → F × F
  add_weighted i t x = (ar.float.add (t.0) x, ar.float.add (t.1) (ar.mul (whole ar (suc i)) x))

  -- Every weight falls by one, the oldest value leaves the sum and the new one has the last place.
  abbrev pub swap_weighted : ℕ → F × F → F → F → F × F
  swap_weighted n t x oldest = (
    ar.float.add (ar.float.sub (t.0) oldest) x,
    ar.float.add (ar.float.sub (t.1) (t.0)) (ar.mul (whole ar n) x),
  )

  -- The state of a window with its two sums.
  abbrev pub wma_of : ℕ → List F → F × F → WmaState F
  wma_of n xs t = record { limit = n; values = xs; total = t.0; weighted_total = t.1 }

  abbrev pub wma_updates : List (Option F) → WmaState F → WmaState F
  wma_updates [] s = s
  wma_updates (x ∷ xs) s = wma_updates xs (wma_update ar x s).0

  abbrev wma_step : F → WmaState F → WmaState F
  wma_step x s = (wma_update ar (some x) s).0

  wma_step-IsRolling :
      (n : ℕ) → 1 ≤ n → IsRolling add_weighted (swap_weighted n) wma_step (wma_of n) n
  unfolding wma_update wma_roll wma_grow
  wma_step-IsRolling n p = record {
    room = λ vs t x h. let within : leb n (length vs) ≡ false = ground arith in rw within refl;
    full = λ v vs t x h. let over : leb n (suc (length vs)) ≡ true = ground arith in rw over refl;
    nothing = λ t x h. absurd (omega arith);
  }

  wma_updates-steps :
      (os : List (Option F)) (s : WmaState F) → wma_updates os s ≡ steps wma_step (present os) s
  unfolding wma_update
  wma_updates-steps [] s = refl
  wma_updates-steps (none ∷ os) s = wma_updates-steps os s
  wma_updates-steps (some x ∷ os) s = wma_updates-steps os (wma_step x s)

  -- For a positive length, after any updates the weighted average's state holds the last values
  -- that are not na, with the two sums of a delay line: while fewer values than the length have
  -- come, a value is added with its place as weight; then the weighted sum loses the sum and gains
  -- the new value with the last place, and the sum loses the value that came the length before and
  -- gains the new one.
  pub wma_updates-window :
      (n : ℕ) (os : List (Option F))
      → 1 ≤ n
      → let xs = present os in
        wma_updates os (new_wma ar n)
        ≡ wma_of n
            (last_of n xs)
            (rolling add_weighted (swap_weighted n) n (whole ar 0, whole ar 0) xs)
  wma_updates-window n os p =
      wma_updates-steps os (new_wma ar n)
      ∙ steps-rolling add_weighted (swap_weighted n) wma_step (wma_of n) n (wma_step-IsRolling n p)
          (whole ar 0, whole ar 0) (present os)
