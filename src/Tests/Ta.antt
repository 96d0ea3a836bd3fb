-- ===== src/Tests/Ta.antt =====
-- Runs of the indicators on concrete inputs, over natural numbers.
use pinelib.Prelude.{
  ℕ, List, Option, [], arith, nat_eq, none, ok, refl, some, true, ◌*◌, ◌+◌, ◌/◌, ◌∷◌, ◌≡◌, ◌-◌,
}
use pinelib.Core.Bar.{py_max, py_min}
use pinelib.Ta.{Arithmetic, missing, number}
use pinelib.Ta.Sar.{IsBounded, new_sar, sar_updates, sar_updates-bound}
use pinelib.Ta.Extremes.{
  IsGreatest, extreme_updates, highest_update, highest_update-IsGreatest, lowest_update,
  lowest_update-IsGreatest, new_extreme, reversed,
}
use pinelib.Ta.Rolling.{new_source_mfi, new_variance, new_vwma}
use pinelib.Ta.Rolling.Sums.{
  variance_of, variance_states, variance_states-window, vwma_of, vwma_updates, vwma_updates-window,
}
use pinelib.Ta.Rolling.Flows.{source_mfi_of, source_mfi_updates, source_mfi_updates-window}
use pinelib.Ta.Averages.{new_wma}
use pinelib.Ta.Averages.Weighted.{wma_of, wma_updates, wma_updates-window}
use pinelib.Ta.Oscillators.Differences.{
  change_update, change_update-value_before, change_updates, new_prev,
}
use pinelib.Ta.Moving.{new_sma, sma_update}
use pinelib.Ta.Moving.Mean.{sma_update-mean, sma_updates}
use pinelib.Tests.Data.{whole, whole-IsOrder}

abbrev sum : List ℕ → ℕ
sum [] = 0
sum (x ∷ xs) = x + sum xs

abbrev naturals : Arithmetic ℕ
naturals = record {
  float = whole;
  mul = λ a b. a * b;
  div = λ a b. a / b;
  neg = λ a. 0 - a;
  abs = λ a. a;
  squared = λ a. a * a;
  sqrt = λ a. a;
  int_sqrt = λ n. n;
  sum = sum;
}

abbrev prices : List (Option ℕ)
prices = some 5 ∷ none ∷ some 9 ∷ some 4 ∷ some 7 ∷ []

abbrev weighed : List (Option ℕ × Option ℕ)
weighed =
    (some 5, some 1) ∷ (some 9, some 2) ∷ (none, some 3) ∷ (some 4, some 1) ∷ (some 7, some 2) ∷ []

highest_update-IsGreatest_example :
    IsGreatest whole
      (9 ∷ 4 ∷ 7 ∷ [])
      (highest_update whole none (extreme_updates (py_max whole) prices (new_extreme 3))).1
highest_update-IsGreatest_example =
    highest_update-IsGreatest whole whole-IsOrder 3 prices none (omega arith)
      (refl, (refl, (refl, tt)))

lowest_update-IsGreatest_example :
    IsGreatest
      (reversed whole)
      (4 ∷ 7 ∷ 3 ∷ [])
      (lowest_update whole (some 3) (extreme_updates (py_min whole) prices (new_extreme 3))).1
lowest_update-IsGreatest_example =
    lowest_update-IsGreatest whole whole-IsOrder 3 prices (some 3) (omega arith)
      (refl, (refl, (refl, tt)))

sar_updates-bound_example :
    IsBounded naturals 2 3 20
      (sar_updates naturals ((some 9, some 5) ∷ (some 12, some 8) ∷ []) (new_sar naturals 2 3 20))
sar_updates-bound_example =
    sar_updates-bound naturals (λ x. ground arith) 2 3 20
      ((some 9, some 5) ∷ (some 12, some 8) ∷ []) refl

vwma_updates-window_example :
    vwma_updates naturals weighed (new_vwma naturals 2)
    ≡ vwma_of naturals 2 ((4, 1) ∷ (7, 2) ∷ []) (18, 3)
vwma_updates-window_example = vwma_updates-window naturals 2 weighed

variance_states-window_example :
    variance_states naturals prices (new_variance naturals 3 true)
    ≡ variance_of naturals 3 true (some 9 ∷ some 4 ∷ some 7 ∷ []) (20, 146)
variance_states-window_example = variance_states-window naturals 3 true prices

source_mfi_updates-window_example :
    source_mfi_updates naturals weighed (new_source_mfi naturals 2)
    ≡ source_mfi_of naturals 2 ((9, 18) ∷ (4, 4) ∷ (7, 14) ∷ []) (14, 4)
source_mfi_updates-window_example = source_mfi_updates-window naturals 2 weighed

wma_updates-window_example :
    wma_updates naturals prices (new_wma naturals 3) ≡ wma_of naturals 3 (9 ∷ 4 ∷ 7 ∷ []) (20, 38)
wma_updates-window_example = wma_updates-window naturals 3 prices (omega arith)

change_update-value_before_example :
    (change_update naturals
      (number 9)
      (change_updates naturals (number 5 ∷ missing ∷ number 6 ∷ []) (new_prev 2))).1
    ≡ ok (some 4)
change_update-value_before_example =
    change_update-value_before naturals 2 (number 5 ∷ missing ∷ number 6 ∷ []) 9

sma_update-mean_example :
    (sma_update naturals
      (number 9)
      (sma_updates naturals (number 5 ∷ missing ∷ number 6 ∷ []) (new_sma naturals 2))).1
    ≡ ok (some 7)
sma_update-mean_example = sma_update-mean naturals 2 (number 5 ∷ missing ∷ number 6 ∷ []) 9
