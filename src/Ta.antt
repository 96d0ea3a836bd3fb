-- ===== src/Ta.antt =====
-- The states of the technical indicators (pinelib/ta/_impl_states.py). An argument of an update is
-- none where the code's `is_na` holds of it, and what `float` makes of it otherwise; a result is
-- none where the code returns na. Lengths are natural numbers.
use pinelib.Prelude.{
  ℕ, Bool, List, Option, [], drop, if◌then◌else◌, length, ltb, none, some, ◌++◌, ◌∷◌,
}
use pinelib.Prelude.Int.{pos}
use pinelib.Core.Value.{Float}
use pinelib.Core.Bar.{py_max, py_min}
pub mod Window
pub mod Extremes
pub mod Sar
pub mod Rolling
pub mod Averages
pub mod Oscillators
pub mod Moving

-- What the indicators do with floats beside `Float`: the builtin `sum`, which need not add from
-- left to right, `-x`, `abs`, `x ** 2`, `math.sqrt`, `int(math.sqrt(n))`, and `/` where the divisor is not 0.
pub record Arithmetic (F : Type 0) : Type 0 where
  pub float : Float F
  pub mul : F → F → F
  pub div : F → F → F
  pub neg : F → F
  pub abs : F → F
  pub squared : F → F
  pub sqrt : F → F
  pub int_sqrt : ℕ → ℕ
  pub sum : List F → F

module _ {A : Type 0} where
  -- `values.append(x)`, then `values.popleft()` if there are more than the limit
  abbrev pub pushed : ℕ → List A → A → List A
  pushed limit values x =
      let longer = values ++ x ∷ [] in if ltb limit (length longer) then drop 1 longer else longer

  -- All the values of a sequence, appended one after another.
  abbrev pub pushed_all : ℕ → List A → List A → List A
  pushed_all limit values [] = values
  pushed_all limit values (x ∷ xs) = pushed_all limit (pushed limit values x) xs

  -- The arguments that are not na.
  abbrev pub present : List (Option A) → List A
  present [] = []
  present (none ∷ xs) = present xs
  present (some x ∷ xs) = x ∷ present xs

module _ {F : Type 0} (ar : Arithmetic F) where
  abbrev pub whole : ℕ → F
  whole n = ar.float.of_int (pos n)

  -- `a > b`
  abbrev pub gt : F → F → Bool
  gt a b = ar.float.lt b a

-- What a function that refuses bools is given: na, a bool, or a value that `float` converts.
pub data Source (F : Type 0) : Type 0 where
  missing : Source F
  flag : Bool → Source F
  number : F → Source F

module _ {F : Type 0} where
  -- The arguments that are numbers.
  abbrev pub numbers : List (Source F) → List F
  numbers [] = []
  numbers (missing ∷ os) = numbers os
  numbers (flag b ∷ os) = numbers os
  numbers (number x ∷ os) = x ∷ numbers os
