-- ===== src/Backtest/Golden.antt =====
-- Golden comparison of JSON-like structures: compare_golden of pinelib/backtest.py. A dict is its
-- pairs in order, each key once.
use pinelib.Prelude.{
  ℕ, string_eq, Bool, List, Option, Result, String, false, get_elem?, golden_mismatch_error,
  if◌then◌else◌, leb, none, not, ok, or_else, raise, raise_if, some, suc, true, zero, ◌&&◌, ◌==◌,
  ◌>>◌, nat_eq, or_raise, ◌>>=◌, int_eq, option_eq, pair_eq,
}
use pinelib.Prelude.Int.{ℤ, pos}
pub mod Paths
pub mod Complete

mutual
  pub data Json (F : Type 0) : Type 0 where
    null : Json F
    bool : Bool → Json F
    int : ℤ → Json F
    float : F → Json F
    str : String → Json F
    arr : Items F → Json F
    obj : Fields F → Json F

  pub data Items (F : Type 0) : Type 0 where
    nil : Items F
    item : Json F → Items F → Items F

  pub data Fields (F : Type 0) : Type 0 where
    none_left : Fields F
    field : String → Json F → Fields F → Fields F

-- `float(n)` of an integer, which raises OverflowError where n is too large, and `math.isclose` at the tolerances given.
pub record Closeness (F : Type 0) : Type 0 where
  pub of_int : ℤ → Result F
  pub isclose : F → F → Bool

module _ {F : Type 0} where
  abbrev pub count : Items F → ℕ
  count nil = 0
  count (item x xs) = suc (count xs)

  -- `fields[key]`
  abbrev pub lookup : String → Fields F → Option (Json F)
  lookup k none_left = none
  lookup k (field j x fs) = let rest = lookup k fs in if j == k then some x else rest

  -- The keys of the first are keys of the second.
  abbrev pub keys_within : Fields F → Fields F → Bool
  keys_within none_left gs = true
  keys_within (field k x fs) gs =
      let rest = keys_within fs gs in elim (lookup k gs) [ none ↦ false | some y ↦ rest ]

  -- `left == right` on values of which one is not a number, not both dicts and not both lists
  abbrev pub same_plain : Json F → Json F → Bool
  same_plain null null = true
  same_plain (str s) (str t) = s == t
  same_plain _ _ = false

module _ {F : Type 0} (cl : Closeness F) where
  -- `float(value)` if it is an int, a float or a bool
  abbrev pub number : Json F → Option (Result F)
  number (bool b) = some (cl.of_int (if b then pos 1 else pos 0))
  number (int n) = some (cl.of_int n)
  number (float x) = some (ok x)
  number _ = none

  abbrev pub compare_numbers : Result F → Result F → Result (Unit {0})
  compare_numbers actual expected = do
    x ← actual
    y ← expected
    raise_if (not (cl.isclose x y)) golden_mismatch_error

  abbrev pub compare_plain : Json F → Json F → Result (Unit {0})
  compare_plain actual expected = raise_if (not (same_plain actual expected)) golden_mismatch_error

  -- Two values that are not both dicts and not both lists.
  abbrev pub compare_leaves : Json F → Json F → Result (Unit {0})
  compare_leaves actual expected = elim (number actual) [
    | none ↦ compare_plain actual expected
    | some x ↦ elim (number expected) [
      | none ↦ compare_plain actual expected
      | some y ↦ compare_numbers x y
    ]
  ]

  unfoldable mutual
    pub compare_golden : Json F → Json F → Result (Unit {0})
    compare_golden (obj fs) (obj gs) = do
      raise_if (not (keys_within fs gs && keys_within gs fs)) golden_mismatch_error
      compare_fields fs gs
    compare_golden (arr xs) (arr ys) = do
      raise_if (not (count xs == count ys)) golden_mismatch_error
      compare_items xs ys
    compare_golden actual expected = compare_leaves actual expected

    pub compare_items : Items F → Items F → Result (Unit {0})
    compare_items nil ys = ok tt
    compare_items (item x xs) nil = ok tt
    compare_items (item x xs) (item y ys) = compare_golden x y >> compare_items xs ys

    -- The loop over the keys of the actual dict.
    pub compare_fields : Fields F → Fields F → Result (Unit {0})
    compare_fields none_left gs = ok tt
    compare_fields (field k x fs) gs = elim (lookup k gs) [
      | none ↦ raise golden_mismatch_error
      | some y ↦ compare_golden x y >> compare_fields fs gs
    ]
