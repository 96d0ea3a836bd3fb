-- ===== src/Core/Value.antt =====
-- Runtime values (pinelib/core/na.py, pinelib/core/operators.py). Python's float is a parameter:
-- a type F with the operations that the code calls.
use pinelib.Prelude.{
  zero, String, Bool, true, false, not, ◌==◌, string_eq, ◌≡◌, Result, ok, raise, raise_if,
  type_error, na_error, ◌>>◌, if◌then◌else◌, arith, Option, builtin_type_error, none, some, ◌||◌,
  ◌&&◌, int_eq, nat_eq, option_eq, pair_eq,
}
use Prim.Native.String.{◌++◌ as str_append}
use mathlib.Core.Option
use pinelib.Prelude.Int.{ℤ, pos, ◌+ℤ◌, ◌-ℤ◌}

-- What the code does with Python's float.
pub record Float (F : Type 0) : Type 0 where
  pub is_nan : F → Bool
  pub lt : F → F → Bool
  pub add : F → F → F
  pub sub : F → F → F
  pub of_int : ℤ → F
  pub is_zero : F → Bool

-- The values that a generated module computes with. `na` is the sentinel, `null` is Python's None.
pub data Value (F : Type 0) : Type 0 where
  na : Value F
  null : Value F
  bool : Bool → Value F
  int : ℤ → Value F
  float : F → Value F
  str : String → Value F

module _ {F : Type 0} where
  -- `isinstance(value, bool)`
  abbrev pub is_bool : Value F → Bool
  is_bool (bool _) = true
  is_bool _ = false

  -- `value is na`
  abbrev pub is_sentinel : Value F → Bool
  is_sentinel na = true
  is_sentinel _ = false

  -- `value is na or value is None`
  abbrev pub is_absent : Value F → Bool
  is_absent na = true
  is_absent null = true
  is_absent _ = false

  -- Python adds two numbers, or two strings.
  abbrev pub is_number : Value F → Bool
  is_number (bool _) = true
  is_number (int _) = true
  is_number (float _) = true
  is_number _ = false

  abbrev pub is_str : Value F → Bool
  is_str (str _) = true
  is_str _ = false

  abbrev pub addable : Value F → Value F → Bool
  addable v w = is_number v && is_number w || is_str v && is_str w

  unfoldable pub reject_bool_argument : Value F → Result (Unit {0})
  reject_bool_argument v = raise_if (is_bool v) type_error

module _ {F : Type 0} (fl : Float F) where
  unfoldable pub is_na : Value F → Bool
  is_na null = true
  is_na (float x) = fl.is_nan x
  is_na v = is_sentinel v

  unfoldable pub nz : Value F → Value F → Result (Value F)
  unfolding reject_bool_argument is_na
  nz v replacement = do
    reject_bool_argument v
    reject_bool_argument replacement
    ok (if is_na v then replacement else v)

  -- The value is never na when the replacement is not, and a value that is not na is kept.
  pub nz-is_na :
      (v r w : Value F)
      → nz v r ≡ ok w
      → (is_na v ≡ true → w ≡ r) × (is_na v ≡ false → w ≡ v) × (is_na w ≡ true → is_na r ≡ true)
  unfolding nz
  nz-is_na v r w h = ground arith

  unfoldable pub pine_bool : Value F → Result Bool
  pine_bool na = raise na_error
  pine_bool null = raise na_error
  pine_bool (bool b) = ok b
  pine_bool (int (pos zero)) = ok false
  pine_bool (int _) = ok true
  pine_bool (float x) = ok (not (fl.is_zero x))
  pine_bool (str s) = ok (not (s == ""))

  -- Python's numbers: a bool is the integer 0 or 1.
  abbrev as_int : Value F → Option ℤ
  as_int (bool b) = some (if b then pos 1 else pos 0)
  as_int (int n) = some n
  as_int _ = none

  abbrev as_float : Value F → Option F
  as_float (float x) = some x
  as_float v = Option.map fl.of_int (as_int v)

  -- `+`, `-` or `*` on two numbers: exact on integers, and on floats otherwise.
  arithmetic : (ℤ → ℤ → ℤ) → (F → F → F) → Value F → Value F → Result (Value F)
  arithmetic on_int on_float v w = elim (as_int v) [
    | some m ↦ elim (as_int w) [
      | some n ↦ ok (int (on_int m n))
      | none ↦ elim (as_float w) [
        | some y ↦ ok (float (on_float (fl.of_int m) y))
        | none ↦ raise builtin_type_error
      ]
    ]
    | none ↦ elim (as_float v) [
      | some x ↦ elim (as_float w) [
        | some y ↦ ok (float (on_float x y))
        | none ↦ raise builtin_type_error
      ]
      | none ↦ raise builtin_type_error
    ]
  ]

  -- The guards that `pine_add`, `pine_sub` and `pine_mul` share.
  guarded : (Value F → Value F → Result (Value F)) → Value F → Value F → Result (Value F)
  guarded op left right =
      if is_absent left then ok left else if is_absent right then ok right else op left right

  python_add : Value F → Value F → Result (Value F)
  unfolding arithmetic
  python_add (str s) (str t) = ok (str (str_append s t))
  python_add v w = arithmetic ◌+ℤ◌ fl.add v w

  unfoldable pub pine_add : Value F → Value F → Result (Value F)
  unfolding guarded python_add
  pine_add = guarded python_add

  unfoldable pub pine_sub : Value F → Value F → Result (Value F)
  unfolding guarded arithmetic
  pine_sub = guarded (arithmetic ◌-ℤ◌ fl.sub)
