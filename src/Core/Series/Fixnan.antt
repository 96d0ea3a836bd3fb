-- ===== src/Core/Series/Fixnan.antt =====
-- fixnan of a value or of a series (pinelib/core/na.py). What is like a series is one of the
-- runtime's.
use pinelib.Prelude.{
  Bool-cases, ℕ, List, Result, [], arith, drop, false, get_elem?, if◌then◌else◌, inl, inr, length,
  none, not, ok, or_else, refl, some, string_eq, suc, zero, ◌+◌, ◌==◌, ◌>>=◌, ◌>>◌, ◌∷◌, ◌≡◌, ◌≤◌,
  ◌⊎◌, length-reverse, int_eq, nat_eq, option_eq, pair_eq,
}
use pinelib.Prelude.Int.{pos}
use pinelib.Core.Value.{Float, Value, is_na, na, reject_bool_argument}
use pinelib.Core.Series.{Series, committed_length, getitem, missing}
use pinelib.Core.Series.Timeline.{IsPlain, IsSettled, getitem-eq-timeline, timeline}

-- What `fixnan` is given.
pub data Argument (F : Type 0) : Type 0 where
  scalar : Value F → Argument F
  like_series : Series F → Argument F

module _ {F : Type 0} (fl : Float F) where
  -- The loop over the offsets, of which a number are left.
  unfoldable fixnan_from : ℕ → ℕ → Series F → Result (Value F)
  unfolding is_na reject_bool_argument
  fixnan_from zero offset s = ok na
  fixnan_from (suc left) offset s = do
    let rest = fixnan_from left (suc offset) s
    historical ← getitem s (pos offset)
    reject_bool_argument historical
    if not (is_na fl historical) then ok historical else rest

  unfoldable fixnan_series : Series F → Result (Value F)
  unfolding fixnan_from committed_length
  fixnan_series s = do
    reject_bool_argument s.current
    if not (is_na fl s.current) then ok s.current else fixnan_from (committed_length s) 1 s

  unfoldable pub fixnan : Argument F → Result (Value F)
  unfolding fixnan_series
  fixnan (scalar v) = do reject_bool_argument v; ok (if is_na fl v then na else v)
  fixnan (like_series s) = fixnan_series s

  -- The first of a list of values that is not na, and na where all are; a bool before it raises.
  unfoldable pub first_present : List (Value F) → Result (Value F)
  unfolding is_na reject_bool_argument
  first_present [] = ok na
  first_present (v ∷ vs) = do
    let rest = first_present vs
    reject_bool_argument v
    if is_na fl v then rest else ok v

  drop-cases :
      (k : ℕ) (vs : List (Value F))
      → ((drop k vs ≡ []) × (get_elem? vs k ≡ none) × (drop (suc k) vs ≡ []))
        ⊎ ((y : Value F) × (drop k vs ≡ y ∷ drop (suc k) vs) × (get_elem? vs k ≡ some y))
  drop-cases zero [] = inl (refl, refl, refl)
  drop-cases (suc k) [] = inl (refl, refl, refl)
  drop-cases zero (v ∷ vs) = inr (v, refl, refl)
  drop-cases (suc k) (v ∷ vs) = drop-cases k vs

  drop-all : (k : ℕ) (vs : List (Value F)) → length vs ≤ k → drop k vs ≡ []
  drop-all zero [] h = refl
  drop-all zero (v ∷ vs) h = absurd (omega arith)
  drop-all (suc k) [] h = refl
  drop-all (suc k) (v ∷ vs) h = drop-all k vs (omega arith)

  -- With reads that are those of a list, and na out of it.
  fixnan_from-first_present :
      (left offset : ℕ) (s : Series F) (vs : List (Value F))
      → ((k : ℕ) → getitem s (pos k) ≡ ok (or_else (get_elem? vs k) na))
      → length vs ≤ offset + left
      → fixnan_from left offset s ≡ first_present (drop offset vs)
  unfolding fixnan_from first_present
  fixnan_from-first_present zero offset s vs reads h =
      let none_left = drop-all offset vs (omega arith) in rw none_left refl
  fixnan_from-first_present (suc left) offset s vs reads h =
      let rest = fixnan_from-first_present left (suc offset) s vs reads (omega arith) in
      let here = reads offset in
      elim (drop-cases offset vs) [ inl (a, b, c) ↦ ground arith | inr (y, a, b) ↦ ground arith ]

  length-timeline : (s : Series F) → length (timeline s) ≤ suc (length s.history)
  length-timeline s = elim (Bool-cases s.between_bars) [
    | inl between ↦ ground (arith, length-reverse s.history)
    | inr within ↦ ground (arith, length-reverse s.history)
  ]

  -- fixnan of a plain, settled series that is not a bool series is the first value of its timeline
  -- that is not na, and na where there is none; a bool before such a value raises.
  pub fixnan-first_present :
      (s : Series F)
      → IsPlain s
      → IsSettled s
      → (s.dtype == "bool") ≡ false
      → fixnan (like_series s) ≡ first_present (timeline s)
  unfolding fixnan fixnan_series committed_length fixnan_from getitem
  fixnan-first_present s p settled not_bool =
      let na_missing : missing s ≡ na = rw not_bool refl in
      fixnan_from-first_present (suc (length s.history)) 0 s (timeline s)
        (λ k. rw na_missing at (getitem-eq-timeline s k p settled))
        (omega (arith, length-timeline s))
