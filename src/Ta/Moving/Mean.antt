-- ===== src/Ta/Moving/Mean.antt =====
-- The simple moving average against the mean of its window (_SmaState of
-- pinelib/ta/_impl_core.py), with the sum rounded as the code rounds it.
use pinelib.Prelude.{
  ℕ, List, Option, [], ap, arith, if◌then◌else◌, length, length-append, ltb, none, ok, refl, some,
  suc, sym, drop, zero, ◌-◌, ◌++◌, ◌∙◌, ◌∷◌, ◌≡◌, false, true,
}
use pinelib.Ta.{Arithmetic, Source, flag, missing, number, numbers, whole}
use pinelib.Ta.Window.{last_of}
use pinelib.Ta.Rolling.Delay.{IsRolling, rolling, steps, steps-rolling}
use pinelib.Ta.Moving.{SmaState, new_sma, sma_evict, sma_push, sma_update, sma_value}

length-drop {ℓ} : {A : Type ℓ} (k : ℕ) (xs : List A) → length (drop k xs) ≡ length xs - k
length-drop zero xs = omega arith
length-drop (suc k) [] = omega arith
length-drop (suc k) (x ∷ xs) = omega (arith, length-drop k xs)

module _ {F : Type 0} (ar : Arithmetic F) where
  abbrev pub add_number : ℕ → F → F → F
  add_number i total x = ar.float.add total x

  abbrev pub swap_number : F → F → F → F
  swap_number total x oldest = ar.float.sub (ar.float.add total x) oldest

  -- The sum that rolls: each number is added, and then the one that came the length before it is
  -- subtracted, if there is one.
  abbrev pub rolling_sum : ℕ → List F → F
  rolling_sum n xs = rolling add_number swap_number n (whole ar 0) xs

  -- The sum over the length, once there are as many numbers.
  abbrev pub mean : ℕ → List F → Option F
  mean n xs = if ltb (length xs) n then none else some (ar.div (rolling_sum n xs) (whole ar n))

  abbrev pub sma_updates : List (Source F) → SmaState F → SmaState F
  sma_updates [] s = s
  sma_updates (o ∷ os) s = sma_updates os (sma_update ar o s).0

  abbrev sma_of : ℕ → List F → F → SmaState F
  sma_of n xs t = record { limit = n; values = xs; total = t }

  sma_push-IsRolling : (n : ℕ) → IsRolling add_number swap_number (sma_push ar) (sma_of n) n
  unfolding sma_push sma_evict
  sma_push-IsRolling n = record {
    room = λ vs t x h.
        let within : ltb n (length (vs ++ x ∷ [])) ≡ false =
          ground (arith, length-append vs (x ∷ [])) in
        rw within refl;
    full = λ v vs t x h.
        let over : ltb n (suc (length (vs ++ x ∷ []))) ≡ true =
          ground (arith, length-append vs (x ∷ [])) in
        rw over refl;
    nothing = λ t x h. let over : ltb n 1 ≡ true = ground arith in rw over refl;
  }

  sma_updates-steps :
      (os : List (Source F)) (s : SmaState F)
      → sma_updates os s ≡ steps (sma_push ar) (numbers os) s
  unfolding sma_update
  sma_updates-steps [] s = refl
  sma_updates-steps (missing ∷ os) s = sma_updates-steps os s
  sma_updates-steps (flag b ∷ os) s = sma_updates-steps os s
  sma_updates-steps (number x ∷ os) s = sma_updates-steps os (sma_push ar x s)

  -- The state after any updates: the last numbers and their rolling sum.
  sma_updates-window :
      (n : ℕ) (os : List (Source F))
      → sma_updates os (new_sma ar n)
        ≡ record { limit = n; values = last_of n (numbers os); total = rolling_sum n (numbers os) }
  sma_updates-window n os =
      sma_updates-steps os (new_sma ar n)
      ∙ steps-rolling add_number swap_number (sma_push ar) (sma_of n) n (sma_push-IsRolling n)
          (whole ar 0) (numbers os)

  numbers-snoc :
      (os : List (Source F)) (x : F) → numbers (os ++ number x ∷ []) ≡ numbers os ++ x ∷ []
  numbers-snoc [] x = refl
  numbers-snoc (missing ∷ os) x = numbers-snoc os x
  numbers-snoc (flag b ∷ os) x = numbers-snoc os x
  numbers-snoc (number y ∷ os) x = ap (λ xs. y ∷ xs) (numbers-snoc os x)

  sma_updates-snoc :
      (os : List (Source F)) (o : Source F) (s : SmaState F)
      → sma_updates (os ++ o ∷ []) s ≡ (sma_update ar o (sma_updates os s)).0
  sma_updates-snoc [] o s = refl
  sma_updates-snoc (p ∷ os) o s = sma_updates-snoc os o (sma_update ar p s).0

  length-last_of : (n : ℕ) (xs : List F) → ltb (length (last_of n xs)) n ≡ ltb (length xs) n
  length-last_of n xs = ground (arith, length-drop (length xs - n) xs)

  sma_value-window :
      (n : ℕ) (xs : List F) → sma_value ar (sma_of n (last_of n xs) (rolling_sum n xs)) ≡ mean n xs
  unfolding sma_value
  sma_value-window n xs = rw (length-last_of n xs) refl

  sma_update-value :
      (x : F) (s : SmaState F) → let t = sma_update ar (number x) s in t.1 ≡ ok (sma_value ar (t.0))
  unfolding sma_update
  sma_update-value x s = refl

  -- After any other updates of a new state, the simple average of a number is na until as many
  -- numbers as the length have come, the new one with them, and then the rolling sum over the
  -- length, where each number is added and the one that came the length before is subtracted; na
  -- and bools do not count.
  pub sma_update-mean :
      (n : ℕ) (os : List (Source F)) (x : F)
      → (sma_update ar (number x) (sma_updates os (new_sma ar n))).1
        ≡ ok (mean n (numbers os ++ x ∷ []))
  sma_update-mean n os x =
      let s = sma_updates os (new_sma ar n) in
      let after = sym (sma_updates-snoc os (number x) (new_sma ar n)) in
      sma_update-value x s
      ∙ ap (λ t. ok (sma_value ar t)) (after ∙ sma_updates-window n (os ++ number x ∷ []))
      ∙ ap ok (sma_value-window n (numbers (os ++ number x ∷ [])))
      ∙ ap (λ xs. ok (mean n xs)) (numbers-snoc os x)
