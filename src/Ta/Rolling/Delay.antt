-- ===== src/Ta/Rolling/Delay.antt =====
-- Accumulators that roll with a deque of the last values, against a delay line: the value that
-- leaves is the one that entered the length before. The order of the additions and subtractions
-- is the code's, so the equations hold of floats that round.
use pinelib.Prelude.{
  append_assoc, ℕ, List, Option, [], ap, arith, length, length-append, map, none, refl, some, suc,
  zero, ◌+◌, ◌++◌, ◌∙◌, ◌∷◌, ◌≡◌, ◌≤◌,
}
use pinelib.Ta.{pushed, pushed_all}
use pinelib.Ta.Window.{last_of, pushed_all-new, pushed-full, pushed-short}

module _ {A : Type 0} where
  -- The line has a number of empty places, and then the values.
  abbrev pub delay : ℕ → List A → List (Option A)
  delay zero xs = map some xs
  delay (suc n) xs = none ∷ delay n xs

module _ {A St : Type 0} (step : A → St → St) where
  abbrev pub steps : List A → St → St
  steps [] s = s
  steps (x ∷ xs) s = steps xs (step x s)

-- `enter` takes a value while the window has room, and knows how many it has; `replace` takes a
-- value, and then the one that leaves for it.
module _ {A T : Type 0} (enter : ℕ → T → A → T) (replace : T → A → A → T) where
  -- The accumulator after values that come together with what leaves the delay line.
  abbrev pub rolled : ℕ → T → List A → List (Option A) → T
  rolled i t [] ls = t
  rolled i t (x ∷ xs) [] = rolled (suc i) (enter i t x) xs []
  rolled i t (x ∷ xs) (none ∷ ls) = rolled (suc i) (enter i t x) xs ls
  rolled i t (x ∷ xs) (some y ∷ ls) = rolled i (replace t x y) xs ls

  -- From nothing, with a delay line of the length.
  abbrev pub rolling : ℕ → T → List A → T
  rolling n t xs = rolled 0 t xs (delay n xs)

  module _ {St : Type 0} (step : A → St → St) (state_of : List A → T → St) (n : ℕ) where
    -- What one step does to the state of a window.
    pub record IsRolling : Type 0 where
      pub room :
          (vs : List A) (t : T) (x : A)
          → suc (length vs) ≤ n
          → step x (state_of vs t) ≡ state_of (vs ++ x ∷ []) (enter (length vs) t x)
      pub full :
          (v : A) (vs : List A) (t : T) (x : A)
          → n ≡ suc (length vs)
          → step x (state_of (v ∷ vs) t) ≡ state_of (vs ++ x ∷ []) (replace t x v)
      pub nothing : (t : T) (x : A) → n ≡ 0 → step x (state_of [] t) ≡ state_of [] (replace t x x)

    module _ (r : IsRolling) where
      -- A window that lacks k values, and the values to come.
      pub steps-rolled :
          (k : ℕ) (vs : List A) (t : T) (xs : List A)
          → length vs + k ≡ n
          → steps step xs (state_of vs t)
            ≡ state_of (pushed_all n vs xs) (rolled (length vs) t xs (delay k (vs ++ xs)))
      steps-rolled k vs t [] h = refl
      steps-rolled (suc k) vs t (x ∷ xs) h =
          let longer : length (vs ++ x ∷ []) ≡ suc (length vs) =
            omega (arith, length-append vs (x ∷ [])) in
          let rest =
            steps-rolled k (vs ++ x ∷ []) (enter (length vs) t x) xs
              (omega (arith, length-append vs (x ∷ []))) in
          ap (steps step xs) (r.room vs t x (omega arith))
          ∙ rw (pushed-short n vs x (omega arith))
              (rw (longer, append_assoc vs (x ∷ []) xs) at rest)
      steps-rolled zero [] t (x ∷ xs) h =
          let none_stays : pushed n [] x ≡ [] = ground arith in
          ap (steps step xs) (r.nothing t x (omega arith))
          ∙ rw none_stays (steps-rolled zero [] (replace t x x) xs h)
      steps-rolled zero (v ∷ vs) t (x ∷ xs) h =
          let longer : length (vs ++ x ∷ []) ≡ suc (length vs) =
            omega (arith, length-append vs (x ∷ [])) in
          let rest =
            steps-rolled zero (vs ++ x ∷ []) (replace t x v) xs
              (omega (arith, length-append vs (x ∷ []))) in
          ap (steps step xs) (r.full v vs t x (omega arith))
          ∙ rw (pushed-full n v vs x (omega arith))
              (rw (longer, append_assoc vs (x ∷ []) xs) at rest)

      -- From an empty window, a sequence leaves its last values and the accumulator of the delay
      -- line of the length.
      pub steps-rolling :
          (t : T) (xs : List A)
          → steps step xs (state_of [] t) ≡ state_of (last_of n xs) (rolling n t xs)
      steps-rolling t xs =
          steps-rolled n [] t xs (omega arith)
          ∙ ap (λ w. state_of w (rolling n t xs)) (pushed_all-new n xs)
