-- ===== src/Ta/Rolling/Sums.antt =====
-- Rolling sums against the delay line of the window (_VwmaState and _VarianceState of
-- pinelib/ta/_impl_states.py), rounded as the code rounds them.
use pinelib.Prelude.{
  ℕ, Bool, List, Option, [], arith, length, length-append, length-map, ltb, map, map-append, none,
  refl, some, suc, ◌+◌, ◌++◌, ◌∙◌, ◌∷◌, ◌≡◌, false, true,
}
use pinelib.Ta.{Arithmetic, whole}
use pinelib.Ta.Window.{last_of}
use pinelib.Ta.Rolling.Delay.{IsRolling, rolling, steps, steps-rolling}
use pinelib.Ta.Rolling.{
  VarianceState, VwmaState, new_variance, new_vwma, variance_add, variance_evict, variance_state,
  vwma_evict, vwma_update,
}

module _ {F : Type 0} where
  -- Pairs of arguments that are both not na.
  abbrev pub both_present : List (Option F × Option F) → List (F × F)
  both_present [] = []
  both_present ((some a, some b) ∷ xs) = (a, b) ∷ both_present xs
  both_present ((some a, none) ∷ xs) = both_present xs
  both_present ((none, b) ∷ xs) = both_present xs

  abbrev pub firsts : List (F × F) → List F
  firsts ps = map (λ p. p.0) ps

  abbrev pub seconds : List (F × F) → List F
  seconds ps = map (λ p. p.1) ps

  -- How many values are na.
  abbrev pub absent : List (Option F) → ℕ
  absent [] = 0
  absent (none ∷ xs) = suc (absent xs)
  absent (some x ∷ xs) = absent xs

module _ {F : Type 0} (ar : Arithmetic F) where
  -- The sums of value times volume and of volume, with one pair more.
  abbrev pub add_pair : ℕ → F × F → F × F → F × F
  add_pair i t p = (ar.float.add (t.0) (ar.mul (p.0) (p.1)), ar.float.add (t.1) (p.1))

  -- The same, and then with one pair less.
  abbrev pub swap_pair : F × F → F × F → F × F → F × F
  swap_pair t p old =
      let more = add_pair 0 t p in
      (ar.float.sub (more.0) (ar.mul (old.0) (old.1)), ar.float.sub (more.1) (old.1))

  abbrev pub zeros : F × F
  zeros = (whole ar 0, whole ar 0)

  -- The state of a window of pairs with its two sums.
  abbrev pub vwma_of : ℕ → List (F × F) → F × F → VwmaState F
  vwma_of n ps t = record {
    limit = n;
    values = firsts ps;
    volumes = seconds ps;
    weighted_total = t.0;
    volume_total = t.1;
  }

  abbrev pub vwma_updates : List (Option F × Option F) → VwmaState F → VwmaState F
  vwma_updates [] s = s
  vwma_updates ((a, b) ∷ xs) s = vwma_updates xs (vwma_update ar a b s).0

  abbrev vwma_step : F × F → VwmaState F → VwmaState F
  vwma_step p s = (vwma_update ar (some (p.0)) (some (p.1)) s).0

  length-grown : (ps : List (F × F)) (x : F) → length (firsts ps ++ x ∷ []) ≡ suc (length ps)
  length-grown ps x =
      omega (arith, length-append (firsts ps) (x ∷ []), length-map ps (λ (p : F × F). p.0))

  vwma_step-IsRolling : (n : ℕ) → IsRolling add_pair swap_pair vwma_step (vwma_of n) n
  unfolding vwma_update vwma_evict
  vwma_step-IsRolling n = record {
    room = λ vs t x h.
        let within : ltb n (length (firsts vs ++ x.0 ∷ [])) ≡ false =
          ground (arith, length-grown vs (x.0)) in
        rw
          (
            within,
            map-append (λ (p : F × F). p.0) vs (x ∷ []),
            map-append (λ (p : F × F). p.1) vs (x ∷ []),
          )
          refl;
    full = λ v vs t x h.
        let over : ltb n (suc (length (firsts vs ++ x.0 ∷ []))) ≡ true =
          ground (arith, length-grown vs (x.0)) in
        rw
          (
            over,
            map-append (λ (p : F × F). p.0) vs (x ∷ []),
            map-append (λ (p : F × F). p.1) vs (x ∷ []),
          )
          refl;
    nothing = λ t x h. let over : ltb n 1 ≡ true = ground arith in rw over refl;
  }

  vwma_updates-steps :
      (xs : List (Option F × Option F)) (s : VwmaState F)
      → vwma_updates xs s ≡ steps vwma_step (both_present xs) s
  unfolding vwma_update
  vwma_updates-steps [] s = refl
  vwma_updates-steps ((some a, some b) ∷ xs) s = vwma_updates-steps xs (vwma_step (a, b) s)
  vwma_updates-steps ((some a, none) ∷ xs) s = vwma_updates-steps xs s
  vwma_updates-steps ((none, b) ∷ xs) s = vwma_updates-steps xs s

  -- After any updates the volume-weighted average's state holds the last pairs that have no na,
  -- and its two sums are those of a delay line: each pair is added, value times volume and volume,
  -- and the pair that came the length before is subtracted, if there is one.
  pub vwma_updates-window :
      (n : ℕ) (xs : List (Option F × Option F))
      → let ps = both_present xs in
        vwma_updates xs (new_vwma ar n)
        ≡ vwma_of n (last_of n ps) (rolling add_pair swap_pair n zeros ps)
  vwma_updates-window n xs =
      vwma_updates-steps xs (new_vwma ar n)
      ∙ steps-rolling add_pair swap_pair vwma_step (vwma_of n) n (vwma_step-IsRolling n) zeros
          (both_present xs)

  -- The sums of the values and of their squares, with one value more; na adds nothing.
  abbrev pub add_square : ℕ → F × F → Option F → F × F
  add_square i t none = t
  add_square i t (some x) = (ar.float.add (t.0) x, ar.float.add (t.1) (ar.mul x x))

  abbrev pub sub_square : F × F → Option F → F × F
  sub_square t none = t
  sub_square t (some x) = (ar.float.sub (t.0) x, ar.float.sub (t.1) (ar.mul x x))

  abbrev pub swap_square : F × F → Option F → Option F → F × F
  swap_square t o old = sub_square (add_square 0 t o) old

  -- The state of a window with its two sums, which counts the values that are na.
  abbrev pub variance_of : ℕ → Bool → List (Option F) → F × F → VarianceState F
  variance_of n biased xs t = record {
    limit = n;
    biased = biased;
    values = xs;
    total = t.0;
    total_sq = t.1;
    na_count = absent xs;
  }

  abbrev pub variance_states : List (Option F) → VarianceState F → VarianceState F
  variance_states xs s = steps (variance_state ar) xs s

  absent-snoc :
      (xs : List (Option F)) (o : Option F) → absent (xs ++ o ∷ []) ≡ absent xs + absent (o ∷ [])
  absent-snoc [] o = omega arith
  absent-snoc (none ∷ xs) o = omega (arith, absent-snoc xs o)
  absent-snoc (some x ∷ xs) o = absent-snoc xs o

  variance_add-variance_of :
      (n : ℕ) (biased : Bool) (o : Option F) (xs : List (Option F)) (t : F × F)
      → variance_add ar o (variance_of n biased xs t)
        ≡ variance_of n biased (xs ++ o ∷ []) (add_square 0 t o)
  unfolding variance_add
  variance_add-variance_of n biased none xs t = rw (absent-snoc xs none) (ground arith)
  variance_add-variance_of n biased (some x) xs t = rw (absent-snoc xs (some x)) (ground arith)

  variance_evict-variance_of :
      (n : ℕ) (biased : Bool) (o : Option F) (xs : List (Option F)) (t : F × F)
      → variance_evict ar (variance_of n biased (o ∷ xs) t)
        ≡ variance_of n biased xs (sub_square t o)
  unfolding variance_evict
  variance_evict-variance_of n biased none xs t = ground arith
  variance_evict-variance_of n biased (some x) xs t = refl

  variance_state-IsRolling :
      (n : ℕ) (biased : Bool)
      → IsRolling add_square swap_square (variance_state ar) (variance_of n biased) n
  unfolding variance_state
  variance_state-IsRolling n biased = record {
    room = λ vs t x h.
        let within : ltb n (length (vs ++ x ∷ [])) ≡ false =
          ground (arith, length-append vs (x ∷ [])) in
        rw (variance_add-variance_of n biased x vs t, within) refl;
    full = λ v vs t x h.
        let over : ltb n (suc (length (vs ++ x ∷ []))) ≡ true =
          ground (arith, length-append vs (x ∷ [])) in
        rw (variance_add-variance_of n biased x (v ∷ vs) t, over)
          (variance_evict-variance_of n biased v (vs ++ x ∷ []) (add_square 0 t x));
    nothing = λ t x h.
        let over : ltb n 1 ≡ true = ground arith in
        rw (variance_add-variance_of n biased x [] t, over)
          (variance_evict-variance_of n biased x [] (add_square 0 t x));
  }

  -- After any updates the variance's state holds the last values and how many of them are na, and
  -- its two sums are those of a delay line: each value that is not na is added with its square,
  -- and the value that came the length before is subtracted with its square, if there is one that
  -- is not na.
  pub variance_states-window :
      (n : ℕ) (biased : Bool) (os : List (Option F))
      → variance_states os (new_variance ar n biased)
        ≡ variance_of n biased (last_of n os) (rolling add_square swap_square n zeros os)
  variance_states-window n biased os =
      steps-rolling add_square swap_square (variance_state ar) (variance_of n biased) n
        (variance_state-IsRolling n biased) zeros os
