-- ===== src/Ta/Extremes.antt =====
-- The greatest and the least of the last values (_HighestState and _LowestState of
-- pinelib/ta/_impl_states.py): the same code with `max` and with `min`.
use pinelib.Prelude.{
  subst, ltb, if-elim, ℕ, All, List, Option, Result, [], arith, false, get_elem?, length, none, ok,
  raise, refl, some, suc, value_error, zero, ◌++◌, ◌∷◌, ◌≡◌, ◌≤◌, ◌∙◌, sym, ap,
}
use pinelib.Core.Value.{Float}
use pinelib.Core.Bar.{py_max, py_min}
use pinelib.Core.Runtime.Realtime.Bounds.{IsOrder}
use pinelib.Ta.{present, pushed, pushed_all}
use pinelib.Ta.Window.{last_of, pushed_all-new}

pub record ExtremeState (F : Type 0) : Type 0 where
  pub length_limit : ℕ
  pub values : List F

module _ {F : Type 0} where
  -- `max(values)` or `min(values)` of a first value and the others, by the choice between two
  abbrev pub extreme_of : (F → F → F) → F → List F → F
  extreme_of pick x [] = x
  extreme_of pick x (y ∷ ys) = extreme_of pick (pick x y) ys

  -- `max(values)`, which raises on an empty deque
  abbrev pub extreme : (F → F → F) → List F → Result (Option F)
  extreme pick [] = raise value_error
  extreme pick (x ∷ xs) = ok (some (extreme_of pick x xs))

  -- `na if not values else max(values)`
  abbrev pub extreme_or_na : (F → F → F) → List F → Result (Option F)
  extreme_or_na pick [] = ok none
  extreme_or_na pick (x ∷ xs) = ok (some (extreme_of pick x xs))

  unfoldable pub extreme_update :
      (F → F → F) → Option F → ExtremeState F → ExtremeState F × Result (Option F)
  extreme_update pick none s = (s, extreme_or_na pick s.values)
  extreme_update pick (some x) s =
      let values = pushed s.length_limit s.values x in
      (record s { values = values }, extreme pick values)

  -- A new state after updates with a sequence.
  abbrev pub extreme_updates : (F → F → F) → List (Option F) → ExtremeState F → ExtremeState F
  extreme_updates pick [] s = s
  extreme_updates pick (x ∷ xs) s = extreme_updates pick xs (extreme_update pick x s).0

  abbrev pub new_extreme : ℕ → ExtremeState F
  new_extreme n = record { length_limit = n; values = [] }

module _ {F : Type 0} (fl : Float F) where
  unfoldable pub highest_update : Option F → ExtremeState F → ExtremeState F × Result (Option F)
  unfolding extreme_update
  highest_update = extreme_update (py_max fl)

  unfoldable pub lowest_update : Option F → ExtremeState F → ExtremeState F × Result (Option F)
  unfolding extreme_update
  lowest_update = extreme_update (py_min fl)

  -- The order the other way round.
  abbrev pub reversed : Float F
  reversed = record fl { lt = λ a b. fl.lt b a }

  -- The result is na where there are no values, and otherwise one of them that none is above.
  abbrev pub IsGreatest : List F → Result (Option F) → Type 0
  IsGreatest [] r = r ≡ ok none
  IsGreatest (x ∷ xs) r =
      (m : F) × (r ≡ ok (some m))
      × ((i : ℕ) × (get_elem? (x ∷ xs) i ≡ some m))
      × All (λ y. fl.lt m y ≡ false) (x ∷ xs)

  abbrev pub AllNumbers : List F → Type 0
  AllNumbers xs = All (λ x. fl.is_nan x ≡ false) xs

module _ {F : Type 0} (fl : Float F) (o : IsOrder fl) where
  skipped :
      (x y : F) (ys : List F) (m : F) (i : ℕ)
      → get_elem? (x ∷ ys) i ≡ some m
      → (j : ℕ) × (get_elem? (x ∷ y ∷ ys) j ≡ some m)
  skipped x y ys m zero h = (0, h)
  skipped x y ys m (suc i) h = (suc (suc i), h)

  -- Whichever value `max` of two picks.
  extreme_of-greatest :
      (x : F) (xs : List F)
      → fl.is_nan x ≡ false
      → AllNumbers fl xs
      → let m = extreme_of (py_max fl) x xs in
        (fl.is_nan m ≡ false)
        × ((i : ℕ) × (get_elem? (x ∷ xs) i ≡ some m))
        × (fl.lt m x ≡ false)
        × All (λ y. fl.lt m y ≡ false) xs
  extreme_of-greatest x [] p n = (p, (0, refl), o.lt_irrefl x p, tt)
  extreme_of-greatest x (y ∷ ys) p n =
      if-elim
        (λ (z : F).
          let m = extreme_of (py_max fl) z ys in
          (fl.is_nan m ≡ false)
          × ((i : ℕ) × (get_elem? (x ∷ y ∷ ys) i ≡ some m))
          × (fl.lt m x ≡ false)
          × All (λ v. fl.lt m v ≡ false) (y ∷ ys))
        (fl.lt x y) y x
        (λ less.
          let m = extreme_of (py_max fl) y ys in
          let (a, (i, at), b, c) = extreme_of-greatest y ys n.0 n.1 in
          let above = o.not_lt_trans m y x a n.0 p b (o.lt_asymm x y p n.0 less) in
          (a, (suc i, at), above, (b, c)))
        (λ not_less.
          let m = extreme_of (py_max fl) x ys in
          let (a, (i, at), b, c) = extreme_of-greatest x ys p n.1 in
          let above = o.not_lt_trans m x y a p n.0 b not_less in
          (a, skipped x y ys m i at, b, (above, c)))

  -- What the result of an update is: the greatest of the window.
  extreme_or_na-IsGreatest :
      (xs : List F) → AllNumbers fl xs → IsGreatest fl xs (extreme_or_na (py_max fl) xs)
  extreme_or_na-IsGreatest [] n = refl
  extreme_or_na-IsGreatest (x ∷ xs) n =
      let (_, at, b, c) = extreme_of-greatest x xs n.0 n.1 in
      (extreme_of (py_max fl) x xs, refl, at, (b, c))

module _ {F : Type 0} (pick : F → F → F) where
  extreme_updates-values :
      (os : List (Option F)) (s : ExtremeState F)
      → let t = extreme_updates pick os s in
        (t.length_limit ≡ s.length_limit)
        × (t.values ≡ pushed_all s.length_limit s.values (present os))
  unfolding extreme_update
  extreme_updates-values [] s = (refl, refl)
  extreme_updates-values (none ∷ os) s = extreme_updates-values os s
  extreme_updates-values (some x ∷ os) s =
      extreme_updates-values os (record s { values = pushed s.length_limit s.values x })

  extreme-append :
      (vs : List F) (x : F) → extreme pick (vs ++ x ∷ []) ≡ extreme_or_na pick (vs ++ x ∷ [])
  extreme-append [] x = refl
  extreme-append (v ∷ vs) x = refl

  extreme-pushed :
      (n : ℕ) (vs : List F) (x : F)
      → 1 ≤ n
      → extreme pick (pushed n vs x) ≡ extreme_or_na pick (pushed n vs x)
  extreme-pushed n [] x h = ground arith
  extreme-pushed n (v ∷ vs) x h =
      if-elim (λ (ws : List F). extreme pick ws ≡ extreme_or_na pick ws)
        (ltb n (length (v ∷ (vs ++ x ∷ [])))) (vs ++ x ∷ []) (v ∷ (vs ++ x ∷ []))
        (λ over. extreme-append vs x) (λ within. refl)

  -- The result of an update stands for the deque that it leaves.
  extreme_update-result :
      (x : Option F) (s : ExtremeState F)
      → 1 ≤ s.length_limit
      → let t = extreme_update pick x s in t.1 ≡ extreme_or_na pick (t.0.values)
  unfolding extreme_update
  extreme_update-result none s h = refl
  extreme_update-result (some x) s h = extreme-pushed s.length_limit s.values x h

  extreme_updates-snoc :
      (os : List (Option F)) (x : Option F) (s : ExtremeState F)
      → extreme_updates pick (os ++ x ∷ []) s
        ≡ (extreme_update pick x (extreme_updates pick os s)).0
  extreme_updates-snoc [] x s = refl
  extreme_updates-snoc (o ∷ os) x s = extreme_updates-snoc os x (extreme_update pick o s).0

  -- The last update after others gives what its code makes of the last values.
  extreme_update-last_of :
      (n : ℕ) (os : List (Option F)) (x : Option F)
      → 1 ≤ n
      → (extreme_update pick x (extreme_updates pick os (new_extreme n))).1
        ≡ extreme_or_na pick (last_of n (present (os ++ x ∷ [])))
  extreme_update-last_of n os x h =
      let s = extreme_updates pick os (new_extreme n) in
      let (same, _) = extreme_updates-values os (new_extreme n) in
      let (_, values) = extreme_updates-values (os ++ x ∷ []) (new_extreme n) in
      let last = pushed_all-new n (present (os ++ x ∷ [])) in
      extreme_update-result x s (rw same h)
      ∙ ap (λ t. extreme_or_na pick t.values) (sym (extreme_updates-snoc os x (new_extreme n)))
      ∙ ap (extreme_or_na pick) (values ∙ last)

module _ {F : Type 0} (fl : Float F) (o : IsOrder fl) where
  -- Over numbers that are ordered and for a positive length, an update after any others returns na
  -- if no value has come, and otherwise one of the last values that none of them is above.
  pub highest_update-IsGreatest :
      (n : ℕ) (os : List (Option F)) (x : Option F)
      → 1 ≤ n
      → let window = last_of n (present (os ++ x ∷ [])) in
        AllNumbers fl window
        → IsGreatest fl window
            (highest_update fl x (extreme_updates (py_max fl) os (new_extreme n))).1
  unfolding highest_update
  highest_update-IsGreatest n os x h numbers =
      subst (IsGreatest fl (last_of n (present (os ++ x ∷ []))))
        (sym (extreme_update-last_of (py_max fl) n os x h))
        (extreme_or_na-IsGreatest fl o (last_of n (present (os ++ x ∷ []))) numbers)

  reversed-IsOrder : IsOrder (reversed fl)
  reversed-IsOrder = record {
    lt_asymm = λ a b p q h. o.lt_asymm b a q p h;
    lt_irrefl = o.lt_irrefl;
    not_lt_trans = λ a b c p q r h k. o.not_lt_trans c b a r q p k h;
  }

  -- Over numbers that are ordered and for a positive length, an update after any others returns na
  -- if no value has come, and otherwise one of the last values that none of them is below.
  pub lowest_update-IsGreatest :
      (n : ℕ) (os : List (Option F)) (x : Option F)
      → 1 ≤ n
      → let window = last_of n (present (os ++ x ∷ [])) in
        AllNumbers fl window
        → IsGreatest
            (reversed fl)
            window
            (lowest_update fl x (extreme_updates (py_min fl) os (new_extreme n))).1
  unfolding lowest_update
  lowest_update-IsGreatest n os x h numbers =
      subst (IsGreatest (reversed fl) (last_of n (present (os ++ x ∷ []))))
        (sym (extreme_update-last_of (py_min fl) n os x h))
        (extreme_or_na-IsGreatest (reversed fl) reversed-IsOrder
          (last_of n (present (os ++ x ∷ []))) numbers)
