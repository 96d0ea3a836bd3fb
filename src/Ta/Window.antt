-- ===== src/Ta/Window.antt =====
-- Deques that keep the last values (pinelib/ta/_impl_states.py).
use pinelib.Prelude.{
  true, false, if-ap, if-elim, ltb→lt, ap, ℕ, List, [], append-nil, append_assoc, arith, drop,
  if◌then◌else◌, length, length-append, ltb, refl, suc, ◌++◌, ◌-◌, ◌≤◌, ◌∷◌, ◌≡◌, ◌∙◌, sym,
}
use pinelib.Ta.{pushed, pushed_all}

module _ {A : Type 0} where
  -- The last values of a list, all where there are no more.
  abbrev pub last_of : ℕ → List A → List A
  last_of n xs = drop (length xs - n) xs

  pub last_of-short : (n : ℕ) (xs : List A) → length xs ≤ n → last_of n xs ≡ xs
  last_of-short n xs h = let none_more : length xs - n ≡ 0 = omega arith in rw none_more refl

  last_of-long : (n : ℕ) (x : A) (xs : List A) → n ≤ length xs → last_of n (x ∷ xs) ≡ last_of n xs
  last_of-long n x xs h =
      let one_more : suc (length xs) - n ≡ suc (length xs - n) = omega arith in rw one_more refl

  -- Dropping the first value of a list that is too long by one.
  trimmed-last_of :
      (n : ℕ) (longer : List A)
      → length longer ≤ suc n
      → let shorter = if ltb n (length longer) then drop 1 longer else longer in
        (length shorter ≤ n)
        × ((ys : List A) → last_of n (shorter ++ ys) ≡ last_of n (longer ++ ys))
  trimmed-last_of n [] h = (ground arith, λ ys. ground arith)
  trimmed-last_of n (x ∷ xs) h =
      if-elim
        (λ (shorter : List A).
          (length shorter ≤ n)
          × ((ys : List A) → last_of n (shorter ++ ys) ≡ last_of n (x ∷ (xs ++ ys))))
        (ltb n (suc (length xs))) xs (x ∷ xs)
        (λ over. (
          omega arith,
          λ ys. sym (
              last_of-long n x (xs ++ ys)
                (omega (arith, length-append xs ys, ltb→lt n (suc (length xs)) over))),
        ))
        (λ within. (ground arith, λ ys. refl))

  pub pushed-last_of :
      (n : ℕ) (values : List A) (x : A)
      → length values ≤ n
      → (length (pushed n values x) ≤ n)
        × ((ys : List A) → last_of n (pushed n values x ++ ys) ≡ last_of n (values ++ x ∷ ys))
  pushed-last_of n values x h =
      let (short, same) =
        trimmed-last_of n (values ++ x ∷ []) (omega (arith, length-append values (x ∷ []))) in
      (short, λ ys. same ys ∙ ap (last_of n) (append_assoc values (x ∷ []) ys))

  pub pushed-short :
      (n : ℕ) (values : List A) (x : A)
      → suc (length values) ≤ n
      → pushed n values x ≡ values ++ x ∷ []
  pushed-short n values x h =
      let within : ltb n (length (values ++ x ∷ [])) ≡ false =
        ground (arith, length-append values (x ∷ [])) in
      rw within refl

  pub pushed-full :
      (n : ℕ) (v : A) (values : List A) (x : A)
      → n ≡ suc (length values)
      → pushed n (v ∷ values) x ≡ values ++ x ∷ []
  pushed-full n v values x h =
      let over : ltb n (suc (length (values ++ x ∷ []))) ≡ true =
        ground (arith, length-append values (x ∷ [])) in
      rw over refl

  pushed_all-last_of :
      (n : ℕ) (values xs : List A)
      → length values ≤ n
      → pushed_all n values xs ≡ last_of n (values ++ xs)
  pushed_all-last_of n values [] h =
      sym (last_of-short n (values ++ []) (rw (append-nil values) h) ∙ append-nil values)
  pushed_all-last_of n values (x ∷ xs) h =
      let (short, same) = pushed-last_of n values x h in
      pushed_all-last_of n (pushed n values x) xs short ∙ same xs

  -- Appended one after another to an empty deque, the values that stay are the last ones.
  pub pushed_all-new : (n : ℕ) (xs : List A) → pushed_all n [] xs ≡ last_of n xs
  pushed_all-new n xs = pushed_all-last_of n [] xs (omega arith)

  pub pushed_all-snoc :
      (n : ℕ) (values xs : List A) (x : A)
      → pushed_all n values (xs ++ x ∷ []) ≡ pushed n (pushed_all n values xs) x
  pushed_all-snoc n values [] x = refl
  pushed_all-snoc n values (y ∷ xs) x = pushed_all-snoc n (pushed n values y) xs x

-- A state that stands for a list, by a function that evicts its first value when it is too long.
pub evicted {ℓ} :
    {A : Type 0} {St : Type ℓ} (state_of : List A → St) (evict : St → St) (n : ℕ) (xs : List A)
    → ((x : A) (ys : List A) → evict (state_of (x ∷ ys)) ≡ state_of ys)
    → (if ltb n (length xs) then evict (state_of xs) else state_of xs)
      ≡ state_of (if ltb n (length xs) then drop 1 xs else xs)
evicted state_of evict n [] h = ground arith
evicted state_of evict n (x ∷ xs) h =
    rw (h x xs) (if-ap state_of (ltb n (suc (length xs))) xs (x ∷ xs))
