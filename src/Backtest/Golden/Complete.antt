-- ===== src/Backtest/Golden/Complete.antt =====
-- A golden comparison returns exactly where the two structures agree at every path
-- (compare_golden of pinelib/backtest.py).
use pinelib.Prelude.{
  is_some, ap, ◌↔◌, ◌∙◌, Option-cases, inl, inr, sym, ℕ, string_eq, List, Option, String, [], arith,
  none, ok, refl, some, suc, true, zero, ◌∷◌, ◌≡◌, nat_eq, int_eq, option_eq, pair_eq,
}
use pinelib.Backtest.Golden.{
  Closeness, Fields, Items, Json, arr, field, item, keys_within, lookup, nil, none_left, obj,
  compare_fields, compare_golden, compare_items, count,
}
use pinelib.Backtest.Golden.Paths.{Step, agrees, compare_golden-agrees, index, item_at, key, walk}

module _ {F : Type 0} where
  -- No dict has a key twice.
  abbrev mutual
    pub IsKeyed : Json F → Type 0
    IsKeyed (obj fs) = IsKeyedFields fs
    IsKeyed (arr xs) = IsKeyedItems xs
    IsKeyed _ = Unit

    pub IsKeyedItems : Items F → Type 0
    IsKeyedItems nil = Unit
    IsKeyedItems (item x xs) = IsKeyed x × IsKeyedItems xs

    pub IsKeyedFields : Fields F → Type 0
    IsKeyedFields none_left = Unit
    IsKeyedFields (field k x fs) = (lookup k fs ≡ none) × IsKeyed x × IsKeyedFields fs

  keys_within-intro :
      (fs gs : Fields F)
      → ((k : String) → is_some (lookup k fs) ≡ true → is_some (lookup k gs) ≡ true)
      → keys_within fs gs ≡ true
  keys_within-intro none_left gs h = refl
  keys_within-intro (field j x fs) gs h =
      let here = h j (ground (arith, string_eq.beq_iff j j)) in
      let rest = keys_within-intro fs gs (λ k l. h k (ground arith)) in ground arith

module _ {F : Type 0} (cl : Closeness F) where
  agrees-is_some : (o r : Option (Json F)) → agrees cl o r ≡ true → is_some o ≡ is_some r
  agrees-is_some none none h = refl
  agrees-is_some none (some y) h = cc
  agrees-is_some (some x) none h = cc
  agrees-is_some (some x) (some y) h = refl

  count-agrees :
      (xs ys : Items F)
      → ((i : ℕ) → agrees cl (item_at i xs) (item_at i ys) ≡ true)
      → count xs ≡ count ys
  count-agrees nil nil h = refl
  count-agrees nil (item y ys) h = absurd (let k = h zero in cc)
  count-agrees (item x xs) nil h = absurd (let k = h zero in cc)
  count-agrees (item x xs) (item y ys) h = ap suc (count-agrees xs ys (λ i. h (suc i)))

  mutual
    unfolding compare_golden

    agrees-compare_golden :
        (x y : Json F)
        → IsKeyed x
        → ((path : List Step) → agrees cl (walk path (some x)) (walk path (some y)) ≡ true)
        → compare_golden cl x y ≡ ok tt
    agrees-compare_golden (obj fs) (obj gs) u h =
        let same : (k : String) → is_some (lookup k fs) ≡ is_some (lookup k gs) =
          λ k. agrees-is_some (lookup k fs) (lookup k gs) (h (key k ∷ [])) in
        let within = keys_within-intro fs gs (λ k l. sym (same k) ∙ l) in
        let within' = keys_within-intro gs fs (λ k l. same k ∙ l) in
        rw (within, within')
          (agrees-compare_fields fs gs u (λ k x here path. rw here at (h (key k ∷ path))))
    agrees-compare_golden (arr xs) (arr ys) u h =
        let same = count-agrees xs ys (λ i. h (index i ∷ [])) in
        rw ((nat_eq.beq_iff (count xs) (count ys)).1 same)
          (agrees-compare_items xs ys u (λ i path. h (index i ∷ path)))
    agrees-compare_golden x y u h = let k = h [] in ground arith

    agrees-compare_items :
        (xs ys : Items F)
        → IsKeyedItems xs
        → ((i : ℕ) (path : List Step)
            → agrees cl (walk path (item_at i xs)) (walk path (item_at i ys)) ≡ true)
        → compare_items cl xs ys ≡ ok tt
    agrees-compare_items nil ys u h = refl
    agrees-compare_items (item x xs) nil u h = refl
    agrees-compare_items (item x xs) (item y ys) u h =
        rw (agrees-compare_golden x y u.0 (h zero))
          (agrees-compare_items xs ys u.1 (λ i. h (suc i)))

    agrees-compare_fields :
        (fs gs : Fields F)
        → IsKeyedFields fs
        → ((k : String) (x : Json F)
            → lookup k fs ≡ some x
            → (path : List Step) → agrees cl (walk path (some x)) (walk path (lookup k gs)) ≡ true)
        → compare_fields cl fs gs ≡ ok tt
    agrees-compare_fields none_left gs u h = refl
    agrees-compare_fields (field j y fs) gs u h =
        let at_j = h j y (ground (arith, string_eq.beq_iff j j)) in
        elim (Option-cases (lookup j gs)) [
          | inl missing ↦ absurd (let k = rw missing at at_j [] in cc)
          | inr (z, there) ↦
              rw
                (
                  compare_fields,
                  there,
                  agrees-compare_golden y z u.1 (λ path. rw there at (at_j path)),
                )
                (agrees-compare_fields fs gs u.2
                  (λ k x here path. h k x (ground (arith, string_eq.beq_iff j k)) path))
        ]

  -- A structure whose dicts have no key twice compares with another without a mismatch exactly
  -- when at every path both have nothing, or both have dicts, lists, numbers that are close, or
  -- equal values.
  pub compare_golden_iff :
      (x y : Json F)
      → IsKeyed x
      → (compare_golden cl x y ≡ ok tt)
        ↔ ((path : List Step) → agrees cl (walk path (some x)) (walk path (some y)) ≡ true)
  compare_golden_iff x y u = (compare_golden-agrees cl x y, agrees-compare_golden x y u)
