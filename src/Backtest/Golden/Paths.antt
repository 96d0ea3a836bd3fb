-- ===== src/Backtest/Golden/Paths.antt =====
-- What a golden comparison that returns says of every place of the two structures
-- (compare_golden of pinelib/backtest.py).
use pinelib.Prelude.{
  Result, raise, Option-cases, Bool-cases, inl, inr, ◌&&◌, sym, >>=-eq-ok, raise_if,
  golden_mismatch_error, ℕ, string_eq, Bool, List, Option, String, [], arith, false, none, ok, refl,
  some, suc, true, zero, ◌∷◌, ◌≡◌, nat_eq, int_eq, not, option_eq, pair_eq, ◌==◌,
}
use pinelib.Backtest.Golden.{
  Closeness, Fields, Items, Json, arr, field, item, keys_within, compare_leaves, lookup, nil,
  none_left, number, obj, same_plain, compare_fields, compare_golden, compare_items, count,
}

-- One step into a structure: a key of a dict or an index of a list.
pub data Step : Type 0 where
  key : String → Step
  index : ℕ → Step

module _ {F : Type 0} where
  abbrev pub item_at : ℕ → Items F → Option (Json F)
  item_at i nil = none
  item_at zero (item x xs) = some x
  item_at (suc i) (item x xs) = item_at i xs

  abbrev pub descend : Step → Json F → Option (Json F)
  descend (key k) (obj fs) = lookup k fs
  descend (index i) (arr xs) = item_at i xs
  descend _ _ = none

  -- What stands at the end of a path.
  abbrev pub walk : List Step → Option (Json F) → Option (Json F)
  walk [] o = o
  walk (s ∷ path) none = none
  walk (s ∷ path) (some x) = walk path (descend s x)

module _ {F : Type 0} (cl : Closeness F) where
  -- Both conversions to a float succeed, and the floats are close.
  abbrev pub close : Result F → Result F → Bool
  close (ok a) (ok b) = cl.isclose a b
  close (ok a) (raise _) = false
  close (raise _) b = false

  -- Both are dicts, both are lists, both are numbers that are close, or they are equal.
  abbrev pub similar : Json F → Json F → Bool
  similar (obj fs) (obj gs) = true
  similar (arr xs) (arr ys) = true
  similar x y = elim (number cl x) [
    | none ↦ same_plain x y
    | some a ↦ elim (number cl y) [ none ↦ same_plain x y | some b ↦ close a b ]
  ]

  abbrev pub agrees : Option (Json F) → Option (Json F) → Bool
  agrees none none = true
  agrees (some x) (some y) = similar x y
  agrees _ _ = false

  agrees-none : (path : List Step) → agrees (walk path none) (walk path none) ≡ true
  agrees-none [] = refl
  agrees-none (s ∷ path) = refl

  compare_leaves-agrees :
      (path : List Step) (x y : Json F)
      → compare_leaves cl x y ≡ ok tt
      → agrees (walk path (some x)) (walk path (some y)) ≡ true
  compare_leaves-agrees [] x y h = ground arith
  compare_leaves-agrees (key k ∷ path) x y h = ground (arith, agrees-none path)
  compare_leaves-agrees (index i ∷ path) x y h = ground (arith, agrees-none path)

  lookup-keys_within :
      (k : String) (fs gs : Fields F)
      → keys_within gs fs ≡ true
      → lookup k fs ≡ none
      → lookup k gs ≡ none
  lookup-keys_within k fs none_left h l = refl
  lookup-keys_within k fs (field j x gs) h l =
      ground (arith, string_eq.beq_iff j k, lookup-keys_within k fs gs)

  mutual
    unfolding compare_golden

    pub compare_golden-agrees :
        (x y : Json F)
        → compare_golden cl x y ≡ ok tt
        → (path : List Step) → agrees (walk path (some x)) (walk path (some y)) ≡ true
    compare_golden-agrees (obj fs) (obj gs) h [] = refl
    compare_golden-agrees (obj fs) (obj gs) h (index i ∷ rest) = agrees-none rest
    compare_golden-agrees (obj fs) (obj gs) h (key k ∷ rest) =
        let both = keys_within fs gs && keys_within gs fs in
        let (_, same, h1) = >>=-eq-ok (raise_if (not both) golden_mismatch_error) _ h in
        elim (Option-cases (lookup k fs)) [
          | inl none_here ↦
              let none_there = lookup-keys_within k fs gs (ground arith) none_here in
              rw (none_here, none_there) (agrees-none rest)
          | inr (x, here) ↦ rw here (compare_fields-agrees fs gs h1 k x here rest)
        ]
    compare_golden-agrees (arr xs) (arr ys) h [] = refl
    compare_golden-agrees (arr xs) (arr ys) h (key k ∷ rest) = agrees-none rest
    compare_golden-agrees (arr xs) (arr ys) h (index i ∷ rest) =
        let (_, same, h1) =
          >>=-eq-ok (raise_if (not (count xs == count ys)) golden_mismatch_error) _ h in
        compare_items-agrees xs ys (ground (arith, nat_eq.beq_iff (count xs) (count ys))) h1 i rest
    compare_golden-agrees x y h path = compare_leaves-agrees path x y h

    compare_items-agrees :
        (xs ys : Items F)
        → count xs ≡ count ys
        → compare_items cl xs ys ≡ ok tt
        → (i : ℕ) (path : List Step)
        → agrees (walk path (item_at i xs)) (walk path (item_at i ys)) ≡ true
    compare_items-agrees nil nil c h i path = agrees-none path
    compare_items-agrees nil (item y ys) c h i path = absurd (omega arith)
    compare_items-agrees (item x xs) nil c h i path = absurd (omega arith)
    compare_items-agrees (item x xs) (item y ys) c h zero path =
        let (_, first, _) = >>=-eq-ok (compare_golden cl x y) _ h in
        compare_golden-agrees x y first path
    compare_items-agrees (item x xs) (item y ys) c h (suc i) path =
        let (_, _, rest) = >>=-eq-ok (compare_golden cl x y) _ h in
        compare_items-agrees xs ys (omega arith) rest i path

    compare_fields-agrees :
        (fs gs : Fields F)
        → compare_fields cl fs gs ≡ ok tt
        → (k : String) (x : Json F) → lookup k fs ≡ some x
        → (path : List Step) → agrees (walk path (some x)) (walk path (lookup k gs)) ≡ true
    compare_fields-agrees none_left gs h k x l path = cc
    compare_fields-agrees (field j y fs) gs h k x l path = elim (Option-cases (lookup j gs)) [
      | inl missing ↦ absurd (ground arith)
      | inr (z, there) ↦
          let (_, first, rest) =
            >>=-eq-ok (compare_golden cl y z) (λ u. compare_fields cl fs gs)
              (rw (there, compare_fields) at h) in
          elim (Bool-cases (j == k)) [
            | inl same ↦
                let j=k : j ≡ k = (string_eq.beq_iff j k).0 same in
                let y=x : y ≡ x = ground arith in
                rw (sym j=k, there, sym y=x) (compare_golden-agrees y z first path)
            | inr other ↦ compare_fields-agrees fs gs rest k x (ground arith) path
          ]
    ]
