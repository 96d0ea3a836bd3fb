-- ===== src/Ta/Oscillators/Differences.antt =====
-- Differences from an earlier value (_ChangeState and _RocState of pinelib/ta/_impl_states.py).
use pinelib.Prelude.{
  ◌≤◌, Bool-cases, inl, inr, length-append, get_elem?, arith, ap, sym, ◌+◌, ◌-◌, ◌<◌, ◌≡◌, ◌∙◌,
  ◌++◌, refl, drop, zero, ℕ, List, Option, Result, [], false, if◌then◌else◌, index_error, length,
  ltb, none, ok, raise, some, suc, true, type_error, ◌∷◌,
}
use mathlib.Core.Option
use pinelib.Ta.{Source, flag, missing, number, numbers, Arithmetic, pushed, pushed_all, whole}
use pinelib.Ta.Window.{last_of, last_of-short, pushed_all-new, pushed_all-snoc}

pub record PrevState (F : Type 0) : Type 0 where
  pub limit : ℕ
  pub prev_values : List F

module _ {F : Type 0} where
  abbrev pub new_prev : ℕ → PrevState F
  new_prev n = record { limit = n; prev_values = [] }

  -- `append`, and `popleft` above one more than the length
  unfoldable pub remember : F → PrevState F → PrevState F
  remember x s = record s { prev_values = pushed (suc s.limit) s.prev_values x }

  -- `prev_values[0]`, or none as long as there are not enough values
  unfoldable pub earlier : PrevState F → Result (Option F)
  earlier s = elim (ltb (length s.prev_values) (suc s.limit)) [
    | true ↦ ok none
    | false ↦ elim s.prev_values [ [] ↦ raise index_error | x ∷ xs ↦ ok (some x) ]
  ]

module _ {F : Type 0} (ar : Arithmetic F) where
  unfoldable pub change_update : Source F → PrevState F → PrevState F × Result (Option F)
  unfolding remember earlier
  change_update missing s = (s, ok none)
  change_update (flag b) s = (s, raise type_error)
  change_update (number x) s =
      let t = remember x s in
      (
        t,
        elim (earlier t) [
          | raise e ↦ raise e
          | ok none ↦ ok none
          | ok (some prev) ↦ ok (some (ar.float.sub x prev))
        ],
      )

  unfoldable pub roc_update : Option F → PrevState F → PrevState F × Result (Option F)
  unfolding remember earlier
  roc_update none s = (s, ok none)
  roc_update (some x) s =
      let t = remember x s in
      (
        t,
        elim (earlier t) [
          | raise e ↦ raise e
          | ok none ↦ ok none
          | ok (some prev) ↦
              if ar.float.is_zero prev
              then ok none
              else ok (some (ar.div (ar.mul (whole ar 100) (ar.float.sub x prev)) prev))
        ],
      )

module _ {F : Type 0} where
  -- The value that stood a number of places before a last one, where there is one.
  abbrev pub value_before : ℕ → List F → F → Option F
  value_before n xs x = if ltb (length xs) n then none else get_elem? (xs ++ x ∷ []) (length xs - n)

  drop-get_elem? :
      (k : ℕ) (ys : List F)
      → k < length ys
      → (y : F) × (rest : List F) × (drop k ys ≡ y ∷ rest)
        × (get_elem? ys k ≡ some y)
        × (k + suc (length rest) ≡ length ys)
  drop-get_elem? k [] h = absurd (omega arith)
  drop-get_elem? zero (y ∷ ys) h = (y, ys, refl, refl, omega arith)
  drop-get_elem? (suc k) (y ∷ ys) h =
      let (z, rest, e, g, l) = drop-get_elem? k ys (omega arith) in (z, rest, e, g, omega arith)

  earlier-few :
      (n : ℕ) (w : List F)
      → length w ≤ n
      → earlier (record { limit = n; prev_values = w }) ≡ ok none
  unfolding earlier
  earlier-few n w h = ground arith

  earlier-first :
      (n : ℕ) (y : F) (rest : List F)
      → n ≤ length rest
      → earlier (record { limit = n; prev_values = y ∷ rest }) ≡ ok (some y)
  unfolding earlier
  earlier-first n y rest h = ground arith

  earlier-last_of :
      (n : ℕ) (xs : List F) (x : F)
      → earlier (record { limit = n; prev_values = last_of (suc n) (xs ++ x ∷ []) })
        ≡ ok (value_before n xs x)
  earlier-last_of n xs x =
      let ys = xs ++ x ∷ [] in
      let size : length ys ≡ length xs + 1 = length-append xs (x ∷ []) in
      elim (Bool-cases (ltb (length xs) n)) [
        | inl few ↦
            let all : last_of (suc n) ys ≡ ys = last_of-short (suc n) ys (ground arith) in
            earlier-few n (last_of (suc n) ys) (rw all (ground arith)) ∙ rw few refl
        | inr enough ↦
            let (y, rest, e, g, l) = drop-get_elem? (length xs - n) ys (ground arith) in
            let same : length ys - suc n ≡ length xs - n = omega arith in
            ap (λ w. earlier (record { limit = n; prev_values = w })) (ap (λ k. drop k ys) same ∙ e)
            ∙ earlier-first n y rest (ground arith)
            ∙ rw (enough, g) refl
      ]

module _ {F : Type 0} (ar : Arithmetic F) where
  abbrev pub change_updates : List (Source F) → PrevState F → PrevState F
  change_updates [] s = s
  change_updates (o ∷ os) s = change_updates os (change_update ar o s).0

  change_updates-window :
      (n : ℕ) (os : List (Source F)) (values : List F)
      → change_updates os (record { limit = n; prev_values = values })
        ≡ record { limit = n; prev_values = pushed_all (suc n) values (numbers os) }
  unfolding change_update
  change_updates-window n [] values = refl
  change_updates-window n (missing ∷ os) values = change_updates-window n os values
  change_updates-window n (flag b ∷ os) values = change_updates-window n os values
  change_updates-window n (number x ∷ os) values =
      change_updates-window n os (pushed (suc n) values x)

  remembered :
      (n : ℕ) (xs : List F) (x : F)
      → earlier (remember x (record { limit = n; prev_values = pushed_all (suc n) [] xs }))
        ≡ ok (value_before n xs x)
  unfolding remember
  remembered n xs x =
      rw (sym (pushed_all-snoc (suc n) [] xs x), pushed_all-new (suc n) (xs ++ x ∷ []))
        (earlier-last_of n xs x)

  change_update-number :
      (x : F) (s : PrevState F) (o : Option F)
      → earlier (remember x s) ≡ ok o
      → (change_update ar (number x) s).1 ≡ ok (Option.map (ar.float.sub x) o)
  unfolding change_update
  change_update-number x s none h = rw (change_update, h) refl
  change_update-number x s (some y) h = rw (change_update, h) refl

  -- After any other updates of a new state, the change of a number is its difference from the
  -- number that came the length before it, and na where there is none; na and bools do not count.
  pub change_update-value_before :
      (n : ℕ) (os : List (Source F)) (x : F)
      → (change_update ar (number x) (change_updates os (new_prev n))).1
        ≡ ok (Option.map (ar.float.sub x) (value_before n (numbers os) x))
  change_update-value_before n os x =
      let s = change_updates os (new_prev n) in
      change_update-number x s (value_before n (numbers os) x)
        (rw (change_updates-window n os []) (remembered n (numbers os) x))
