-- ===== src/Core/Runtime/Registry/Laws.antt =====
-- What the loops over the registry do to each name.
use pinelib.Prelude.{
  All, Bool, List, String, [], arith, eq_iff, false, if◌then◌else◌, int_eq, nat_eq, none, ok,
  pair_eq, refl, string_eq, true, ◌++◌, ◌==◌, ◌||◌, ◌∷◌, ◌≡◌, not, Bool-cases, Option-cases,
  Result-cases, inl, inr, some, ◌∙◌, option_eq,
}
use mathlib.Core.Option
use pinelib.Prelude.Dict.{contains, get, IsUnique, get-put, get-put_self, put}
use pinelib.Core.Value.{Value}
use pinelib.Core.Series.{Series, commit_current, mark_between_bars, set_current}
use pinelib.Core.Series.Timeline.{IsPlain}
use pinelib.Core.Runtime.State.{Registry}
use pinelib.Core.Runtime.Registry.{
  set_all, commit_all, commit_one, reopen_all, set_registered, reopen,
}

-- `name in names`
abbrev pub listed : String → List String → Bool
listed n [] = false
listed n (m ∷ ms) = m == n || listed n ms

abbrev pub HasNoRepeat : List String → Type 0
HasNoRepeat [] = Unit
HasNoRepeat (m ∷ ms) = (listed m ms ≡ false) × HasNoRepeat ms

pub listed-append :
    (n m : String) (ms : List String) → listed n (ms ++ m ∷ []) ≡ (listed n ms || m == n)
listed-append n m [] = ground arith
listed-append n m (k ∷ ks) = ground (arith, listed-append n m ks)

pub HasNoRepeat-append :
    (m : String) (ms : List String)
    → HasNoRepeat ms
    → listed m ms ≡ false
    → HasNoRepeat (ms ++ m ∷ [])
HasNoRepeat-append m [] h k = (refl, tt)
HasNoRepeat-append m (j ∷ ms) h k =
    ground (arith, HasNoRepeat-append m ms h.1, listed-append j m ms, eq_iff j m, eq_iff m j)

module _ {F : Type 0} where
  abbrev pub history_of : Series F → List (Value F)
  history_of s = s.history

  pub get-reopen_all :
      (j : String) (reg : Registry F) → get j (reopen_all reg) ≡ Option.map reopen (get j reg)
  unfolding reopen_all
  get-reopen_all j [] = refl
  get-reopen_all j ((n, s) ∷ reg) = ground (arith, get-reopen_all j reg)

  get-set_registered_ne :
      (n j : String) (v : Value F) (reg reg' : Registry F)
      → (n == j) ≡ false
      → set_registered n v reg ≡ ok reg'
      → get j reg' ≡ get j reg
  unfolding set_registered
  get-set_registered_ne n j v reg reg' h e = elim (Option-cases (get n reg)) [
    | inl x ↦ ground arith
    | inr (s, es) ↦ elim (Result-cases (set_current v s)) [
      | inl (x, ex) ↦ ground arith
      | inr (t, et) ↦ ground (arith, get-put n j t reg)
    ]
  ]

  history-set_registered :
      (n j : String) (v : Value F) (reg reg' : Registry F)
      → set_registered n v reg ≡ ok reg'
      → Option.map history_of (get j reg') ≡ Option.map history_of (get j reg)
  unfolding set_registered set_current
  history-set_registered n j v reg reg' e = elim (Option-cases (get n reg)) [
    | inl x ↦ ground arith
    | inr (s, es) ↦
        ground (arith, eq_iff n j, get-put n j (record s { current = v; between_bars = false }) reg)
  ]

  pub get-set_registered_self :
      (n : String) (v : Value F) (reg reg' : Registry F) (s : Series F)
      → get n reg ≡ some s
      → set_registered n v reg ≡ ok reg'
      → (t : Series F) × (set_current v s ≡ ok t) × (get n reg' ≡ some t)
  unfolding set_registered
  get-set_registered_self n v reg reg' s es e = elim (Result-cases (set_current v s)) [
    | inl (x, ex) ↦ absurd (ground arith)
    | inr (t, et) ↦ (t, et, ground (arith, get-put_self n t reg))
  ]

  -- A name that is written takes its value; every other name keeps its series.
  pub get-set_all_ne :
      (j : String) (ps : List (String × Value F)) (reg reg' : Registry F)
      → get j ps ≡ none
      → set_all ps reg ≡ ok reg'
      → get j reg' ≡ get j reg
  unfolding set_all
  get-set_all_ne j [] reg reg' h e = cc
  get-set_all_ne j ((n, v) ∷ ps) reg reg' h e = elim (Result-cases (set_registered n v reg)) [
    | inl (x, ex) ↦ cc
    | inr (mid, em) ↦
        ground (arith, get-set_registered_ne n j v reg mid, get-set_all_ne j ps mid reg')
  ]

  pub get-set_all_self :
      (j : String) (ps : List (String × Value F)) (reg reg' : Registry F) (s : Series F)
      (v : Value F)
      → IsUnique ps
      → get j ps ≡ some v
      → get j reg ≡ some s
      → set_all ps reg ≡ ok reg'
      → (t : Series F) × (set_current v s ≡ ok t) × (get j reg' ≡ some t)
  unfolding set_all
  get-set_all_self j [] reg reg' s v u h es e = cc
  get-set_all_self j ((n, w) ∷ ps) reg reg' s v u h es e =
      elim (Result-cases (set_registered n w reg)) [
        | inl (x, ex) ↦ cc
        | inr (mid, em) ↦ elim (Bool-cases (n == j)) [
          | inl same ↦
              let (t, et, gt) =
                get-set_registered_self n w reg mid s (ground (arith, eq_iff n j)) em in
              (t, ground arith, ground (arith, eq_iff n j, get-set_all_ne j ps mid reg'))
          | inr other ↦
              get-set_all_self j ps mid reg' s v u.1 (ground arith)
                (get-set_registered_ne n j w reg mid other em ∙ es) (ground arith)
        ]
      ]

  -- When the loop of end_bar over names without repetition succeeds, every listed series is
  -- committed once and every other is as it was.
  pub get-commit_all :
      (r : Bool) (j : String) (names : List String) (reg reg' : Registry F)
      → HasNoRepeat names
      → commit_all r names reg ≡ ok reg'
      → get j reg' ≡ (if listed j names then Option.map (commit_one r) (get j reg) else get j reg)
  unfolding commit_all
  get-commit_all r j [] reg reg' h e = cc
  get-commit_all r j (n ∷ names) reg reg' h e = elim (Option-cases (get n reg)) [
    | inl x ↦ ground arith
    | inr (s, es) ↦
        let mid = put n (commit_one r s) reg in
        ground
          (arith, eq_iff n j, get-put n j (commit_one r s) reg, get-commit_all r j names mid reg')
  ]

  -- When the loop of end_bar over names without repetition succeeds, every listed plain series has
  -- its current value at the end of its history, keeps it as its value and is between bars unless
  -- the bar is a realtime one and it was not; every other plain series is as it was.
  pub commit_all-history :
      (r : Bool) (j : String) (names : List String) (reg reg' : Registry F) (s : Series F)
      → HasNoRepeat names
      → commit_all r names reg ≡ ok reg'
      → get j reg ≡ some s
      → IsPlain s
      → (t : Series F) × (get j reg' ≡ some t)
        × (listed j names ≡ true
            → (t.history ≡ s.history ++ s.current ∷ [])
              × (t.current ≡ s.current)
              × (t.between_bars ≡ (not r || s.between_bars)))
        × (listed j names ≡ false → t ≡ s)
  unfolding commit_one commit_current mark_between_bars
  commit_all-history r j names reg reg' s h e here p =
      let after = get-commit_all r j names reg reg' h e in
      let no_container = p.no_container in
      let readable = p.readable in
      elim (Bool-cases (listed j names)) [
        | inl yes_listed ↦ (commit_one r s, ground arith, λ _. ground arith, λ no. absurd (cc))
        | inr not_listed ↦ (s, ground arith, λ yes. absurd (cc), λ _. refl)
      ]

  All-contains-put :
      (n : String) (s : Series F) (reg : Registry F) (names : List String)
      → All (λ m. contains m reg ≡ true) names
      → All (λ m. contains m (put n s reg) ≡ true) names
  All-contains-put n s reg [] h = tt
  All-contains-put n s reg (m ∷ ms) h =
      (ground (arith, h.0, get-put n m s reg), All-contains-put n s reg ms h.1)

  -- It succeeds when every listed name is registered.
  pub commit_all_total :
      (r : Bool) (names : List String) (reg : Registry F)
      → All (λ n. contains n reg ≡ true) names
      → (reg' : Registry F) × (commit_all r names reg ≡ ok reg')
  unfolding commit_all
  commit_all_total r [] reg h = (reg, refl)
  commit_all_total r (n ∷ names) reg h = elim (Option-cases (get n reg)) [
    | inl x ↦ absurd (ground arith)
    | inr (s, es) ↦
        let mid = put n (commit_one r s) reg in
        let (reg', e) =
          commit_all_total r names mid (All-contains-put n (commit_one r s) reg names h.1) in
        (reg', rw es e)
  ]

  -- Setting values commits nothing.
  pub history-set_all :
      (j : String) (ps : List (String × Value F)) (reg reg' : Registry F)
      → set_all ps reg ≡ ok reg'
      → Option.map history_of (get j reg') ≡ Option.map history_of (get j reg)
  unfolding set_all
  history-set_all j [] reg reg' e = cc
  history-set_all j ((n, v) ∷ ps) reg reg' e = elim (Result-cases (set_registered n v reg)) [
    | inl (x, ex) ↦ cc
    | inr (mid, em) ↦
        ground (arith, history-set_registered n j v reg mid, history-set_all j ps mid reg')
  ]
