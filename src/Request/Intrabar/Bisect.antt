-- ===== src/Request/Intrabar/Bisect.antt =====
-- What the search bisect_left of the standard library finds: the first bar that opens at or after
-- a time.
use pinelib.Prelude.{
  ℕ, All, List, [], arith, dec_lt, false, length, ltb, suc, true, zero, ◌+◌, ◌-◌, ◌/◌, ◌<◌, ◌∷◌,
  ◌≡◌, ◌≤◌,
}
use pinelib.Core.Bar.{Bar}
use pinelib.Request.Merge.{time_at}
use pinelib.Request.Intrabar.{bisect_left, bisect_loop}

module _ {F : Type 0} where
  -- Bars in ascending order of time.
  abbrev pub IsSorted : List (Bar F) → Type 0
  IsSorted [] = Unit
  IsSorted (b ∷ bs) = All (λ c. b.time ≤ c.time) bs × IsSorted bs

  time_at-All :
      (t : ℕ) (bs : List (Bar F)) (j : ℕ)
      → All (λ c. t ≤ c.time) bs
      → j < length bs
      → t ≤ time_at bs j
  time_at-All t [] j h l = elim l [ ]
  time_at-All t (b ∷ bs) zero h l = h.0
  time_at-All t (b ∷ bs) (suc j) h l = time_at-All t bs j h.1 (omega arith)

  time_at_mono :
      (bs : List (Bar F)) (i j : ℕ)
      → IsSorted bs
      → i ≤ j
      → j < length bs
      → time_at bs i ≤ time_at bs j
  time_at_mono [] i j s h l = elim l [ ]
  time_at_mono (b ∷ bs) zero zero s h l = omega arith
  time_at_mono (b ∷ bs) zero (suc j) s h l = time_at-All b.time bs j s.0 (omega arith)
  time_at_mono (b ∷ bs) (suc i) zero s h l = absurd (omega arith)
  time_at_mono (b ∷ bs) (suc i) (suc j) s h l = time_at_mono bs i j s.1 (omega arith) (omega arith)

  -- All bars before the position open before x, and all from it on do not.
  pub record Splits (bars : List (Bar F)) (x i : ℕ) : Type 0 where
    pub within : i ≤ length bars
    pub before : (j : ℕ) → j < i → time_at bars j < x
    pub after : (j : ℕ) → i ≤ j → j < length bars → x ≤ time_at bars j

  bisect_loop-Splits :
      (fuel : ℕ) (bars : List (Bar F)) (x lo hi : ℕ)
      → IsSorted bars
      → lo ≤ hi
      → hi ≤ length bars
      → hi - lo < fuel
      → ((j : ℕ) → j < lo → time_at bars j < x)
      → ((j : ℕ) → hi ≤ j → j < length bars → x ≤ time_at bars j)
      → Splits bars x (bisect_loop fuel bars x lo hi)
  unfolding bisect_loop
  bisect_loop-Splits zero bars x lo hi s a b f below above = absurd (omega arith)
  bisect_loop-Splits (suc fuel) bars x lo hi s a b f below above = elim (dec_lt lo hi) [
    | no ge ↦
        let e : ltb lo hi ≡ false = ground arith in
        rw e (record {
          within = omega arith;
          before = below;
          after = λ j p q. above j (omega arith) q;
        })
    | yes lt ↦
        let e : ltb lo hi ≡ true = ground arith in
        let mid = (lo + hi) / 2 in
        elim (dec_lt (time_at bars mid) x) [
          | yes small ↦
              let t : ltb (time_at bars mid) x ≡ true = ground arith in
              rw (e, t)
                (bisect_loop-Splits fuel bars x (mid + 1) hi s (omega arith) b (omega arith)
                  (λ j p. omega (arith, time_at_mono bars j mid s (omega arith) (omega arith)))
                  above)
          | no large ↦
              let t : ltb (time_at bars mid) x ≡ false = ground arith in
              rw (e, t)
                (bisect_loop-Splits fuel bars x lo mid s (omega arith) (omega arith) (omega arith)
                  below (λ j p q. omega (arith, time_at_mono bars mid j s p q)))
        ]
  ]

  -- On sorted bars the position found by bisect_left has every bar before it opening before x and
  -- none from it on.
  pub bisect_left-Splits :
      (bars : List (Bar F)) (x : ℕ) → IsSorted bars → Splits bars x (bisect_left bars x)
  unfolding bisect_left
  bisect_left-Splits bars x s =
      bisect_loop-Splits (length bars + 1) bars x 0 (length bars) s (omega arith) (omega arith)
        (omega arith) (λ j p. absurd (omega arith)) (λ j p q. absurd (omega arith))
