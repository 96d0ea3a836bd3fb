-- ===== src/Request/Merge/Latest.antt =====
-- Where the loop of the merge stops, and the value that it holds there, against a search from the end.
use pinelib.Prelude.{
  ℕ, Bool, List, arith, false, if◌then◌else◌, refl, suc, true, zero, ◌+◌, ◌<◌, ◌≡◌, ◌≤◌, ◌⊎◌,
  Bool-cases, dec_lt, inl, inr, ◌∙◌,
}
use pinelib.Core.Value.{Value, na}
use pinelib.Request.Merge.{loop, value_at, take_value}

module _ {F : Type 0} (values : List (Value F)) where
  -- The specification: the value at the last position below n that passes the test, or na.
  pub latest : (ℕ → Bool) → ℕ → Value F
  latest test zero = na
  latest test (suc n) = let rest = latest test n in if test n then value_at values n else rest

  -- The value before a position.
  abbrev pub before : ℕ → Value F
  before zero = na
  before (suc i) = value_at values i

  pub latest-split :
      (test : ℕ → Bool) (i n : ℕ)
      → ((j : ℕ) → j < i → test j ≡ true)
      → ((j : ℕ) → i ≤ j → j < n → test j ≡ false)
      → i ≤ n
      → latest test n ≡ before i
  unfolding latest
  latest-split test zero zero below above h = refl
  latest-split test (suc i) zero below above h = absurd (omega arith)
  latest-split test i (suc n) below above h = elim (dec_lt n i) [
    | yes lt ↦ let e : i ≡ suc n = omega arith in rw (e, below n lt)
    | no ge ↦
        rw (above n (omega arith) (omega arith))
          (latest-split test i n below (λ j p q. above j p (omega arith)) (omega arith))
  ]

  -- Where the while loop stops, and what it holds there.
  pub record Stops (test : ℕ → Bool) (i k : ℕ) (s : Value F × Value F)
      (out : ℕ × (Value F × Value F)) : Type 0 where
    pub from : i ≤ out.0
    pub passed : (j : ℕ) → i ≤ j → j < out.0 → test j ≡ true
    pub failed : out.0 < i + k → test out.0 ≡ false
    pub below : out.0 ≤ i + k
    pub held : (out.0 ≡ i) × (out.1 ≡ s) ⊎ (i < out.0) × (out.1 ≡ (before out.0, before out.0))

  held_after :
      (test : ℕ → Bool) (i k : ℕ) (out : ℕ × (Value F × Value F)) (s : Value F × Value F)
      → Stops test (i + 1) k (take_value values i s) out
      → out.1 ≡ (before out.0, before out.0)
  held_after test i k out s r = elim r.held [
    | inl (same, kept) ↦ let e : out.0 ≡ suc i = omega (arith, same) in kept ∙ rw e refl
    | inr (more, kept) ↦ kept
  ]

  passed_below :
      (test : ℕ → Bool) (i out : ℕ)
      → test i ≡ true
      → ((j : ℕ) → i + 1 ≤ j → j < out → test j ≡ true)
      → (j : ℕ) → i ≤ j
      → j < out
      → test j ≡ true
  passed_below test i out h later j p q = elim (dec_lt i j) [
    | yes lt ↦ later j (omega arith) q
    | no ge ↦ let e : j ≡ i = omega arith in rw e h
  ]

  pub loop-Stops :
      (test : ℕ → Bool) (k i : ℕ) (s : Value F × Value F)
      → Stops test i k s (loop k test (take_value values) i s)
  unfolding loop
  loop-Stops test zero i s = record {
    from = omega arith;
    passed = λ j p q. absurd (omega arith);
    failed = λ p. absurd (omega arith);
    below = omega arith;
    held = inl (refl, refl);
  }
  loop-Stops test (suc k) i s = elim (Bool-cases (test i)) [
    | inr stop ↦ rw stop (record {
      from = omega arith;
      passed = λ j p q. absurd (omega arith);
      failed = λ p. stop;
      below = omega arith;
      held = inl (refl, refl);
    })
    | inl go ↦
        let s' = take_value values i s in
        let r = loop-Stops test k (i + 1) s' in
        rw go (record {
          from = omega (arith, r.from);
          passed = λ j p q.
              passed_below test i (loop k test (take_value values) (i + 1) s').0 go r.passed j p q;
          failed = λ p. r.failed (omega arith);
          below = omega (arith, r.below);
          held = inr (
            omega (arith, r.from),
            held_after test i k (loop k test (take_value values) (i + 1) s') s r,
          );
        })
  ]
