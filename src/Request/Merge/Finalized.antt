-- ===== src/Request/Merge/Finalized.antt =====
-- Without lookahead and gaps a chart bar shows the last requested bar that had closed by then, and
-- no later one.
use pinelib.Prelude.{
  ℕ, All, List, [], ap, arith, dec_lt, false, if◌then◌else◌, inl, inr, length, length-map, map,
  nat_beq, nat_beq_iff, ok, refl, suc, sym, true, zero, ◌-◌, ◌<◌, ◌∙◌, ◌∷◌, ◌≡◌, ◌≤◌,
}
use mathlib.Core.Path.{ap₂}
use pinelib.Prelude.Int.{ℤ, ◌≤ℤ◌}
use pinelib.Core.Value.{Value, is_sentinel, na}
use pinelib.Core.Bar.{Bar}
use pinelib.Request.Merge.{
  MergeState, Requested, append_merged, at, bar_close_time, cached_lists, empty_cache, finalized,
  gaps_off, int_at, lookahead_off, merge_bar, merge_bars, merge_requested_series, parse_gaps,
  parse_lookahead, requested_lists, run_loop, settle, take_value,
}
use pinelib.Request.Merge.Latest.{latest, Stops, before, latest-split, loop-Stops}

-- Ascending lists, each element against all later ones.
abbrev pub IsAscending : List ℕ → Type 0
IsAscending [] = Unit
IsAscending (x ∷ xs) = All (λ y. x ≤ y) xs × IsAscending xs

abbrev pub IsAscendingℤ : List ℤ → Type 0
IsAscendingℤ [] = Unit
IsAscendingℤ (x ∷ xs) = All (λ y. x ≤ℤ y) xs × IsAscendingℤ xs

at_mono : (xs : List ℕ) (i j : ℕ) → IsAscending xs → i ≤ j → j < length xs → at xs i ≤ at xs j
at_mono [] i j a h l = elim l [ ]
at_mono (x ∷ xs) zero zero a h l = omega arith
at_mono (x ∷ xs) zero (suc j) a h l = at-All x xs j a.0 (omega arith)
  where
    at-All : (x : ℕ) (ys : List ℕ) (j : ℕ) → All (λ y. x ≤ y) ys → j < length ys → x ≤ at ys j
    at-All x [] j b l = elim l [ ]
    at-All x (y ∷ ys) zero b l = b.0
    at-All x (y ∷ ys) (suc j) b l = at-All x ys j b.1 (omega arith)
at_mono (x ∷ xs) (suc i) zero a h l = absurd (omega arith)
at_mono (x ∷ xs) (suc i) (suc j) a h l = at_mono xs i j a.1 (omega arith) (omega arith)

int_at_mono :
    (xs : List ℤ) (i j : ℕ) → IsAscendingℤ xs → i ≤ j → j < length xs → int_at xs i ≤ℤ int_at xs j
int_at_mono [] i j a h l = elim l [ ]
int_at_mono (x ∷ xs) zero zero a h l = omega arith
int_at_mono (x ∷ xs) zero (suc j) a h l = int_at-All x xs j a.0 (omega arith)
  where
    int_at-All :
        (x : ℤ) (ys : List ℤ) (j : ℕ) → All (λ y. x ≤ℤ y) ys → j < length ys → x ≤ℤ int_at ys j
    int_at-All x [] j b l = elim l [ ]
    int_at-All x (y ∷ ys) zero b l = b.0
    int_at-All x (y ∷ ys) (suc j) b l = int_at-All x ys j b.1 (omega arith)
int_at_mono (x ∷ xs) (suc i) zero a h l = absurd (omega arith)
int_at_mono (x ∷ xs) (suc i) (suc j) a h l = int_at_mono xs i j a.1 (omega arith) (omega arith)

-- The requested bars ascend in time and in effective close, one entry for each value.
pub record IsOrdered {F : Type 0} (r : Requested) (values : List (Value F)) : Type 0 where
  pub times : IsAscending r.times
  pub effective : IsAscendingℤ r.effective
  pub times_fit : length r.times ≡ length values
  pub effective_fit : length r.effective ≡ length values

module _ {F : Type 0} where
  -- A chart bar neither opens nor closes before an earlier one.
  abbrev pub IsChart : List (Bar F) → Type 0
  IsChart [] = Unit
  IsChart (c ∷ cs) =
      All (λ d. (c.time ≤ d.time) × (bar_close_time c ≤ bar_close_time d)) cs × IsChart cs

module _ {F : Type 0} (r : Requested) (values : List (Value F)) (o : IsOrdered r values) where
  -- What holds between two chart bars, for a chart bar still to come.
  record Ready (st : MergeState F) (c : Bar F) : Type 0 where
    within : st.lookahead_off_gaps_off_index ≤ length values
    value : st.last_finalized_value ≡ before values st.lookahead_off_gaps_off_index
    passed : (j : ℕ) → j < st.lookahead_off_gaps_off_index → finalized r values c j ≡ true

  finalized-down :
      (c : Bar F) (i j : ℕ)
      → i ≤ j
      → j < length values
      → finalized r values c i ≡ false
      → finalized r values c j ≡ false
  finalized-down c i j h l f = ground (
    arith,
    at_mono r.times i j o.times h (omega (arith, o.times_fit)),
    int_at_mono r.effective i j o.effective h (omega (arith, o.effective_fit)),
  )

  settle-fields :
      (st : MergeState F) (out : ℕ × (Value F × Value F))
      → let st' = record st {
        last_finalized_value = out.1.1;
        lookahead_off_gaps_off_index = out.0;
      } in
        let (v, st'') = settle gaps_off out.1.0 st' in
        (v ≡ (if is_sentinel out.1.0 then out.1.1 else out.1.0))
        × (st''.last_finalized_value ≡ out.1.1)
        × (st''.lookahead_off_gaps_off_index ≡ out.0)
  unfolding settle
  settle-fields st out = ground arith

  -- The loop from a ready state, whatever the chart bar.
  module _ (c : Bar F) (st : MergeState F) (h : Ready st c) where
    abbrev found : ℕ × (Value F × Value F)
    found =
        run_loop r values c (finalized r values c) (take_value values)
          st.lookahead_off_gaps_off_index (na, st.last_finalized_value)

    stops :
        Stops values
          (finalized r values c)
          st.lookahead_off_gaps_off_index
          (length values - st.lookahead_off_gaps_off_index)
          (na, st.last_finalized_value)
          found
    stops = loop-Stops values _ _ _ _

    last-before : found.1.1 ≡ before values found.0
    last-before = elim stops.held [
      | inl (same, kept) ↦ ap (λ p. p.1) kept ∙ h.value ∙ ap (before values) (sym same)
      | inr (more, kept) ↦ ap (λ p. p.1) kept
    ]

    value-before : (if is_sentinel found.1.0 then found.1.1 else found.1.0) ≡ before values found.0
    value-before = elim stops.held [
      | inl (same, kept) ↦ ground (arith, last-before, kept)
      | inr (more, kept) ↦ ground (arith, last-before, kept)
    ]

    found-passed : (j : ℕ) → j < found.0 → finalized r values c j ≡ true
    found-passed j lt = elim (dec_lt j st.lookahead_off_gaps_off_index) [
      | yes old ↦ h.passed j old
      | no new ↦ stops.passed j (omega arith) lt
    ]

    found-latest : latest values (finalized r values c) (length values) ≡ before values found.0
    found-latest =
        latest-split values (finalized r values c) found.0 (length values) found-passed
          (λ j le lt. finalized-down c found.0 j le lt (stops.failed (omega (arith, h.within))))
          (omega (arith, stops.below, h.within))

  merge_bar-latest :
      (c : Bar F) (st : MergeState F)
      → Ready st c
      → (Ready (merge_bar gaps_off lookahead_off r values c st).1 c)
        × ((merge_bar gaps_off lookahead_off r values c st).0
            ≡ latest values (finalized r values c) (length values))
  unfolding merge_bar
  merge_bar-latest c st h =
      let out = found c st h in
      let (ev, el, ei) = settle-fields st out in
      (
        record {
          within = rw ei (omega (arith, (stops c st h).below, h.within));
          value = rw (el, ei) (last-before c st h);
          passed = rw ei (found-passed c st h);
        },
        ev ∙ value-before c st h ∙ sym (found-latest c st h),
      )

  Ready-later :
      (st : MergeState F) (c d : Bar F)
      → c.time ≤ d.time
      → bar_close_time c ≤ bar_close_time d
      → Ready st c
      → Ready st d
  Ready-later st c d t u h = record {
    within = h.within;
    value = h.value;
    passed = λ j lt. ground (arith, h.passed j lt);
  }

  Ready-All :
      (st : MergeState F) (c : Bar F) (ds : List (Bar F))
      → All (λ d. (c.time ≤ d.time) × (bar_close_time c ≤ bar_close_time d)) ds
      → Ready st c
      → All (Ready st) ds
  Ready-All st c [] h k = tt
  Ready-All st c (d ∷ ds) h k = (Ready-later st c d h.0.0 h.0.1 k, Ready-All st c ds h.1 k)

  Ready-new : (cs : List (Bar F)) → All (Ready empty_cache.state) cs
  Ready-new [] = tt
  Ready-new (c ∷ cs) = (
    record { within = omega arith; value = refl; passed = λ j lt. absurd (omega arith) },
    Ready-new cs,
  )

  merge_bars-latest :
      (cs : List (Bar F)) (st : MergeState F)
      → IsChart cs
      → All (Ready st) cs
      → (merge_bars gaps_off lookahead_off r values cs st).0
        ≡ map (λ c. latest values (finalized r values c) (length values)) cs
  unfolding merge_bars
  merge_bars-latest [] st ch h = refl
  merge_bars-latest (c ∷ cs) st ch h =
      let (ready, v) = merge_bar-latest c st h.0 in
      let st' = (merge_bar gaps_off lookahead_off r values c st).1 in
      ap₂ (λ x xs. x ∷ xs) v (merge_bars-latest cs st' ch.1 (Ready-All st' c cs ch.0 ready))

module _ {F : Type 0} where
  -- With gaps and lookahead off, over ordered requested bars and an ordered chart, the merge gives
  -- every chart bar the value of the last requested bar that has opened by the chart bar's time
  -- and closed by its close, or na if there is none.
  pub merge_requested_series-latest :
      (values : List (Value F)) (bars charts : List (Bar F))
      → IsOrdered (requested_lists bars) values
      → IsChart charts
      → merge_requested_series values bars charts "barmerge.gaps_off" "barmerge.lookahead_off"
        ≡ ok (
            map
              (λ c. latest values (finalized (requested_lists bars) values c) (length values))
              charts)
  unfolding merge_requested_series append_merged parse_gaps parse_lookahead cached_lists
  merge_requested_series-latest values bars charts o ch =
      let fit : nat_beq (length values) (length bars) ≡ true =
        (nat_beq_iff _ _).1 (same_length o) in
      rw fit (
        ap ok (
          merge_bars-latest (requested_lists bars) values o charts empty_cache.state ch
            (Ready-new (requested_lists bars) values o charts)))
    where
      same_length : IsOrdered (requested_lists bars) values → length values ≡ length bars
      same_length o' = sym o'.times_fit ∙ unfold requested_lists in length-map bars (λ b. b.time)
