-- ===== src/Request/Provider/Query.antt =====
-- A provider holds sorted bars, and answers its queries from them.
use pinelib.Prelude.{
  ℕ, All, List, Option, String, [], arith, drop, int_eq, nat_eq, ok, ok-injective, pair_eq, refl,
  select, some, string_eq, subst, sym, ◌∷◌, ◌≡◌, ◌≤◌, >>=-eq-ok, Bool-cases, ap, inl, inr, length,
  suc, zero, ◌<◌, ◌==◌, ◌∙◌,
}
use pinelib.Prelude.Int.{ℤ}
use pinelib.Prelude.Dict.{Dict, get, get-put, put}
use pinelib.Core.Bar.{Bar}
use pinelib.Request.Merge.{time_at}
use pinelib.Request.Intrabar.{bisect_left, scan_inside}
use pinelib.Request.Intrabar.Bisect.{IsSorted, bisect_left-Splits}
use pinelib.Request.Intrabar.Selection.{inside, AllTimed, scan_drop-eq-select}
use pinelib.Request.Provider.{
  InMemoryDataProvider, add_tables, cap_bars, get_intrabar_bars, new_provider, scan_closed,
  validate_bars, validate_from,
}

module _ {F : Type 0} where
  All-later :
      (t u : ℕ) (bs : List (Bar F)) → t ≤ u → All (λ c. u ≤ c.time) bs → All (λ c. t ≤ c.time) bs
  All-later t u [] h k = tt
  All-later t u (b ∷ bs) h k = (omega (arith, k.0), All-later t u bs h k.1)

  validate_from-All :
      (t : ℕ) (bars : List (Bar F))
      → validate_from (some t) bars ≡ ok tt
      → All (λ c. t ≤ c.time) bars × IsSorted bars
  unfolding validate_from
  validate_from-All t [] e = (tt, tt)
  validate_from-All t (b ∷ bs) e =
      ground (arith, validate_from-All b.time bs, All-later t b.time bs)

  validate_bars-IsSorted :
      (bars out : List (Bar F)) → validate_bars bars ≡ ok out → (out ≡ bars) × IsSorted bars
  unfolding validate_bars validate_from
  validate_bars-IsSorted [] out e = (sym (ok-injective e), tt)
  validate_bars-IsSorted (b ∷ bs) out e =
      let (u, e1, e2) = >>=-eq-ok (validate_from (some b.time) bs) _ e in
      (sym (ok-injective e2), validate_from-All b.time bs e1)

  -- Every table of the provider is sorted.
  abbrev pub AllSorted : Dict (String × String) (List (Bar F)) → Type 0
  AllSorted table =
      (k : String × String) (bars : List (Bar F)) → get k table ≡ some bars → IsSorted bars

  AllSorted-put :
      (k : String × String) (bars : List (Bar F)) (t : Dict (String × String) (List (Bar F)))
      → IsSorted bars
      → AllSorted t
      → AllSorted (put k bars t)
  AllSorted-put k bars t s a j out e = elim (Bool-cases (k == j)) [
    | inl same ↦
        let q : bars ≡ out = ground (arith, get-put k j bars t, e, same) in subst IsSorted q s
    | inr other ↦ a j out (ground (arith, get-put k j bars t, e, other))
  ]

  scan_closed-eq-scan_inside :
      (chart : Bar F) (bs : List (Bar F))
      → All (λ b. chart.time ≤ b.time) bs
      → scan_closed chart bs ≡ scan_inside chart bs
  unfolding scan_closed scan_inside
  scan_closed-eq-scan_inside chart [] h = refl
  scan_closed-eq-scan_inside chart (b ∷ bs) h =
      ground (arith, scan_closed-eq-scan_inside chart bs h.1)

  All-drop :
      (x n : ℕ) (bs : List (Bar F))
      → ((j : ℕ) → n ≤ j → j < length bs → x ≤ time_at bs j)
      → All (λ b. x ≤ b.time) (drop n bs)
  All-drop x zero [] h = tt
  All-drop x zero (b ∷ bs) h = (
    h 0 (omega arith) (omega arith),
    All-drop x zero bs (λ j p q. h (suc j) (omega arith) (omega arith)),
  )
  All-drop x (suc n) [] h = tt
  All-drop x (suc n) (b ∷ bs) h = All-drop x n bs (λ j p q. h (suc j) (omega arith) (omega arith))

  scan_closed-inside :
      (bars : List (Bar F)) (chart : Bar F)
      → IsSorted bars
      → AllTimed chart bars
      → scan_closed chart (drop (bisect_left bars chart.time) bars) ≡ select (inside chart) bars
  scan_closed-inside bars chart s k =
      let n = bisect_left bars chart.time in
      let sp = bisect_left-Splits bars chart.time s in
      scan_closed-eq-scan_inside chart (drop n bars) (All-drop chart.time n bars sp.after)
      ∙ scan_drop-eq-select chart bars s k

module _ {F : Type 0} (normalize : String → String) where
  add_tables-AllSorted :
      (tables : List ((String × String) × List (Bar F)))
      (t out : Dict (String × String) (List (Bar F)))
      → AllSorted t
      → add_tables normalize tables t ≡ ok out
      → AllSorted out
  unfolding add_tables
  add_tables-AllSorted [] t out s e = subst AllSorted (ok-injective e) s
  add_tables-AllSorted ((key, bars) ∷ rest) t out s e =
      let (valid, e1, e2) = >>=-eq-ok (validate_bars bars) _ e in
      let (same, sorted) = validate_bars-IsSorted bars valid e1 in
      let k : String × String = (normalize key.0, normalize key.1) in
      add_tables-AllSorted rest (put k valid t) out (AllSorted-put k valid t (rw same sorted) s) e2

  -- A provider that was built answers an intrabar query of a table whose bars do not close before
  -- they open with the bars of the table that open and close within the chart bar, in order, up to
  -- the limit.
  pub get_intrabar_bars-eq-select :
      (tables : List ((String × String) × List (Bar F))) (p : InMemoryDataProvider F)
      (symbol timeframe : String) (chart : Bar F) (max_bars : Option ℤ) (bars : List (Bar F))
      → new_provider normalize tables ≡ ok p
      → get (normalize symbol, normalize timeframe) p.bars_by_key ≡ some bars
      → AllTimed chart bars
      → get_intrabar_bars normalize symbol chart (some timeframe) max_bars p
        ≡ ok (cap_bars max_bars (select (inside chart) bars))
  unfolding new_provider get_intrabar_bars
  get_intrabar_bars-eq-select tables p symbol timeframe chart max_bars bars e g k =
      let (table, e1, e2) = >>=-eq-ok (add_tables normalize tables []) _ e in
      let sorted = add_tables-AllSorted tables [] table (λ j out x. absurd (ground arith)) e1 in
      let same : p.bars_by_key ≡ table = ap (λ q. q.bars_by_key) (sym (ok-injective e2)) in
      let s = sorted (normalize symbol, normalize timeframe) bars (rw same at g) in
      rw (g, scan_closed-inside bars chart s k)
