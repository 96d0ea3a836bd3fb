-- ===== src/Request/Intrabar/Selection.antt =====
-- On sorted bars the search and the scan select what a filter over all bars selects.
use pinelib.Prelude.{
  ℕ, All, Bool, List, [], arith, drop, leb, length, refl, select, suc, zero, ◌&&◌, ◌<◌, ◌∙◌, ◌∷◌,
  ◌≡◌, ◌≤◌,
}
use pinelib.Core.Bar.{Bar}
use pinelib.Request.Merge.{bar_close_time, time_at}
use pinelib.Request.Intrabar.{bars_inside_chart_bar, bisect_left, scan_inside}
use pinelib.Request.Intrabar.Bisect.{bisect_left-Splits, IsSorted}

module _ {F : Type 0} (chart : Bar F) where
  -- The bar opens and closes within the chart bar.
  abbrev pub inside : Bar F → Bool
  inside b = leb chart.time b.time && leb (bar_close_time b) (bar_close_time chart)

  -- No bar closes before it opens, as `Bar.validate` checks.
  abbrev pub AllTimed : List (Bar F) → Type 0
  AllTimed bs = All (λ b. b.time ≤ bar_close_time b) bs

  select_none-late :
      (t : ℕ) (bs : List (Bar F))
      → All (λ b. t ≤ b.time) bs
      → AllTimed bs
      → bar_close_time chart < t
      → select inside bs ≡ []
  select_none-late t [] h k l = refl
  select_none-late t (b ∷ bs) h k l = ground (arith, select_none-late t bs h.1 k.1 l)

  scan_inside-eq-select :
      (bs : List (Bar F)) → IsSorted bs → AllTimed bs → scan_inside chart bs ≡ select inside bs
  unfolding scan_inside
  scan_inside-eq-select [] s k = refl
  scan_inside-eq-select (b ∷ bs) s k =
      ground (arith, scan_inside-eq-select bs s.1 k.1, select_none-late b.time bs s.0 k.1)

  drop-IsSorted :
      (n : ℕ) (bs : List (Bar F))
      → IsSorted bs
      → AllTimed bs
      → IsSorted (drop n bs) × AllTimed (drop n bs)
  drop-IsSorted zero bs s k = (s, k)
  drop-IsSorted (suc n) [] s k = (tt, tt)
  drop-IsSorted (suc n) (b ∷ bs) s k = drop-IsSorted n bs s.1 k.1

  select-drop :
      (n : ℕ) (bs : List (Bar F))
      → ((j : ℕ) → j < n → time_at bs j < chart.time)
      → n ≤ length bs
      → select inside (drop n bs) ≡ select inside bs
  select-drop zero bs h l = refl
  select-drop (suc n) [] h l = absurd (omega arith)
  select-drop (suc n) (b ∷ bs) h l =
      ground
        (arith, h 0 (omega arith), select-drop n bs (λ j p. h (suc j) (omega arith)) (omega arith))

  pub scan_drop-eq-select :
      (bs : List (Bar F))
      → IsSorted bs
      → AllTimed bs
      → scan_inside chart (drop (bisect_left bs chart.time) bs) ≡ select inside bs
  scan_drop-eq-select bs s k =
      let n = bisect_left bs chart.time in
      let sp = bisect_left-Splits bs chart.time s in
      let (s', k') = drop-IsSorted n bs s k in
      scan_inside-eq-select (drop n bs) s' k' ∙ select-drop n bs sp.before sp.within

  -- On sorted bars that do not close before they open, the selection is all the bars that open and
  -- close within the chart bar, in order.
  pub bars_inside-eq-select :
      (bs : List (Bar F))
      → IsSorted bs
      → AllTimed bs
      → bars_inside_chart_bar bs chart ≡ select inside bs
  unfolding bars_inside_chart_bar
  bars_inside-eq-select [] s k = refl
  bars_inside-eq-select (b ∷ bs) s k = scan_drop-eq-select (b ∷ bs) s k
