-- ===== src/Request/Intrabar.antt =====
-- The lower-timeframe bars inside a chart bar (`_bars_inside_chart_bar` of
-- pinelib/request/security.py): a binary search for the first bar, then a scan.
pub mod Bisect
pub mod Selection
use pinelib.Prelude.{
  ℕ, List, [], drop, if◌then◌else◌, leb, length, ltb, suc, zero, ◌&&◌, ◌+◌, ◌/◌, ◌∷◌,
}
use pinelib.Core.Bar.{Bar}
use pinelib.Request.Merge.{bar_close_time, time_at}

module _ {F : Type 0} where
  -- The standard library's bisect.bisect_left with `key=lambda b: b.time`, between lo and hi. Each round at least
  -- halves hi - lo, so that fuel above hi - lo is never used up.
  unfoldable pub bisect_loop : ℕ → List (Bar F) → ℕ → ℕ → ℕ → ℕ
  bisect_loop zero bars x lo hi = lo
  bisect_loop (suc fuel) bars x lo hi =
      let mid = (lo + hi) / 2 in
      let right = ltb (time_at bars mid) x in
      let rest =
        bisect_loop fuel bars x (if right then mid + 1 else lo) (if right then hi else mid) in
      if ltb lo hi then rest else lo

  unfoldable pub bisect_left : List (Bar F) → ℕ → ℕ
  bisect_left bars x = bisect_loop (length bars + 1) bars x 0 (length bars)

  -- The scan from the position found, over the bars from there on.
  unfoldable pub scan_inside : Bar F → List (Bar F) → List (Bar F)
  scan_inside chart [] = []
  scan_inside chart (b ∷ rest) =
      let selected = scan_inside chart rest in
      if ltb (bar_close_time chart) b.time
      then []
      else if leb chart.time b.time && leb (bar_close_time b) (bar_close_time chart)
      then b ∷ selected
      else selected

  unfoldable pub bars_inside_chart_bar : List (Bar F) → Bar F → List (Bar F)
  bars_inside_chart_bar [] chart = []
  bars_inside_chart_bar (b ∷ bs) chart =
      scan_inside chart (drop (bisect_left (b ∷ bs) chart.time) (b ∷ bs))
