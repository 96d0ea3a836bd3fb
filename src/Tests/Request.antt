-- ===== src/Tests/Request.antt =====
-- Runs of requests and the provider on concrete inputs.
use pinelib.Prelude.{ℕ, string_eq, pair_eq, List, String, [], arith, map, ok, refl, some, ◌∷◌, ◌≡◌}
use pinelib.Prelude.Int.{pos}
use pinelib.Core.Value.{Value, float}
use pinelib.Core.Bar.{Bar}
use pinelib.Request.Merge.{
  merge_requested_series, append_merged, effective_close_time, effective_closes_from, empty_cache,
  finalized, gaps_off, lookahead_off, requested_lists,
}
use pinelib.Request.Merge.Latest.{latest}
use pinelib.Request.Merge.Finalized.{merge_requested_series-latest, IsChart, IsOrdered}
use pinelib.Request.Merge.Incremental.{append_merged-append}
use pinelib.Request.Intrabar.{bars_inside_chart_bar}
use pinelib.Request.Intrabar.Bisect.{IsSorted}
use pinelib.Request.Intrabar.Selection.{bars_inside-eq-select, AllTimed}
use pinelib.Request.Provider.{
  get_intrabar_bars, InMemoryDataProvider, add_tables, new_provider, validate_bars, validate_from,
}
use pinelib.Request.Provider.Query.{get_intrabar_bars-eq-select}
use pinelib.Tests.Data.{bar, three_bars}

-- Requested bars of twice the chart's length, whose values are known at 20 and at 40.
abbrev requested : List (Bar ℕ)
requested = bar 0 20 21 ∷ bar 20 40 25 ∷ []

abbrev values : List (Value ℕ)
values = float 21 ∷ float 25 ∷ []

requested-IsOrdered : IsOrdered (requested_lists requested) values
unfolding requested_lists effective_closes_from effective_close_time
requested-IsOrdered = record {
  times = ((omega arith, tt), (tt, tt));
  effective = ((omega arith, tt), (tt, tt));
  times_fit = refl;
  effective_fit = refl;
}

three_bars-IsChart : IsChart three_bars
three_bars-IsChart = (
  ((omega arith, omega arith), ((omega arith, omega arith), tt)),
  (((omega arith, omega arith), tt), (tt, tt)),
)

merge_requested_series-latest_example :
    merge_requested_series values requested three_bars "barmerge.gaps_off" "barmerge.lookahead_off"
    ≡ ok (map (λ c. latest values (finalized (requested_lists requested) values c) 2) three_bars)
merge_requested_series-latest_example =
    merge_requested_series-latest values requested three_bars requested-IsOrdered three_bars-IsChart

append_merged-append_example :
    append_merged gaps_off lookahead_off requested values three_bars
      (append_merged gaps_off lookahead_off requested values (bar 0 10 20 ∷ []) empty_cache)
    ≡ append_merged gaps_off lookahead_off requested values three_bars empty_cache
append_merged-append_example =
    append_merged-append gaps_off lookahead_off requested values (bar 0 10 20 ∷ [])
      (bar 10 20 21 ∷ bar 20 30 25 ∷ [])

three_bars-IsSorted : IsSorted three_bars
three_bars-IsSorted = ((omega arith, (omega arith, tt)), ((omega arith, tt), (tt, tt)))

three_bars-AllTimed : AllTimed (bar 10 30 20) three_bars
three_bars-AllTimed = (omega arith, (omega arith, (omega arith, tt)))

bars_inside-eq-select_example :
    bars_inside_chart_bar three_bars (bar 10 30 20) ≡ bar 10 20 21 ∷ bar 20 30 25 ∷ []
bars_inside-eq-select_example =
    bars_inside-eq-select (bar 10 30 20) three_bars three_bars-IsSorted three_bars-AllTimed

abbrev same_text : String → String
same_text s = s

abbrev provider : InMemoryDataProvider ℕ
provider = record { bars_by_key = (("BTC", "1"), three_bars) ∷ []; metadata_log = [] }

provided : new_provider same_text ((("BTC", "1"), three_bars) ∷ []) ≡ ok provider
unfolding new_provider add_tables validate_bars validate_from
provided = refl

get_intrabar_bars-eq-select_example :
    get_intrabar_bars same_text "BTC" (bar 10 30 20) (some "1") (some (pos 1)) provider
    ≡ ok (bar 10 20 21 ∷ [])
get_intrabar_bars-eq-select_example =
    get_intrabar_bars-eq-select same_text ((("BTC", "1"), three_bars) ∷ []) provider "BTC" "1"
      (bar 10 30 20) (some (pos 1)) three_bars provided refl three_bars-AllTimed
