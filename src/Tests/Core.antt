-- ===== src/Tests/Core.antt =====
-- Runs of the core on concrete inputs.
use pinelib.Prelude.{
  ◌↔◌, ◌++◌, not, ℕ, [], false, get_elem?, int_eq, map, nat_eq, none, ok, option_eq, or_else,
  pair_eq, refl, reverse, some, string_eq, true, ◌>>=◌, ◌||◌, ◌∷◌, ◌≡◌, String,
}
use pinelib.Prelude.Int.{negsuc, pos, ◌+ℤ◌}
use pinelib.Prelude.Dict.{get}
use pinelib.Core.Value.{float, na, Value}
use pinelib.Core.Bar.{Bar, make_bar}
use pinelib.Core.Bar.Accepts.{Fits, make_bar_iff}
use pinelib.Core.Series.Fixnan.{first_present, fixnan, like_series, fixnan-first_present}
use pinelib.Core.Series.{Series, commit_current, getitem, mark_between_bars, set_current}
use pinelib.Core.Series.Timeline.{
  getitem-feed, IsPlain, close_bar-timeline, feed, getitem-eq-timeline, one_bar, open_bar-timeline,
  timeline,
}
use pinelib.Core.Runtime.State.{Runtime, Registry}
use pinelib.Core.Runtime.Registry.{commit_all, commit_one}
use pinelib.Core.Runtime.Registry.Laws.{commit_all-history, listed}
use pinelib.Core.Runtime.Lifecycle.{new_runtime}
use pinelib.Core.Runtime.Lifecycle.History.{run_bars, Column, column, column_name}
use pinelib.Core.Runtime.Lifecycle.Run.{run_new_runtime}
use pinelib.Tests.Data.{whole, whole-IsOrder, btc, config, minutes, three_bars}

run_new_runtime_example :
    (rt : Runtime ℕ ℕ) × ((new_runtime btc minutes config (pos 0) >>= run_bars whole three_bars)
      ≡ ok rt)
    × (rt.chart_bars ≡ three_bars)
    × (rt.bar_index ≡ negsuc 0 +ℤ pos 3)
    × ((c : Column) (k : ℕ)
        → (s : Series ℕ) × (get (column_name c) rt.series_registry ≡ some s)
          × (getitem s (pos k)
              ≡ ok (or_else (get_elem? (reverse (map (column c) three_bars)) k) na)))
run_new_runtime_example =
    run_new_runtime whole btc minutes config (pos 0) three_bars (refl, (refl, (refl, tt)))

-- A float series between bars, after three bars.
abbrev closes : Series ℕ
closes = record {
  name = "close";
  dtype = "float";
  initial = na;
  type_info = none;
  reference_mode = none;
  current = float 25;
  history = float 20 ∷ float 21 ∷ float 25 ∷ [];
  between_bars = true;
}

abbrev opened : Series ℕ
opened = record closes { current = float 30; between_bars = false }

closes-IsPlain : IsPlain closes
closes-IsPlain = record { no_container = refl; readable = refl; supported = refl }

getitem-eq-timeline_example : getitem closes (pos 2) ≡ ok (float 20)
getitem-eq-timeline_example = getitem-eq-timeline closes 2 closes-IsPlain (λ h. refl)

close_bar-timeline_example :
    timeline (mark_between_bars (commit_current opened))
    ≡ float 30 ∷ float 25 ∷ float 21 ∷ float 20 ∷ []
close_bar-timeline_example =
    close_bar-timeline opened (record { no_container = refl; readable = refl; supported = refl })
      refl

opened-set : set_current (float 30) closes ≡ ok opened
unfolding set_current
opened-set = refl

open_bar-timeline_example : timeline opened ≡ float 30 ∷ timeline closes
open_bar-timeline_example = open_bar-timeline (float 30) closes (λ h. refl) refl opened-set

abbrev no_closes : Series ℕ
no_closes = record closes { current = na; history = []; between_bars = false }

fed : feed (float 20 ∷ float 21 ∷ float 25 ∷ []) no_closes ≡ ok closes
unfolding feed one_bar set_current commit_current mark_between_bars
fed = refl

getitem-feed_example : getitem closes (pos 5) ≡ ok na
getitem-feed_example =
    getitem-feed (float 20 ∷ float 21 ∷ float 25 ∷ []) 5 no_closes
      (record { no_container = refl; readable = refl; supported = refl }) refl refl fed

abbrev registry : Registry ℕ
registry = ("close", opened) ∷ ("other", closes) ∷ []

committed :
    commit_all false ("close" ∷ []) registry
    ≡ ok (("close", commit_one false opened) ∷ ("other", closes) ∷ [])
unfolding commit_all
committed = refl

commit_all-history_example :
    (t : Series ℕ) × (get {K = String} "close"
        (("close", commit_one false opened) ∷ ("other", closes) ∷ [])
      ≡ some t)
    × (listed "close" ("close" ∷ []) ≡ true
        → (t.history ≡ opened.history ++ opened.current ∷ [])
          × (t.current ≡ opened.current)
          × (t.between_bars ≡ (not false || opened.between_bars)))
    × (listed "close" ("close" ∷ []) ≡ false → t ≡ opened)
commit_all-history_example =
    commit_all-history false "close" ("close" ∷ []) registry
      (("close", commit_one false opened) ∷ ("other", closes) ∷ []) opened (refl, tt) committed refl
      (record { no_container = refl; readable = refl; supported = refl })

make_bar_iff_example :
    ((b : Bar ℕ) × (make_bar whole (pos 0) 20 22 18 20 7 (some (pos 10)) ≡ ok b))
    ↔ Fits whole (pos 0) 20 22 18 20 (some (pos 10))
make_bar_iff_example =
    make_bar_iff whole whole-IsOrder (pos 0) 20 22 18 20 7 (some (pos 10))
      (record { open_number = refl; high_number = refl; low_number = refl; close_number = refl })

fixnan-first_present_example :
    fixnan whole (like_series closes) ≡ first_present whole (timeline closes)
fixnan-first_present_example =
    fixnan-first_present whole closes
      (record { no_container = refl; readable = refl; supported = refl }) (λ _. refl) refl
