-- ===== src/Request/Merge.antt =====
-- Merging the values of a requested timeframe into the chart's bars
-- (pinelib/request/security.py). The merge is a loop over the chart's bars whose position in the
-- requested bars is kept in a cache, so that later calls go on where earlier ones stopped.
use pinelib.Prelude.{
  ℕ, Bool, List, Option, Result, String, [], drop, get_elem?, if◌then◌else◌, int_eq, leb, length,
  ltb, map, nat_beq, nat_eq, none, not, ok, or_else, pair_eq, raise, raise_if, request_error, some,
  string_eq, suc, zero, ◌&&◌, ◌++◌, ◌+◌, ◌-◌, ◌==◌, ◌>>=◌, ◌>>◌, ◌∷◌,
}
pub mod Incremental
pub mod Latest
pub mod Finalized
use pinelib.Prelude.Int.{ℤ, leb_ℤ, pos, ◌+ℤ◌, ◌-ℤ◌}
use pinelib.Core.Value.{Value, is_sentinel, na}
use pinelib.Core.Bar.{Bar}

pub data GapsMode : Type 0 where
  gaps_on gaps_off : GapsMode

pub data LookaheadMode : Type 0 where
  lookahead_on lookahead_off : LookaheadMode

unfoldable pub parse_gaps : String → Result GapsMode
parse_gaps s =
    if s == "barmerge.gaps_on"
    then ok gaps_on
    else if s == "barmerge.gaps_off"
    then ok gaps_off
    else raise request_error

unfoldable pub parse_lookahead : String → Result LookaheadMode
parse_lookahead s =
    if s == "barmerge.lookahead_on"
    then ok lookahead_on
    else if s == "barmerge.lookahead_off"
    then ok lookahead_off
    else raise request_error

-- `xs[i]`, at an index that the loops have tested.
abbrev pub at : List ℕ → ℕ → ℕ
at xs i = or_else (get_elem? xs i) 0

abbrev pub int_at : List ℤ → ℕ → ℤ
int_at xs i = or_else (get_elem? xs i) (pos 0)

module _ {F : Type 0} where
  abbrev pub value_at : List (Value F) → ℕ → Value F
  value_at vs i = or_else (get_elem? vs i) na

  -- `time_close if time_close is not None else time`
  abbrev pub bar_close_time : Bar F → ℕ
  bar_close_time bar = or_else bar.time_close bar.time

  abbrev pub time_at : List (Bar F) → ℕ → ℕ
  time_at bars i = elim (get_elem? bars i) [ none ↦ 0 | some b ↦ b.time ]

  -- `_effective_close_time` of the bar at an index
  unfoldable pub effective_close_time : Bar F → List (Bar F) → ℕ → ℤ
  effective_close_time bar bars i = elim bar.time_close [
    | some close ↦ pos close
    | none ↦
        if ltb (i + 1) (length bars)
        then pos (time_at bars (i + 1)) -ℤ pos 1
        else pos bar.time
          +ℤ (if ltb 0 i then pos bar.time -ℤ pos (time_at bars (i - 1)) else pos 86400000)
          -ℤ pos 1
  ]

  unfoldable pub effective_closes_from : List (Bar F) → ℕ → List (Bar F) → List ℤ
  effective_closes_from bars i [] = []
  effective_closes_from bars i (b ∷ rest) =
      effective_close_time b bars i ∷ effective_closes_from bars (i + 1) rest

-- The lists that the cache holds of the requested bars.
pub record Requested : Type 0 where
  pub times : List ℕ
  pub closes : List ℕ
  pub effective : List ℤ

-- The positions and values that a merge carries from one chart bar to the next.
pub record MergeState (F : Type 0) : Type 0 where
  pub last_value : Value F
  pub last_finalized_value : Value F
  pub lookahead_on_gaps_off_index : ℕ
  pub lookahead_on_gaps_on_index : ℕ
  pub lookahead_off_gaps_on_index : ℕ
  pub lookahead_off_gaps_off_index : ℕ

pub record MergeCache (F : Type 0) : Type 0 where
  pub merged : List (Value F)
  pub requested : Option Requested
  pub state : MergeState F

-- `while test(i): s = body(i, s); i += 1`, with the rounds bounded by the fuel.
unfoldable pub loop {ℓ} : {S : Type ℓ} → ℕ → (ℕ → Bool) → (ℕ → S → S) → ℕ → S → ℕ × S
loop zero test body i s = (i, s)
loop (suc fuel) test body i s =
    let rest = loop fuel test body (i + 1) (body i s) in if test i then rest else (i, s)

module _ {F : Type 0} where
  unfoldable pub requested_lists : List (Bar F) → Requested
  requested_lists bars = record {
    times = map (λ b. b.time) bars;
    closes = map bar_close_time bars;
    effective = effective_closes_from bars 0 bars;
  }

  -- The cached lists, computed again where one of them does not fit the bars.
  unfoldable pub cached_lists : List (Bar F) → Option Requested → Requested
  cached_lists bars none = requested_lists bars
  cached_lists bars (some r) =
      if nat_beq (length r.times) (length bars)
        && nat_beq (length r.closes) (length bars)
        && nat_beq (length r.effective) (length bars)
      then r
      else requested_lists bars

  -- `value = requested_values[i]; last = value`
  abbrev pub take_value : List (Value F) → ℕ → Value F × Value F → Value F × Value F
  take_value values i _ = (value_at values i, value_at values i)

  module _ (r : Requested) (values : List (Value F)) (chart : Bar F) where
    -- `i < len(requested_values) and requested_times[i] <= chart_bar.time`
    abbrev pub started : ℕ → Bool
    started i = ltb i (length values) && leb (at r.times i) chart.time

    -- The test of the last loop, which also wants the bar to have closed.
    abbrev pub finalized : ℕ → Bool
    finalized i =
        ltb i (length values)
        && leb (at r.times i) chart.time
        && leb_ℤ (int_at r.effective i) (pos (bar_close_time chart))

    -- The while loop's rounds are bounded by the requested values that are left.
    abbrev pub run_loop {ℓ} : {S : Type ℓ} → (ℕ → Bool) → (ℕ → S → S) → ℕ → S → ℕ × S
    run_loop test body i s = loop (length values - i) test body i s

    abbrev skip : ℕ → Unit {0} → Unit {0}
    skip i u = u

    -- The value that one chart bar finds, and the state that it leaves.
    unfoldable pub find_value : GapsMode → LookaheadMode → MergeState F → Value F × MergeState F
    unfolding loop
    find_value gaps_off lookahead_on st =
        let (i, found) =
          run_loop started (take_value values) st.lookahead_on_gaps_off_index (na, st.last_value) in
        (
          (if is_sentinel found.0 then found.1 else found.0),
          record st { last_value = found.1; lookahead_on_gaps_off_index = i },
        )
    find_value gaps_on lookahead_on st =
        let (i, _) =
          run_loop (λ i. ltb i (length values) && ltb (at r.times i) chart.time) skip
            st.lookahead_on_gaps_on_index tt in
        let (_, value) =
          run_loop (λ i. ltb i (length values) && leb (at r.times i) (bar_close_time chart))
            (λ i _. value_at values i) i na in
        (value, record st { lookahead_on_gaps_on_index = i })
    find_value gaps_on lookahead_off st =
        let (i, _) =
          run_loop (λ i. ltb i (length values) && ltb (at r.closes i) chart.time) skip
            st.lookahead_off_gaps_on_index tt in
        let (_, value) =
          run_loop (λ i. ltb i (length values) && leb (at r.closes i) (bar_close_time chart))
            (λ i _. value_at values i) i na in
        (value, record st { lookahead_off_gaps_on_index = i })
    find_value gaps_off lookahead_off st =
        let (i, found) =
          run_loop finalized (take_value values) st.lookahead_off_gaps_off_index
            (na, st.last_finalized_value) in
        (found.0, record st { last_finalized_value = found.1; lookahead_off_gaps_off_index = i })

  -- The end of the loop's body: the value that is appended, and `last_value`.
  unfoldable pub settle : GapsMode → Value F → MergeState F → Value F × MergeState F
  settle gaps_off value st =
      if is_sentinel value
      then (st.last_finalized_value, st)
      else (value, record st { last_value = value })
  settle gaps_on value st =
      if is_sentinel value
      then (st.last_finalized_value, st)
      else (value, record st { last_value = value })

  module _ (gaps : GapsMode) (lookahead : LookaheadMode) (r : Requested)
      (values : List (Value F)) where
    unfoldable pub merge_bar : Bar F → MergeState F → Value F × MergeState F
    unfolding find_value settle
    merge_bar chart st =
        let (value, st') = find_value r values chart gaps lookahead st in settle gaps value st'

    unfoldable pub merge_bars : List (Bar F) → MergeState F → List (Value F) × MergeState F
    merge_bars [] st = ([], st)
    merge_bars (chart ∷ charts) st =
        let (value, st') = merge_bar chart st in
        let (values', st'') = merge_bars charts st' in (value ∷ values', st'')

  abbrev pub empty_cache : MergeCache F
  empty_cache = record {
    merged = [];
    requested = none;
    state = record {
      last_value = na;
      last_finalized_value = na;
      lookahead_on_gaps_off_index = 0;
      lookahead_on_gaps_on_index = 0;
      lookahead_off_gaps_on_index = 0;
      lookahead_off_gaps_off_index = 0;
    };
  }

  -- `_append_merged_requested_values`
  unfoldable pub append_merged :
      GapsMode
      → LookaheadMode
      → List (Bar F)
      → List (Value F)
      → List (Bar F)
      → MergeCache F
      → MergeCache F
  append_merged gaps lookahead bars values charts cache =
      let r = cached_lists bars cache.requested in
      let (new, st) =
        merge_bars gaps lookahead r values (drop (length cache.merged) charts) cache.state in
      record { merged = cache.merged ++ new; requested = some r; state = st }

  unfoldable pub merge_requested_series :
      List (Value F) → List (Bar F) → List (Bar F) → String → String → Result (List (Value F))
  merge_requested_series values bars charts gaps lookahead = do
    raise_if (not (nat_beq (length values) (length bars))) request_error
    g ← parse_gaps gaps
    l ← parse_lookahead lookahead
    ok ((append_merged g l bars values charts empty_cache).merged)
