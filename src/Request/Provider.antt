-- ===== src/Request/Provider.antt =====
-- The in-memory data provider (pinelib/request/providers.py). `normalize` is the text operation
-- `strip().upper()` of symbols and timeframes.
pub mod Query
use pinelib.Prelude.{
  ℕ, Bool, List, Option, Result, String, [], data_format_error, drop, if◌then◌else◌, int_eq, leb,
  length, ltb, nat_beq, nat_eq, none, ok, or_else, or_raise, pair_eq, raise, select, some,
  string_eq, suc, take, true, ◌&&◌, ◌++◌, ◌-◌, ◌>>=◌, ◌>>◌, ◌||◌, ◌∷◌,
}
use pinelib.Prelude.Int.{ℤ, leb_ℤ, ltb_ℤ, negsuc, pos}
use pinelib.Prelude.Dict.{Dict, get, put}
use pinelib.Core.Bar.{Bar}
use pinelib.Request.Merge.{bar_close_time}
use pinelib.Request.Intrabar.{bisect_left}

pub record ProviderQueryMetadata : Type 0 where
  pub requested_symbol : String
  pub requested_timeframe : String
  pub normalized_symbol : String
  pub normalized_timeframe : String
  pub start : Option ℤ
  pub end : Option ℤ
  pub returned_bars : ℕ
  pub max_bars : Option ℤ

pub record InMemoryDataProvider (F : Type 0) : Type 0 where
  pub bars_by_key : Dict (String × String) (List (Bar F))
  pub metadata_log : List ProviderQueryMetadata

-- `xs[:n]`, where a negative n counts from the end.
abbrev pub slice_to {ℓ} : {A : Type ℓ} → ℤ → List A → List A
slice_to (pos n) xs = take n xs
slice_to (negsuc n) xs = take (length xs - suc n) xs

module _ {F : Type 0} where
  -- `_validate_bars`, after a bar that opened at `last_time`
  unfoldable pub validate_from : Option ℕ → List (Bar F) → Result (Unit {0})
  validate_from last_time [] = ok tt
  validate_from none (b ∷ bs) = validate_from (some b.time) bs
  validate_from (some t) (b ∷ bs) =
      let rest = validate_from (some b.time) bs in
      if ltb b.time t || nat_beq b.time t then raise data_format_error else rest

  unfoldable pub validate_bars : List (Bar F) → Result (List (Bar F))
  unfolding validate_from
  validate_bars bars = do validate_from none bars; ok bars

  -- `(start is None or bar.time >= start) and (end is None or bar.time < end)`
  abbrev pub in_range : Option ℤ → Option ℤ → Bar F → Bool
  in_range start end bar =
      elim start [ none ↦ true | some s ↦ leb_ℤ s (pos bar.time) ]
      && elim end [ none ↦ true | some e ↦ ltb_ℤ (pos bar.time) e ]

  abbrev pub limit_bars : Option ℤ → List (Bar F) → List (Bar F)
  limit_bars none bars = bars
  limit_bars (some n) bars = slice_to n bars

  -- `if max_bars is not None and len(selected) > max_bars: selected = selected[:max_bars]`
  abbrev pub cap_bars : Option ℤ → List (Bar F) → List (Bar F)
  cap_bars none bars = bars
  cap_bars (some n) bars = if ltb_ℤ n (pos (length bars)) then slice_to n bars else bars

  -- The scan of `get_intrabar_bars`, which starts at or after the chart bar's time.
  unfoldable pub scan_closed : Bar F → List (Bar F) → List (Bar F)
  scan_closed chart [] = []
  scan_closed chart (b ∷ rest) =
      let selected = scan_closed chart rest in
      if ltb (bar_close_time chart) b.time
      then []
      else if leb (bar_close_time b) (bar_close_time chart)
      then b ∷ selected
      else selected

module _ {F : Type 0} (normalize : String → String) where
  -- `InMemoryDataProvider(bars_by_key)`, from a table already begun
  unfoldable pub add_tables :
      List ((String × String) × List (Bar F))
      → Dict (String × String) (List (Bar F))
      → Result (Dict (String × String) (List (Bar F)))
  add_tables [] table = ok table
  add_tables ((key, bars) ∷ rest) table = do
    valid ← validate_bars bars
    add_tables rest (put (normalize key.0, normalize key.1) valid table)

  unfoldable pub new_provider :
      List ((String × String) × List (Bar F)) → Result (InMemoryDataProvider F)
  new_provider tables = do
    table ← add_tables tables []
    ok (record { bars_by_key = table; metadata_log = [] })

  unfoldable pub get_bars :
      String
      → String
      → Option ℤ
      → Option ℤ
      → Option ℤ
      → InMemoryDataProvider F
      → List (Bar F) × InMemoryDataProvider F
  get_bars symbol timeframe start end max_bars p =
      let bars = or_else (get (normalize symbol, normalize timeframe) p.bars_by_key) [] in
      let filtered = limit_bars max_bars (select (in_range start end) bars) in
      (
        filtered,
        record p {
          metadata_log =
              p.metadata_log
              ++ (record {
                requested_symbol = symbol;
                requested_timeframe = timeframe;
                normalized_symbol = normalize symbol;
                normalized_timeframe = normalize timeframe;
                start = start;
                end = end;
                returned_bars = length filtered;
                max_bars = max_bars;
              })
                ∷ [];
        },
      )

  unfoldable pub get_intrabar_bars :
      String → Bar F → Option String → Option ℤ → InMemoryDataProvider F → Result (List (Bar F))
  get_intrabar_bars symbol chart lower max_bars p = do
    timeframe ← or_raise lower data_format_error
    bars ← or_raise (get (normalize symbol, normalize timeframe) p.bars_by_key) data_format_error
    ok (cap_bars max_bars (scan_closed chart (drop (bisect_left bars chart.time) bars)))
