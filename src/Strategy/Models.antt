-- ===== src/Strategy/Models.antt =====
-- The data of a strategy: pinelib/strategy/models.py. F is Python's float.
use pinelib.Prelude.{
  ℕ, Bool, List, Option, Result, String, [], append-nil, append_assoc, arith, get_elem?,
  get_elem?-reverse, if◌then◌else◌, index_error, leb, length, length-reverse, none, ok, or_else,
  raise, refl, reverse, suc, sym, zero, ◌++◌, ◌-◌, ◌∙◌, ◌∷◌, ◌≡◌, ◌≤◌, some,
}
use pinelib.Prelude.Int.{ℤ, negsuc, pos}
use pinelib.Intent.Contracts.{SpanInput}

pub data Direction : Type 0 where
  long short : Direction

pub data OrderType : Type 0 where
  market limit stop stop_limit : OrderType

pub data OrderKind : Type 0 where
  entry order exit close : OrderKind

pub data OrderStatus : Type 0 where
  pending filled cancelled : OrderStatus

-- The Literal texts.
abbrev pub direction_text : Direction → String
direction_text long = "long"
direction_text short = "short"

abbrev pub kind_text : OrderKind → String
kind_text entry = "entry"
kind_text order = "order"
kind_text exit = "exit"
kind_text close = "close"

-- The type that `_make_order` gives an order by its limit and its stop price.
abbrev pub order_type : {F : Type 0} → Option F → Option F → OrderType
order_type (some a) (some b) = stop_limit
order_type (some a) none = limit
order_type none (some b) = stop
order_type none none = market

-- StrategyDeclaration, without the metadata that nothing reads.
pub record StrategyDeclaration (F : Type 0) : Type 0 where
  pub initial_capital : F
  pub default_qty_value : F
  pub process_orders_on_close : Bool
  pub calc_on_order_fills : Bool
  pub calc_on_every_tick : Bool
  pub backtest_fill_limits_assumption : Option F
  pub close_entries_rule : String
  pub margin_long : F
  pub margin_short : F
  pub fill_orders_on_standard_ohlc : Option Bool
  pub max_lines_count : Option ℕ
  pub max_labels_count : Option ℕ
  pub max_boxes_count : Option ℕ
  pub strict_tv_parity : Bool

pub record Order (F : Type 0) : Type 0 where
  pub id : String
  pub direction : Option Direction
  pub qty : Option F
  pub qty_percent : Option F
  pub type : OrderType
  pub kind : OrderKind
  pub limit : Option F
  pub stop : Option F
  pub profit : Option F
  pub loss : Option F
  pub from_entry : Option String
  pub parent_exit_id : Option String
  pub bracket_group : Option String
  pub oca_name : Option String
  pub oca_type : Option String
  pub created_bar_index : ℤ
  pub created_time : Option ℕ
  pub status : OrderStatus
  pub filled_qty : F
  pub fill_price : Option F
  pub fill_source : Option String
  pub source_map : Option SpanInput
  pub comment : Option String
  pub immediate : Bool
  pub default_qty_price : Option F
  pub default_qty_equity : Option F
  pub trail_activation : Option F
  pub trail_offset : Option F
  pub trail_stop : Option F
  pub trail_active : Bool

pub record RiskRule (F : Type 0) : Type 0 where
  pub name : String
  pub value : Option F
  pub value_type : Option String
  pub direction : Option String

-- _StrategyScalarSeries. N is its numbers, an int or a float.
pub record ScalarSeries (N : Type 0) : Type 0 where
  pub current : N
  pub history : List N

module _ {N : Type 0} where
  unfoldable pub new_scalar : N → ScalarSeries N
  new_scalar value = record { current = value; history = [] }

  unfoldable pub scalar_length : ScalarSeries N → ℕ
  scalar_length s = length s.history

  unfoldable pub set_scalar : N → ScalarSeries N → ScalarSeries N
  set_scalar value s = record s { current = value }

  unfoldable pub commit_scalar : ScalarSeries N → ScalarSeries N
  commit_scalar s = record s { history = s.history ++ s.current ∷ [] }

  -- `series[offset]`; `naught` is the 0 that stands where the history ends.
  unfoldable pub scalar_at : N → ScalarSeries N → ℤ → Result N
  scalar_at naught s (negsuc _) = raise index_error
  scalar_at naught s (pos zero) = ok s.current
  scalar_at naught s (pos (suc k)) =
      if leb (suc k) (length s.history)
      then ok (or_else (get_elem? s.history (length s.history - suc k)) naught)
      else ok naught

  -- Setting and committing a value on each bar.
  abbrev pub commit_values : List N → ScalarSeries N → ScalarSeries N
  commit_values [] s = s
  commit_values (v ∷ vs) s = commit_values vs (commit_scalar (set_scalar v s))

  commit_values-history :
      (vs : List N) (s : ScalarSeries N) → (commit_values vs s).history ≡ s.history ++ vs
  unfolding commit_scalar set_scalar
  commit_values-history [] s = sym (append-nil s.history)
  commit_values-history (v ∷ vs) s =
      commit_values-history vs (commit_scalar (set_scalar v s)) ∙ append_assoc s.history (v ∷ []) vs

  get_elem?-short : (xs : List N) (k : ℕ) → length xs ≤ k → get_elem? xs k ≡ none
  get_elem?-short [] k h = refl
  get_elem?-short (x ∷ xs) zero h = elim h [ ]
  get_elem?-short (x ∷ xs) (suc k) h = get_elem?-short xs k (omega arith)

  -- After any values were set and committed on a new scalar series and one more was set, reading
  -- an offset gives the value that was set that many times before, and naught where there is none.
  pub scalar_at-commit_values :
      (naught : N) (vs : List N) (v : N) (k : ℕ)
      → scalar_at naught (set_scalar v (commit_values vs (new_scalar naught))) (pos k)
        ≡ ok (or_else (get_elem? (v ∷ reverse vs) k) naught)
  unfolding scalar_at set_scalar new_scalar
  scalar_at-commit_values naught vs v zero = refl
  scalar_at-commit_values naught vs v (suc k) = ground (
    arith,
    commit_values-history vs (new_scalar naught),
    get_elem?-reverse vs k,
    get_elem?-short (reverse vs) k,
    length-reverse vs,
  )
