-- ===== src/Core/Runtime/State.antt =====
-- The state of a PineRuntime (pinelib/core/runtime.py) and the records it holds
-- (pinelib/core/types.py).
use pinelib.Prelude.{ℕ, Bool, List, Option, String, int_eq, nat_eq, pair_eq, string_eq}
use pinelib.Prelude.Int.{ℤ}
use pinelib.Prelude.Dict.{Dict}
use pinelib.Core.Series.{Series, ReferenceHistoryMode}
use pinelib.Core.Bar.{Bar}

-- core/types.py: SymbolInfo, without the fields that nothing reads
pub record SymbolInfo (F : Type 0) : Type 0 where
  pub tickerid : String
  pub timezone : String
  pub session : String
  pub mintick : F
  pub exchange : Option String
  pub type : String
  pub currency : Option String
  pub pointvalue : F

pub record TimeframeInfo : Type 0 where
  pub value : String
  pub interval_ms : Option ℕ

pub record BarStateInfo : Type 0 where
  pub isfirst : Bool
  pub islast : Bool
  pub ishistory : Bool
  pub isrealtime : Bool
  pub isnew : Bool
  pub isconfirmed : Bool
  pub islastconfirmedhistory : Bool

pub record TickUpdate (F : Type 0) : Type 0 where
  pub price : F
  pub volume : F
  pub time : Option ℤ
  pub is_final : Bool

-- A diagnostic by its code; the texts are not modelled.
pub data Diagnostic : Type 0 where
  unsupported_strategy_setting margin_fields_diagnostic : Diagnostic

pub record RuntimeConfig : Type 0 where
  pub supports_nested_security : Bool
  pub reference_history_mode : ReferenceHistoryMode
  pub max_recalculations_per_bar : ℤ
  pub allow_incomplete_bar_time_close : Bool
  pub strict_tv_parity : Bool
  pub diagnostics : List Diagnostic
  pub process_orders_on_close : Option Bool
  pub calc_on_order_fills : Option Bool
  pub calc_on_every_tick : Option Bool
  pub semantic_profile : String

abbrev pub Registry : Type 0 → Type 0
Registry F = Dict String (Series F)

-- F is Python's float, S the objects of the state tables.
pub record Runtime (F S : Type 0) : Type 0 where
  pub syminfo : SymbolInfo F
  pub timeframe : TimeframeInfo
  pub config : RuntimeConfig
  pub bar_index_offset : ℤ
  pub bar_index : ℤ
  pub current_bar : Option (Bar F)
  pub chart_bars : List (Bar F)
  pub series_registry : Registry F
  pub commit_order : List String
  pub indicator_state : Dict String S
  pub varip_state : Dict String S
  pub barstate : BarStateInfo
  pub request_depth : ℕ
  pub request_namespace : Option String
