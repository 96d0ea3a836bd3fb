-- ===== src/Strategy/Orders.antt =====
-- The order functions of a strategy (pinelib/strategy/context.py): each records its intent and
-- then lists its order, so an exception leaves the strategy as it was.
use Prim.Native.String.{◌++◌ as str_append}
use pinelib.Prelude.{
  string_eq, option_eq, Bool, List, Option, Result, String, [], false, if◌then◌else◌, int_eq,
  is_some, nat_eq, none, ok, or_else, pair_eq, some, true, ◌++◌, ◌==◌, ◌>>=◌, ◌||◌, ◌∷◌,
}
use pinelib.Prelude.Int.{negsuc, pos}
use pinelib.Core.Value.{Float}
use pinelib.Core.Runtime.State.{Runtime}
use pinelib.Intent.Contracts.{Contracts, Fields, SpanInput}
use pinelib.Strategy.Models.{
  Order, Direction, OrderKind, cancelled, close, direction_text, entry, exit, kind_text, order,
  pending, order_type,
}
use pinelib.Strategy.Context.{Strategy, record_strategy_intent, no_fields}

-- The arguments that the order functions share.
pub record Request (F : Type 0) : Type 0 where
  pub id : String
  pub qty : Option F
  pub limit : Option F
  pub stop : Option F
  pub oca_name : Option String
  pub oca_type : Option String
  pub comment : Option String
  pub source_map : Option SpanInput

pub record ExitRequest (F : Type 0) : Type 0 where
  pub id : String
  pub from_entry : Option String
  pub qty : Option F
  pub qty_percent : Option F
  pub limit : Option F
  pub stop : Option F
  pub profit : Option F
  pub loss : Option F
  pub trail_price : Option F
  pub trail_points : Option F
  pub trail_offset : Option F
  pub comment : Option String
  pub source_map : Option SpanInput

module _ {F S : Type 0} (fl : Float F) where
  -- `_make_order`
  unfoldable pub make_order :
      Runtime F S
      → Strategy F
      → String
      → Option Direction
      → Option F
      → Option F
      → Option F
      → OrderKind
      → Option String
      → Option SpanInput
      → Order F
  make_order rt s id direction qty limit_price stop_price kind comment source_map = record {
    id = id;
    direction = direction;
    qty = qty;
    qty_percent = none;
    type = order_type limit_price stop_price;
    kind = kind;
    limit = limit_price;
    stop = stop_price;
    profit = none;
    loss = none;
    from_entry = none;
    parent_exit_id = none;
    bracket_group = none;
    oca_name = none;
    oca_type = none;
    created_bar_index = if s.attached then rt.bar_index else negsuc 0;
    created_time =
        if s.attached then elim rt.current_bar [ none ↦ none | some bar ↦ some bar.time ] else none;
    status = pending;
    filled_qty = fl.of_int (pos 0);
    fill_price = none;
    fill_source = none;
    source_map = source_map;
    comment = comment;
    immediate = false;
    default_qty_price = none;
    default_qty_equity = none;
    trail_activation = none;
    trail_offset = none;
    trail_stop = none;
    trail_active = false;
  }

module _ {F : Type 0} where
  -- The order is listed.
  abbrev pub listed_order : Order F → Strategy F → Strategy F
  listed_order o s = record s { pending_orders = s.pending_orders ++ o ∷ [] }

  -- `any(value is not None for value in …)`
  abbrev pub has_bracket : ExitRequest F → Bool
  has_bracket r =
      is_some r.limit
      || is_some r.stop
      || is_some r.profit
      || is_some r.loss
      || is_some r.trail_price
      || is_some r.trail_points
      || is_some r.trail_offset

  abbrev pub or_option : Option F → Option F → Option F
  or_option (some a) other = some a
  or_option none other = other

  -- `order.status = "cancelled"` for each order that a test picks
  abbrev pub cancelled_where : (Order F → Bool) → List (Order F) → List (Order F)
  cancelled_where test [] = []
  cancelled_where test (o ∷ os) =
      let rest = cancelled_where test os in
      (if test o then record o { status = cancelled } else o) ∷ rest

  -- `order.id == id or order.parent_exit_id == id`
  abbrev pub answers_to : String → Order F → Bool
  answers_to id o = o.id == id || o.parent_exit_id == some id

module _ {F S : Type 0} (fl : Float F) (ct : Contracts F) where
  -- `_add_order`, and `order`, whose body is the same with its own kind
  unfoldable pub add_order :
      OrderKind → Runtime F S → Direction → Request F → Strategy F → Result (Strategy F)
  unfolding make_order
  add_order kind rt direction r s = do
    let placed : Order F =
        record (make_order fl rt s r.id (some direction) r.qty r.limit r.stop kind r.comment
          r.source_map) { oca_name = r.oca_name; oca_type = r.oca_type }
    let fields : Fields F = record no_fields {
      order_id = some r.id;
      direction = some (direction_text direction);
      qty = some (or_else r.qty s.declaration.default_qty_value);
      stop = r.stop;
      limit = r.limit;
      oca_name = r.oca_name;
      oca_type = r.oca_type;
      comment = r.comment;
    }
    w ← record_strategy_intent ct rt (kind_text kind) r.id fields r.source_map s
    ok (listed_order placed w)

  unfoldable pub entry_order :
      Runtime F S → Direction → Request F → Strategy F → Result (Strategy F)
  unfolding add_order
  entry_order = add_order entry

  unfoldable pub plain_order :
      Runtime F S → Direction → Request F → Strategy F → Result (Strategy F)
  unfolding add_order
  plain_order = add_order order

  unfoldable pub exit_order : Runtime F S → ExitRequest F → Strategy F → Result (Strategy F)
  unfolding make_order
  exit_order rt r s = do
    let placed : Order F =
        record (make_order fl rt s r.id none r.qty r.limit r.stop exit r.comment r.source_map) {
          qty_percent = r.qty_percent;
          profit = r.profit;
          loss = r.loss;
          from_entry = r.from_entry;
          parent_exit_id = some r.id;
          bracket_group = if has_bracket r then some r.id else none;
          oca_type = some "reduce";
          trail_activation = or_option r.trail_price r.trail_points;
          trail_offset = r.trail_offset;
        }
    let fields : Fields F = record no_fields {
      order_id = some r.id;
      qty = r.qty;
      qty_percent = r.qty_percent;
      stop = r.stop;
      limit = r.limit;
      profit = r.profit;
      loss = r.loss;
      trail_price = r.trail_price;
      trail_points = r.trail_points;
      trail_offset = r.trail_offset;
      from_entry = r.from_entry;
      comment = r.comment;
    }
    w ← record_strategy_intent ct rt "exit" r.id fields r.source_map s
    ok (listed_order placed w)

  unfoldable pub close_order :
      Runtime F S
      → String
      → Option F
      → Option F
      → Bool
      → Option String
      → Option SpanInput
      → Strategy F
      → Result (Strategy F)
  unfolding make_order
  close_order rt id qty qty_percent immediately comment source_map s = do
    let command = str_append "close:" id
    let placed : Order F =
        record (make_order fl rt s command none qty none none close comment source_map) {
          qty_percent = qty_percent;
          from_entry = some id;
          immediate = immediately;
        }
    let fields : Fields F = record no_fields {
      qty = qty;
      qty_percent = qty_percent;
      from_entry = some id;
      immediately = some immediately;
      comment = comment;
    }
    w ← record_strategy_intent ct rt "close" command fields source_map s
    ok (listed_order placed w)

  unfoldable pub close_all_orders :
      Runtime F S → Bool → Option String → Option SpanInput → Strategy F → Result (Strategy F)
  unfolding make_order
  close_all_orders rt immediately comment source_map s = do
    let placed : Order F =
        record (make_order fl rt s "close_all" none none none none close comment source_map) {
          immediate = immediately;
        }
    let fields : Fields F = record no_fields { immediately = some immediately; comment = comment }
    w ← record_strategy_intent ct rt "close_all" "close_all" fields source_map s
    ok (listed_order placed w)

module _ {F S : Type 0} (ct : Contracts F) where
  unfoldable pub cancel_order :
      Runtime F S → String → Option SpanInput → Strategy F → Result (Strategy F)
  cancel_order rt id source_map s = do
    w ←
        record_strategy_intent ct rt "cancel" id (record no_fields { order_id = some id })
          source_map s
    ok (record w { pending_orders = cancelled_where (answers_to id) w.pending_orders })

  unfoldable pub cancel_all_orders :
      Runtime F S → Option SpanInput → Strategy F → Result (Strategy F)
  cancel_all_orders rt source_map s = do
    w ← record_strategy_intent ct rt "cancel_all" "*" no_fields source_map s
    ok (record w { pending_orders = cancelled_where (λ o. true) w.pending_orders })
