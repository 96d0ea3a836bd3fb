-- ===== src/Intent/Business.antt =====
-- The business fields of each kind of intent (pinelib/strategy/intent_validation.py and
-- `_add_business_fields` of pinelib/strategy/intent_tape.py).
use pinelib.Prelude.{
  Bool, List, Option, Result, String, [], any, false, if◌then◌else◌, int_eq, is_some, nat_eq, none,
  not, ok, or_raise, pair_eq, raise, raise_if, some, string_eq, value_error, ◌&&◌, ◌++◌, ◌==◌,
  ◌>>=◌, ◌||◌, ◌∷◌,
}
use pinelib.Intent.Contracts.{Fields, Contracts, Json, flag, null, text}

pub data IntentKind : Type 0 where
  entry order exit close close_all cancel cancel_all risk : IntentKind

unfoldable pub parse_kind : String → Option IntentKind
parse_kind s =
    if s == "entry"
    then some entry
    else if s == "order"
    then some order
    else if s == "exit"
    then some exit
    else if s == "close"
    then some close
    else if s == "close_all"
    then some close_all
    else if s == "cancel"
    then some cancel
    else if s == "cancel_all"
    then some cancel_all
    else if s == "risk"
    then some risk
    else none

-- `_ALLOWED_BUSINESS_FIELDS`
unfoldable pub allowed_fields : IntentKind → List String
allowed_fields entry =
    "order_id" ∷ "direction" ∷ "qty" ∷ "stop" ∷ "limit" ∷ "oca_name" ∷ "oca_type" ∷ "comment" ∷ []
allowed_fields order =
    "order_id" ∷ "direction" ∷ "qty" ∷ "stop" ∷ "limit" ∷ "oca_name" ∷ "oca_type" ∷ "comment" ∷ []
allowed_fields exit =
    "order_id" ∷ "qty" ∷ "qty_percent" ∷ "stop" ∷ "limit" ∷ "profit" ∷ "loss" ∷ "trail_price"
    ∷ "trail_points" ∷ "trail_offset" ∷ "from_entry" ∷ "oca_name" ∷ "comment" ∷ []
allowed_fields close = "qty" ∷ "qty_percent" ∷ "from_entry" ∷ "comment" ∷ "immediately" ∷ []
allowed_fields close_all = "comment" ∷ "immediately" ∷ []
allowed_fields cancel = "order_id" ∷ []
allowed_fields cancel_all = []
allowed_fields risk = "risk_rule" ∷ "risk_value" ∷ "risk_unit" ∷ "risk_scope" ∷ []

module _ {N : Type 0} where
  -- Each argument's name, with whether it was given.
  abbrev pub given : Fields N → List (String × Bool)
  given f =
      ("order_id", is_some f.order_id)
      ∷ ("direction", is_some f.direction)
      ∷ ("qty", is_some f.qty)
      ∷ ("qty_percent", is_some f.qty_percent)
      ∷ ("stop", is_some f.stop)
      ∷ ("limit", is_some f.limit)
      ∷ ("profit", is_some f.profit)
      ∷ ("loss", is_some f.loss)
      ∷ ("trail_price", is_some f.trail_price)
      ∷ ("trail_points", is_some f.trail_points)
      ∷ ("trail_offset", is_some f.trail_offset)
      ∷ ("from_entry", is_some f.from_entry)
      ∷ ("oca_name", is_some f.oca_name)
      ∷ ("oca_type", is_some f.oca_type)
      ∷ ("comment", is_some f.comment)
      ∷ ("immediately", is_some f.immediately)
      ∷ ("risk_rule", is_some f.risk_rule)
      ∷ ("risk_value", is_some f.risk_value)
      ∷ ("risk_unit", is_some f.risk_unit)
      ∷ ("risk_scope", is_some f.risk_scope)
      ∷ []

  -- `reject_unrelated_business_fields`
  unfoldable pub reject_unrelated_business_fields : String → Fields N → Result (Unit {0})
  unfolding parse_kind allowed_fields
  reject_unrelated_business_fields kind f = do
    k ← or_raise (parse_kind kind) value_error
    raise_if (any (λ p. p.1 && not (any (λ name. name == p.0) (allowed_fields k))) (given f))
        value_error

module _ {N : Type 0} (ct : Contracts N) where
  unfoldable pub nonempty : String → Result String
  nonempty value = if ct.is_blank value then raise value_error else ok value

  unfoldable pub direction : String → Result String
  direction value =
      let normalized = ct.strip_upper value in
      if normalized == "LONG" || normalized == "SHORT" then ok normalized else raise value_error

  -- `_dec` as a JSON value
  unfoldable pub dec : Option N → Result Json
  dec none = ok null
  dec (some n) = do s ← ct.decimal n; ok (text s)

  -- `_optional_decimal`: a field only where there is a value
  unfoldable pub optional_decimal : String → Option N → Result (List (String × Json))
  optional_decimal field none = ok []
  optional_decimal field (some n) = do s ← ct.decimal n; ok ((field, text s) ∷ [])

  -- A bracket field: present only where it is in the schema and has a value.
  schema_decimal : String → Option N → Result (List (String × Json))
  schema_decimal field none = ok []
  schema_decimal field (some n) = do
    s ← ct.decimal n
    ok (if ct.in_schema field then (field, text s) ∷ [] else [])

  abbrev optional_text : Option String → Json
  optional_text none = null
  optional_text (some s) = text s

  -- `bool(immediately)`
  abbrev truthy : Option Bool → Bool
  truthy none = false
  truthy (some b) = b

  order_fields : Fields N → Result (List (String × Json))
  unfolding nonempty direction dec
  order_fields f = do
    order_id ← or_raise f.order_id value_error
    way ← or_raise f.direction value_error
    qty ← or_raise f.qty value_error
    id ← nonempty order_id
    dir ← direction way
    q ← dec (some qty)
    st ← dec f.stop
    li ← dec f.limit
    ok (
        ("order_id", text id)
        ∷ ("direction", text dir)
        ∷ ("qty", q)
        ∷ ("stop", st)
        ∷ ("limit", li)
        ∷ ("oca_name", optional_text f.oca_name)
        ∷ ("oca_type", optional_text f.oca_type)
        ∷ ("comment", optional_text f.comment)
        ∷ [])

  exit_fields : Fields N → Result (List (String × Json))
  unfolding nonempty dec optional_decimal schema_decimal
  exit_fields f = do
    order_id ← or_raise f.order_id value_error
    target ← or_raise f.from_entry value_error
    id ← nonempty order_id
    from ← nonempty target
    st ← dec f.stop
    li ← dec f.limit
    q ← optional_decimal "qty" f.qty
    qp ← optional_decimal "qty_percent" f.qty_percent
    pr ← schema_decimal "profit" f.profit
    lo ← schema_decimal "loss" f.loss
    tp ← schema_decimal "trail_price" f.trail_price
    tn ← schema_decimal "trail_points" f.trail_points
    tf ← schema_decimal "trail_offset" f.trail_offset
    ok (
        ("order_id", text id)
        ∷ ("from_entry", text from)
        ∷ ("stop", st)
        ∷ ("limit", li)
        ∷ ("oca_name", optional_text f.oca_name)
        ∷ ("comment", optional_text f.comment)
        ∷ (q ++ (qp ++ (pr ++ (lo ++ (tp ++ (tn ++ tf)))))))

  close_fields : Fields N → Result (List (String × Json))
  unfolding nonempty optional_decimal
  close_fields f = do
    target ← or_raise f.from_entry value_error
    from ← nonempty target
    q ← optional_decimal "qty" f.qty
    qp ← optional_decimal "qty_percent" f.qty_percent
    ok (
        ("from_entry", text from)
        ∷ ("immediately", flag (truthy f.immediately))
        ∷ ("comment", optional_text f.comment)
        ∷ (q ++ qp))

  risk_fields : Fields N → Result (List (String × Json))
  unfolding nonempty dec
  risk_fields f = do
    rule ← or_raise f.risk_rule value_error
    value ← or_raise f.risk_value value_error
    unit ← or_raise f.risk_unit value_error
    scope ← or_raise f.risk_scope value_error
    r ← nonempty rule
    v ← dec (some value)
    u ← nonempty unit
    s ← nonempty scope
    ok (
        ("risk_rule", text r)
        ∷ ("risk_value", v)
        ∷ ("risk_unit", text u)
        ∷ ("risk_scope", text s)
        ∷ [])

  -- `_add_business_fields`, as the fields that it adds
  unfoldable pub business_fields : IntentKind → Fields N → Result (List (String × Json))
  unfolding order_fields exit_fields close_fields risk_fields nonempty
  business_fields entry f = order_fields f
  business_fields order f = order_fields f
  business_fields exit f = exit_fields f
  business_fields close f = close_fields f
  business_fields close_all f =
      ok (("immediately", flag (truthy f.immediately)) ∷ ("comment", optional_text f.comment) ∷ [])
  business_fields cancel f = do
    order_id ← or_raise f.order_id value_error
    id ← nonempty order_id
    ok (("order_id", text id) ∷ [])
  business_fields cancel_all f = ok []
  business_fields risk f = risk_fields f
