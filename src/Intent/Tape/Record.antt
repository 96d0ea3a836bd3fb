-- ===== src/Intent/Tape/Record.antt =====
-- Recording an intent: `record` of pinelib/strategy/intent_tape.py.
use pinelib.Prelude.{
  ℕ, nat_eq, int_eq, string_eq, pair_eq, Option, Result, String, [], builtin_runtime_error,
  if◌then◌else◌, is_some, length, none, ok, option_eq, or_else, or_raise, raise, raise_if, some,
  suc, value_error, ◌++◌, ◌>>=◌, ◌>>◌, ◌∷◌, List,
}
use pinelib.Prelude.Int.{ℤ, pos}
use pinelib.Prelude.Dict.{Dict, get, put}
use pinelib.Intent.Contracts.{
  Contracts, Event, ExecutionContext, Fields, Identity, Payload, Position, SpanInput,
}
use pinelib.Intent.Business.{
  nonempty, business_fields, parse_kind, reject_unrelated_business_fields,
}
use pinelib.Intent.Same.{same_event}
use pinelib.Intent.Span.{source_span}
use pinelib.Intent.Tape.{Tape, is_committed, nonnegative, numbers}

-- The arguments of `record`.
pub record Command (N : Type 0) : Type 0 where
  pub kind : String
  pub command_id : String
  pub fields : Fields N
  pub price : Option N
  pub origin_command_kind : Option String
  pub bar_index : Option ℤ
  pub bar_open_time_utc_ms : Option ℤ
  pub phase : Option String
  pub recalc_iteration : Option ℤ
  pub source_span : Option SpanInput
  pub invocation_ordinal : Option ℤ

-- An argument, or the callback's own value when it is None.
abbrev given_or : Option ℤ → ℕ → ℤ
given_or none n = pos n
given_or (some z) n = z

-- `None if context is None else context.source_hash`
abbrev pub expected_hash : Option ExecutionContext → Option String
expected_hash none = none
expected_hash (some x) = some x.source_hash

-- The sequence number of an event: its own, or the next one.
abbrev pub next_sequence : Option Event → List Event → ℕ
next_sequence none es = length es
next_sequence (some e) es = e.payload.sequence

module _ {N : Type 0} (ct : Contracts N) where
  -- The place of a command: its own arguments, or the callback's.
  unfoldable pub place : Command N → Position → Result Position
  unfolding numbers
  place c callback = do
    (i, u, r) ←
        numbers (given_or c.bar_index callback.bar_index)
          (given_or c.bar_open_time_utc_ms callback.bar_open_time_utc_ms)
          (given_or c.recalc_iteration callback.recalc_iteration)
    ok (record {
      bar_index = i;
      bar_open_time_utc_ms = u;
      phase = or_else c.phase callback.phase;
      recalc_iteration = r;
    })

  -- The invocation ordinal: the next of its kind and command, or the one given.
  unfoldable pub choose_ordinal : Command N → Dict (String × String) ℕ → Result ℕ
  unfolding nonnegative
  choose_ordinal c counts = elim c.invocation_ordinal [
    | none ↦ ok (or_else (get (c.kind, c.command_id) counts) 0)
    | some z ↦ nonnegative z
  ]

  -- `_invocation_counts[ordinal_key] = ordinal + 1`, for an automatic ordinal.
  unfoldable pub count : Command N → ℕ → Dict (String × String) ℕ → Dict (String × String) ℕ
  count c ordinal counts =
      if is_some c.invocation_ordinal
      then counts
      else put (c.kind, c.command_id) (suc ordinal) counts

  -- The payload of an event, sealed and validated.
  unfoldable pub sealed_event :
      Command N → Identity → Option ExecutionContext → Position → String → ℕ → Result Event
  unfolding nonempty source_span business_fields parse_kind
  sealed_event c identity context at key sequence = do
    phase ← nonempty ct at.phase
    span ← source_span ct identity.strict_production (expected_hash context) c.source_span
    kind ← or_raise (parse_kind c.kind) value_error
    business ← business_fields ct kind c.fields
    let payload : Payload = record {
      identity = identity;
      created_at_utc_ms = at.bar_open_time_utc_ms;
      sequence = sequence;
      command_id = c.command_id;
      kind = c.kind;
      position = record at { phase = phase };
      source_span = span;
      idempotency_key = key;
      business = business;
    }
    let id = ct.semantic_event_id payload
    let event : Event = record {
      payload = payload;
      event_id = id;
      content_hash = ct.seal payload id;
    }
    ct.validate_payload event
    ok event

  -- The end of `record`: a repeated delivery must be the same event, a new one is appended.
  unfoldable pub deliver : Command N → ℕ → Option Event → Event → Tape → Result (Tape × Event)
  unfolding same_event count
  deliver c ordinal (some existing) sealed t =
      if same_event existing sealed
      then ok (record t { invocation_counts = count c ordinal t.invocation_counts }, existing)
      else raise value_error
  deliver c ordinal none sealed t = ok (
    record t {
      events = t.events ++ sealed ∷ [];
      event_ordinals = t.event_ordinals ++ ordinal ∷ [];
      by_key = put sealed.payload.idempotency_key sealed t.by_key;
      invocation_counts = count c ordinal t.invocation_counts;
    },
    sealed,
  )

  -- `_delivery_key`
  unfoldable pub delivery_key : Command N → Identity → Position → ℕ → Result String
  unfolding nonempty
  delivery_key c identity at ordinal = do
    phase ← nonempty ct at.phase
    ok (
        ct.delivery_key (record {
          identity = identity;
          position = record at { phase = phase };
          kind = c.kind;
          command_id = c.command_id;
          invocation_ordinal = ordinal;
        }))

  -- What `record` tests of its arguments before it looks at the tape.
  unfoldable pub check_command : Command N → Result (Unit {0})
  unfolding nonempty reject_unrelated_business_fields
  check_command c = do
    raise_if (is_some c.price) value_error
    raise_if (is_some c.origin_command_kind) value_error
    reject_unrelated_business_fields c.kind c.fields
    id ← nonempty ct c.command_id
    ok tt

  -- `record`, with the tape after it; where it raises, the tape is unchanged.
  unfoldable pub record_intent : Command N → Tape → Result (Tape × Event)
  unfolding check_command place is_committed choose_ordinal delivery_key sealed_event deliver
  record_intent c t = do
    check_command c
    at ← place c t.callback
    raise_if (is_committed at.bar_index at.bar_open_time_utc_ms t) builtin_runtime_error
    ordinal ← choose_ordinal c t.invocation_counts
    key ← delivery_key c t.identity at ordinal
    let existing = get key t.by_key
    let sequence : ℕ = next_sequence existing t.events
    sealed ← sealed_event c t.identity t.context at key sequence
    deliver c ordinal existing sealed t
