-- ===== src/Intent/Contracts.antt =====
-- The data of an intent (pinelib/strategy/intent_tape.py), and what the tape takes from the
-- openpine_contracts package and from Python's text operations, as a parameter.
use pinelib.Prelude.{ℕ, Bool, List, Option, Result, String}
use pinelib.Prelude.Int.{ℤ}

-- A JSON value of a business field.
pub data Json : Type 0 where
  null : Json
  text : String → Json
  flag : Bool → Json

-- The keyword arguments of `record` that describe the order or the risk rule. N is the type of the
-- program's numbers.
pub record Fields (N : Type 0) : Type 0 where
  pub order_id : Option String
  pub direction : Option String
  pub qty : Option N
  pub qty_percent : Option N
  pub stop : Option N
  pub limit : Option N
  pub profit : Option N
  pub loss : Option N
  pub trail_price : Option N
  pub trail_points : Option N
  pub trail_offset : Option N
  pub from_entry : Option String
  pub oca_name : Option String
  pub oca_type : Option String
  pub comment : Option String
  pub immediately : Option Bool
  pub risk_rule : Option String
  pub risk_value : Option N
  pub risk_unit : Option String
  pub risk_scope : Option String

-- The identity of a tape: `_identity_state`.
pub record Identity : Type 0 where
  pub run_id : String
  pub strategy_id : String
  pub series_id : String
  pub instrument_id : String
  pub timeframe : String
  pub producer : String
  pub producer_version : String
  pub producer_commit : String
  pub stack_id : String
  pub semantic_profile : String
  pub strict_production : Bool
  pub execution_context_hash : Option String

-- The fields of an ExecutionContext that the tape and the strategy read.
pub record ExecutionContext : Type 0 where
  pub run_id : String
  pub strategy_id : String
  pub stack_id : String
  pub pinelib_commit : String
  pub content_hash : String
  pub series_id : String
  pub instrument_id : String
  pub timeframe : String
  pub semantic_profile : String
  pub source_hash : String
  pub symbol : String
  pub timezone : String
  pub session_policy : String
  pub exchange : String
  pub market : String
  pub currency : String
  pub mintick : String
  pub pointvalue : String

-- What `source_span` accepts: provenance that is declared unknown, a mapping with no boolean `known`
-- (its offsets being integers), or a complete known span with its hash and six offsets.
pub data SpanInput : Type 0 where
  unknown legacy : SpanInput
  known : String → List ℤ → SpanInput

pub data Span : Type 0 where
  unknown : Span
  known : String → List ℤ → Span

-- Where in the run an event stands.
pub record Position : Type 0 where
  pub bar_index : ℕ
  pub bar_open_time_utc_ms : ℕ
  pub phase : String
  pub recalc_iteration : ℕ

-- What the idempotency key hashes.
pub record DeliveryIdentity : Type 0 where
  pub identity : Identity
  pub position : Position
  pub kind : String
  pub command_id : String
  pub invocation_ordinal : ℕ

-- An event without its hashes; the schema and serializer constants are left out.
pub record Payload : Type 0 where
  pub identity : Identity
  pub created_at_utc_ms : ℕ
  pub sequence : ℕ
  pub command_id : String
  pub kind : String
  pub position : Position
  pub source_span : Span
  pub idempotency_key : String
  pub business : List (String × Json)

pub record Event : Type 0 where
  pub payload : Payload
  pub event_id : String
  pub content_hash : String

-- Code outside the repository: content hashing, sealing, schema validation and decimals of
-- openpine_contracts, the hash shape, and `str.strip`, `str.upper`.
pub record Contracts (N : Type 0) : Type 0 where
  pub delivery_key : DeliveryIdentity → String
  pub semantic_event_id : Payload → String
  pub seal : Payload → String → String
  pub validate_payload : Event → Result (Unit {0})
  pub decimal : N → Result String
  pub in_schema : String → Bool
  pub is_content_hash : String → Bool
  pub is_blank : String → Bool
  pub strip_upper : String → String
