-- ===== src/Intent/Same.antt =====
-- The comparison `!=` of two frozen event mappings in `record` of pinelib/strategy/intent_tape.py.
use pinelib.Prelude.{
  nat_eq, string_eq, pair_eq, list_eq, option_eq, bool_eq, int_eq, ℕ, Bool, List, Option, String,
  [], beq_refl, int_eq, nat_eq, none, option_eq, pair_eq, some, string_eq, true, ◌&&◌, ◌==◌, ◌∷◌,
  ◌≡◌, arith,
}
use pinelib.Prelude.Int.{ℤ}
use pinelib.Intent.Contracts.{
  Event, Identity, Json, Position, Span, flag, known, null, text, unknown,
}

-- The values of an event, as comparable data.
abbrev json_values : Json → Option String × Option Bool
json_values null = (none, none)
json_values (text s) = (some s, none)
json_values (flag b) = (none, some b)

abbrev span_values : Span → Option (String × List ℤ)
span_values unknown = none
span_values (known h os) = some (h, os)

abbrev business_values : List (String × Json) → List (String × (Option String × Option Bool))
business_values [] = []
business_values ((k, j) ∷ fs) = (k, json_values j) ∷ business_values fs

abbrev identity_texts : Identity → List String
identity_texts i =
    i.run_id ∷ i.strategy_id ∷ i.series_id ∷ i.instrument_id ∷ i.timeframe ∷ i.producer
    ∷ i.producer_version ∷ i.producer_commit ∷ i.stack_id ∷ i.semantic_profile ∷ []

abbrev position_numbers : Position → List ℕ
position_numbers p = p.bar_index ∷ p.bar_open_time_utc_ms ∷ p.recalc_iteration ∷ []

-- `_deep_thaw(existing) == sealed`
unfoldable pub same_event : Event → Event → Bool
same_event a b =
    let p = a.payload in
    let q = b.payload in
    identity_texts p.identity == identity_texts q.identity
    && (p.created_at_utc_ms == q.created_at_utc_ms)
    && (p.sequence == q.sequence)
    && (p.command_id == q.command_id)
    && (p.kind == q.kind)
    && (position_numbers p.position == position_numbers q.position)
    && (p.position.phase == q.position.phase)
    && (span_values p.source_span == span_values q.source_span)
    && (p.idempotency_key == q.idempotency_key)
    && (business_values p.business == business_values q.business)
    && (a.event_id == b.event_id)
    && (a.content_hash == b.content_hash)

pub same_event_refl : (a : Event) → same_event a a ≡ true
unfolding same_event
same_event_refl a =
    let p = a.payload in
    ground (
      arith,
      beq_refl (identity_texts p.identity),
      beq_refl p.created_at_utc_ms,
      beq_refl p.sequence,
      beq_refl p.command_id,
      beq_refl p.kind,
      beq_refl (position_numbers p.position),
      beq_refl p.position.phase,
      beq_refl (span_values p.source_span),
      beq_refl p.idempotency_key,
      beq_refl (business_values p.business),
      beq_refl a.event_id,
      beq_refl a.content_hash,
    )
