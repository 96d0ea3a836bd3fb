-- ===== src/Intent/Tape/Events.antt =====
-- What a successful `record` did (pinelib/strategy/intent_tape.py), taken apart for the proofs.
use pinelib.Prelude.{
  ℕ, >>=-eq-ok, Option, String, false, int_eq, nat_eq, ok, option_eq, pair_eq, raise_if, string_eq,
  ◌≡◌, builtin_runtime_error, ap, ok-injective, or_raise, sym, value_error, raise_if-eq-ok,
}
use pinelib.Prelude.Dict.{get}
use pinelib.Intent.Contracts.{Contracts, Event, Position, ExecutionContext, Identity}
use pinelib.Intent.Business.{nonempty, business_fields, parse_kind}
use pinelib.Intent.Span.{source_span}
use pinelib.Intent.Tape.{Tape, is_committed}
use pinelib.Intent.Tape.Record.{
  record_intent, Command, check_command, choose_ordinal, deliver, delivery_key, place, sealed_event,
  next_sequence, expected_hash,
}

module _ {N : Type 0} (ct : Contracts N) where
  pub record Recorded (c : Command N) (t u : Tape) (e : Event) : Type 0 where
    pub checked : check_command ct c ≡ ok tt
    pub at : Position
    pub placed : place ct c t.callback ≡ ok at
    pub open_bar : is_committed at.bar_index at.bar_open_time_utc_ms t ≡ false
    pub ordinal : ℕ
    pub chosen : choose_ordinal ct c t.invocation_counts ≡ ok ordinal
    pub key : String
    pub keyed : delivery_key ct c t.identity at ordinal ≡ ok key
    pub sealed : Event
    pub built :
        sealed_event ct c t.identity t.context at key (next_sequence (get key t.by_key) t.events)
        ≡ ok sealed
    pub delivered : deliver ct c ordinal (get key t.by_key) sealed t ≡ ok (u, e)

  pub record_intent-Recorded :
      (c : Command N) (t u : Tape) (e : Event) → record_intent ct c t ≡ ok (u, e) → Recorded c t u e
  unfolding record_intent
  record_intent-Recorded c t u e h =
      let (_, checked, h1) = >>=-eq-ok (check_command ct c) _ h in
      let (at, placed, h2) = >>=-eq-ok (place ct c t.callback) _ h1 in
      let (_, open_bar, h3) =
        >>=-eq-ok
          (raise_if (is_committed at.bar_index at.bar_open_time_utc_ms t) builtin_runtime_error) _
          h2 in
      let (ordinal, chosen, h4) = >>=-eq-ok (choose_ordinal ct c t.invocation_counts) _ h3 in
      let (key, keyed, h5) = >>=-eq-ok (delivery_key ct c t.identity at ordinal) _ h4 in
      let (sealed, built, delivered) =
        >>=-eq-ok
          (sealed_event ct c t.identity t.context at key
            (next_sequence (get key t.by_key) t.events))
          _ h5 in
      record {
        checked = checked;
        at = at;
        placed = placed;
        open_bar = raise_if-eq-ok _ builtin_runtime_error open_bar;
        ordinal = ordinal;
        chosen = chosen;
        key = key;
        keyed = keyed;
        sealed = sealed;
        built = built;
        delivered = delivered;
      }

  -- And the converse: these steps are a run of `record`.
  pub Recorded-record_intent :
      (c : Command N) (t u : Tape) (e : Event) → Recorded c t u e → record_intent ct c t ≡ ok (u, e)
  unfolding record_intent
  Recorded-record_intent c t u e r =
      rw r.checked (rw r.placed (rw r.open_bar (rw r.chosen (rw r.keyed (rw r.built r.delivered)))))

  -- Where the event stands.
  pub sealed_event-Sealed :
      (c : Command N) (i : Identity) (x : Option ExecutionContext) (at : Position) (key : String)
      (n : ℕ) (e : Event)
      → sealed_event ct c i x at key n ≡ ok e
      → (e.payload.sequence ≡ n)
        × (e.payload.idempotency_key ≡ key)
        × (e.payload.position.bar_index ≡ at.bar_index)
        × (e.payload.position.bar_open_time_utc_ms ≡ at.bar_open_time_utc_ms)
  unfolding sealed_event
  sealed_event-Sealed c i x at key n e h =
      let (phase, _, h1) = >>=-eq-ok (nonempty ct at.phase) _ h in
      let (span, _, h2) =
        >>=-eq-ok (source_span ct i.strict_production (expected_hash x) c.source_span) _ h1 in
      let (kind, _, h3) = >>=-eq-ok (or_raise (parse_kind c.kind) value_error) _ h2 in
      let (business, _, h4) = >>=-eq-ok (business_fields ct kind c.fields) _ h3 in
      let (_, _, h5) = >>=-eq-ok (ct.validate_payload _) _ h4 in
      let same = ok-injective h5 in
      (
        sym (ap (λ d. d.payload.sequence) same),
        sym (ap (λ d. d.payload.idempotency_key) same),
        sym (ap (λ d. d.payload.position.bar_index) same),
        sym (ap (λ d. d.payload.position.bar_open_time_utc_ms) same),
      )
