-- ===== src/Intent/Tape/Repeat.antt =====
-- Recording a command twice on the tape (pinelib/strategy/intent_tape.py).
use pinelib.Prelude.{
  ℕ, string_eq, ap, inl, inr, int_eq, nat_eq, ok, option_eq, pair_eq, refl, some, subst, sym, ◌∙◌,
  ◌≡◌, true,
}
use pinelib.Prelude.Dict.{get}
use pinelib.Intent.Contracts.{Contracts, Event}
use pinelib.Intent.Same.{same_event, same_event_refl}
use pinelib.Intent.Tape.{Tape, is_committed}
use pinelib.Intent.Tape.Record.{record_intent, Command, next_sequence, count, deliver, sealed_event}
use pinelib.Intent.Tape.Events.{
  Recorded, record_intent-Recorded, sealed_event-Sealed, Recorded-record_intent,
}
use pinelib.Intent.Tape.Valid.{IsValid, Recorded-cases}

-- The callback's state of one tape with the events of another.
abbrev pub on_log : Tape → Tape → Tape
on_log l t = record t { events = l.events; event_ordinals = l.event_ordinals; by_key = l.by_key }

module _ {N : Type 0} (ct : Contracts N) where
  -- The event is the sealed one again, numbered as it was, and only the counts changed besides
  -- the events.
  pub record Repeatable (c : Command N) (t u : Tape) (e : Event) : Type 0 where
    run : Recorded ct c t u e
    agrees : same_event e run.sealed ≡ true
    number : next_sequence (get run.key t.by_key) t.events ≡ e.payload.sequence
    named : e.payload.idempotency_key ≡ run.key
    left :
        (l : Tape)
        → on_log l u
          ≡ on_log l (record t { invocation_counts = count ct c run.ordinal t.invocation_counts })

  pub record_intent-Repeatable :
      (c : Command N) (t u : Tape) (e : Event)
      → IsValid t
      → record_intent ct c t ≡ ok (u, e)
      → Repeatable c t u e
  record_intent-Repeatable c t u e v h =
      let r = record_intent-Recorded ct c t u e h in
      elim (Recorded-cases ct c t u e r) [
        | inl (has, agrees, after) ↦ record {
          run = r;
          agrees = agrees;
          number = ap (λ o. next_sequence o t.events) has;
          named = (v.listed r.key e has).0;
          left = λ l. ap (on_log l) after;
        }
        | inr (fresh, same, after) ↦
            let (number, named, _, _) =
              sealed_event-Sealed ct c t.identity t.context r.at r.key
                (next_sequence (get r.key t.by_key) t.events) r.sealed r.built in
            record {
              run = r;
              agrees = subst (λ d. same_event e d ≡ true) (sym same) (same_event_refl e);
              number = sym number ∙ ap (λ d. d.payload.sequence) same;
              named = sym (ap (λ d. d.payload.idempotency_key) same) ∙ named;
              left = λ l. ap (on_log l) after;
            }
      ]

  redelivered :
      (c : Command N) (ordinal : ℕ) (e d : Event) (t : Tape)
      → same_event e d ≡ true
      → deliver ct c ordinal (some e) d t
        ≡ ok (record t { invocation_counts = count ct c ordinal t.invocation_counts }, e)
  unfolding deliver
  redelivered c ordinal e d t h = rw h refl

  -- A command recorded again, on a tape that has its event already.
  pub replay_one :
      (c : Command N) (l t u : Tape) (e : Event)
      → IsValid t
      → record_intent ct c t ≡ ok (u, e)
      → get e.payload.idempotency_key l.by_key ≡ some e
      → record_intent ct c (on_log l t) ≡ ok (on_log l u, e)
  unfolding is_committed
  replay_one c l t u e v h has =
      let p = record_intent-Repeatable c t u e v h in
      let r = p.run in
      let found : get r.key l.by_key ≡ some e = subst (λ k. get k l.by_key ≡ some e) p.named has in
      Recorded-record_intent ct c (on_log l t) (on_log l u) e (record {
        checked = r.checked;
        at = r.at;
        placed = r.placed;
        open_bar = r.open_bar;
        ordinal = r.ordinal;
        chosen = r.chosen;
        key = r.key;
        keyed = r.keyed;
        sealed = r.sealed;
        built = rw found (
            subst (λ n. sealed_event ct c t.identity t.context r.at r.key n ≡ ok r.sealed) p.number
              r.built);
        delivered = rw found (
            redelivered c r.ordinal e r.sealed (on_log l t) p.agrees
            ∙ ap (λ x. ok (x, e)) (sym (p.left l)));
      })
