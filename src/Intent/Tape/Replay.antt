-- ===== src/Intent/Tape/Replay.antt =====
-- Replaying a callback on the tape (pinelib/strategy/intent_tape.py).
use pinelib.Prelude.{
  string_eq, >>=-eq-ok, List, Result, String, [], ap, inl, inr, int_eq, nat_eq, none, ok,
  ok-injective, option_eq, pair_eq, refl, some, subst, sym, ◌>>=◌, ◌∙◌, ◌∷◌, ◌≡◌, Result-cases,
  arith,
}
use pinelib.Prelude.Int.{ℤ}
use pinelib.Prelude.Dict.{get, get-put_keeps, get-put_self}
use pinelib.Intent.Contracts.{Contracts, Event, Position}
use pinelib.Intent.Business.{nonempty}
use pinelib.Intent.Tape.{Tape, begin_callback, numbers}
use pinelib.Intent.Tape.Record.{record_intent, Command, next_sequence}
use pinelib.Intent.Tape.Events.{record_intent-Recorded, sealed_event-Sealed}
use pinelib.Intent.Tape.Valid.{IsValid, Recorded-cases, record_intent-IsValid}
use pinelib.Intent.Tape.Repeat.{on_log, replay_one}

-- The events of one tape are found on another.
abbrev Includes : Tape → Tape → Type 0
Includes l t = (k : String) (e : Event) → get k t.by_key ≡ some e → get k l.by_key ≡ some e

module _ {N : Type 0} (ct : Contracts N) where
  -- The commands of a callback, in order.
  unfoldable pub record_all : List (Command N) → Tape → Result (Tape × List Event)
  unfolding record_intent
  record_all [] t = ok (t, [])
  record_all (c ∷ cs) t = do
    (u, e) ← record_intent ct c t
    (w, es) ← record_all cs u
    ok (w, e ∷ es)

  -- What every successful `record` leaves: the callback's place and the earlier events.
  record After (t u : Tape) (e : Event) : Type 0 where
    place : on_log u t ≡ record u { invocation_counts = t.invocation_counts }
    found : get e.payload.idempotency_key u.by_key ≡ some e
    earlier : Includes u t

  record_intent-After :
      (c : Command N) (t u : Tape) (e : Event)
      → IsValid t
      → record_intent ct c t ≡ ok (u, e)
      → After t u e
  record_intent-After c t u e v h =
      let r = record_intent-Recorded ct c t u e h in
      elim (Recorded-cases ct c t u e r) [
        | inl (has, _, after) ↦ rw after (record {
          place = refl;
          found = subst (λ k. get k t.by_key ≡ some e) (sym (v.listed r.key e has).0) has;
          earlier = λ k d g. g;
        })
        | inr (fresh, same, after) ↦
            let (_, named, _, _) =
              sealed_event-Sealed ct c t.identity t.context r.at r.key
                (next_sequence (get r.key t.by_key) t.events) r.sealed r.built in
            let key = sym (ap (λ d. d.payload.idempotency_key) same) ∙ named in
            rw after (record {
              place = refl;
              found = get-put_self e.payload.idempotency_key e t.by_key;
              earlier = λ k d g.
                  get-put_keeps e.payload.idempotency_key k e d t.by_key
                    (subst (λ x. get x t.by_key ≡ none) (sym key) fresh) g;
            })
      ]

  -- A successful run of commands, one after the other.
  data Ran : List (Command N) → Tape → Tape → List Event → Type 0 where
    stop : (t : Tape) → Ran [] t t []
    and_then :
        (c : Command N) (cs : List (Command N)) (t m u : Tape) (e : Event) (es : List Event)
        → record_intent ct c t ≡ ok (m, e)
        → Ran cs m u es
        → Ran (c ∷ cs) t u (e ∷ es)

  record_all-Ran :
      (cs : List (Command N)) (t u : Tape) (es : List Event)
      → record_all cs t ≡ ok (u, es)
      → Ran cs t u es
  unfolding record_all
  record_all-Ran [] t u es h = subst (λ p. Ran [] t p.0 p.1) (ok-injective h) (stop t)
  record_all-Ran (c ∷ cs) t u es h =
      let ((m, e), first, h1) = >>=-eq-ok (record_intent ct c t) _ h in
      let ((w, ds), rest, h2) = >>=-eq-ok (record_all cs m) _ h1 in
      subst (λ p. Ran (c ∷ cs) t p.0 p.1) (ok-injective h2)
        (and_then c cs t m w e ds first (record_all-Ran cs m w ds rest))

  Ran-record_all :
      (cs : List (Command N)) (t u : Tape) (es : List Event)
      → Ran cs t u es
      → record_all cs t ≡ ok (u, es)
  unfolding record_all
  Ran-record_all _ _ _ _ (stop t) = refl
  Ran-record_all _ _ _ _ (and_then c cs t m u e es first rest) =
      rw first (rw (Ran-record_all cs m u es rest) refl)

  -- What a run leaves: the earlier events, and the callback's place.
  record Carried (t u : Tape) : Type 0 where
    earlier : Includes u t
    place : on_log u t ≡ record u { invocation_counts = t.invocation_counts }

  Ran-Carried :
      (cs : List (Command N)) (t u : Tape) (es : List Event)
      → IsValid t
      → Ran cs t u es
      → Carried t u
  Ran-Carried _ _ _ _ v (stop t) = record { earlier = λ k e g. g; place = refl }
  Ran-Carried _ _ _ _ v (and_then c cs t m u e es first rest) =
      let a = record_intent-After c t m e v first in
      let b = Ran-Carried cs m u es (record_intent-IsValid ct c t m e v first) rest in
      record {
        earlier = λ k d g. b.earlier k d (a.earlier k d g);
        place =
            ap (on_log u) a.place
            ∙ ap {A = Tape} (λ x. record x { invocation_counts = t.invocation_counts }) b.place;
      }

  -- Commands recorded again on a tape that has their events already.
  replay_all :
      (cs : List (Command N)) (l t u : Tape) (es : List Event)
      → IsValid t
      → Ran cs t u es
      → Includes l u
      → Ran cs (on_log l t) (on_log l u) es
  replay_all _ l _ _ _ v (stop t) k = stop (on_log l t)
  replay_all _ l _ _ _ v (and_then c cs t m u e es first rest) k =
      let a = record_intent-After c t m e v first in
      let valid = record_intent-IsValid ct c t m e v first in
      let b = Ran-Carried cs m u es valid rest in
      and_then c cs (on_log l t) (on_log l m) (on_log l u) e es
        (replay_one ct c l t m e v first (k _ _ (b.earlier _ _ a.found)))
        (replay_all cs l m u es valid rest k)

  -- A callback that begins stores its position and clears the counts, on any tape.
  begin_callback-start :
      (i u : ℤ) (phase : String) (r : ℤ) (t : Tape)
      → (begin_callback ct i u phase r t).1 ≡ ok tt
      → (p : Position) × ((w : Tape)
          → begin_callback ct i u phase r w
            ≡ (record w { callback = p; invocation_counts = [] }, ok tt))
  unfolding begin_callback
  begin_callback-start i u phase r t h = elim (Result-cases (numbers i u r)) [
    | inl (_, q) ↦ ground arith
    | inr ((a, b, c), q) ↦ elim (Result-cases (nonempty ct phase)) [
      | inl (_, z) ↦ ground arith
      | inr (f, z) ↦ (
        record { bar_index = a; bar_open_time_utc_ms = b; phase = f; recalc_iteration = c },
        λ w. rw (q, begin_callback) (rw z refl),
      )
    ]
  ]

  -- On a well-formed tape, when a callback that began and recorded its commands begins again with
  -- the same position and records the same commands, the same events come back and the tape is
  -- exactly as it was.
  pub replay :
      (cs : List (Command N)) (i u : ℤ) (phase : String) (r : ℤ) (t w : Tape) (es : List Event)
      → IsValid t
      → (begin_callback ct i u phase r t).1 ≡ ok tt
      → record_all cs (begin_callback ct i u phase r t).0 ≡ ok (w, es)
      → ((begin_callback ct i u phase r w).1 ≡ ok tt)
        × (record_all cs (begin_callback ct i u phase r w).0 ≡ ok (w, es))
  replay cs i u phase r t w es v h run =
      let (p, begins) = begin_callback-start i u phase r t h in
      let t0 : Tape = record t { callback = p; invocation_counts = [] } in
      let ran = record_all-Ran cs t0 w es (ap (λ x. record_all cs x.0) (sym (begins t)) ∙ run) in
      let valid : IsValid t0 = record {
        ordinals = v.ordinals;
        numbered = v.numbered;
        indexed = v.indexed;
        listed = v.listed;
      } in
      let place = (Ran-Carried cs t0 w es valid ran).place in
      let same : record w { callback = p; invocation_counts = [] } ≡ on_log w t0 =
        ap {A = Position} (λ q. record w { callback = q; invocation_counts = [] })
          (ap (λ x. x.callback) place)
        ∙ sym place in
      let again =
        Ran-record_all cs (on_log w t0) w es (replay_all cs w t0 w es valid ran (λ k e g. g)) in
      rw (begins w) (refl, ap (record_all cs) same ∙ again)
