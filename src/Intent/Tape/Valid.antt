-- ===== src/Intent/Tape/Valid.antt =====
-- The well-formedness of a tape (pinelib/strategy/intent_tape.py).
use pinelib.Prelude.{
  ℕ, string_eq, List, String, [], arith, get_elem?, inl, inr, int_eq, length, length-append, nat_eq,
  none, option_eq, pair_eq, refl, some, suc, zero, ◌++◌, ◌∷◌, ◌≡◌, ◌⊎◌, get_elem?-append_last,
  subst, Option, ap, ok, ok-injective, sym, ◌∙◌, if-eq-ok, value_error, true,
}
use pinelib.Prelude.Dict.{get-put_keeps, get, put, Dict, get-put_cases, get-put_self}
use pinelib.Intent.Contracts.{Contracts, Event}
use pinelib.Intent.Same.{same_event}
use pinelib.Intent.Tape.{Tape}
use pinelib.Intent.Tape.Record.{record_intent, Command, count, deliver, next_sequence}
use pinelib.Intent.Tape.Events.{Recorded, record_intent-Recorded, sealed_event-Sealed}

-- Events are numbered by their places, each with an ordinal, and the index by key and the list of
-- events hold the same events.
pub record IsValid (t : Tape) : Type 0 where
  pub ordinals : length t.event_ordinals ≡ length t.events
  pub numbered : (i : ℕ) (e : Event) → get_elem? t.events i ≡ some e → e.payload.sequence ≡ i
  pub indexed :
      (i : ℕ) (e : Event)
      → get_elem? t.events i ≡ some e
      → get e.payload.idempotency_key t.by_key ≡ some e
  pub listed :
      (k : String) (e : Event)
      → get k t.by_key ≡ some e
      → (e.payload.idempotency_key ≡ k) × (get_elem? t.events e.payload.sequence ≡ some e)

-- An element of a list with one more at its end.
pub get_elem?-snoc {ℓ} :
    {A : Type ℓ} (xs : List A) (x y : A) (i : ℕ)
    → get_elem? (xs ++ x ∷ []) i ≡ some y
    → (get_elem? xs i ≡ some y) ⊎ ((i ≡ length xs) × (x ≡ y))
get_elem?-snoc [] x y zero h = inr (refl, ground arith)
get_elem?-snoc [] x y (suc i) h = ground arith
get_elem?-snoc (z ∷ xs) x y zero h = inl h
get_elem?-snoc (z ∷ xs) x y (suc i) h = ground (arith, get_elem?-snoc xs x y i h)

pub get_elem?-some_append {ℓ} :
    {A : Type ℓ} (xs ys : List A) (i : ℕ) {y : A}
    → get_elem? xs i ≡ some y
    → get_elem? (xs ++ ys) i ≡ some y
get_elem?-some_append [] ys i h = ground arith
get_elem?-some_append (x ∷ xs) ys zero h = h
get_elem?-some_append (x ∷ xs) ys (suc i) h = get_elem?-some_append xs ys i h

-- A tape with one more event, its key new and its number the number of events.
abbrev pub extended : Tape → Event → ℕ → Tape
extended t e ordinal = record t {
  events = t.events ++ e ∷ [];
  event_ordinals = t.event_ordinals ++ ordinal ∷ [];
  by_key = put e.payload.idempotency_key e t.by_key;
}

pub extended-IsValid :
    (t : Tape) (e : Event) (ordinal : ℕ)
    → IsValid t
    → get e.payload.idempotency_key t.by_key ≡ none
    → e.payload.sequence ≡ length t.events
    → IsValid (extended t e ordinal)
extended-IsValid t e ordinal v fresh number = record {
  ordinals = omega (
    arith,
    v.ordinals,
    length-append t.event_ordinals (ordinal ∷ []),
    length-append t.events (e ∷ []),
  );
  numbered = λ i d h. ground (arith, get_elem?-snoc t.events e d i h, v.numbered i d);
  indexed = λ i d h. elim (get_elem?-snoc t.events e d i h) [
    | inl g ↦ get-put_keeps e.payload.idempotency_key _ e d t.by_key fresh (v.indexed i d g)
    | inr (_, same) ↦
        subst (λ x. get x.payload.idempotency_key (extended t e ordinal).by_key ≡ some x) same
          (get-put_self e.payload.idempotency_key e t.by_key)
  ];
  listed = λ k d h. elim (get-put_cases e.payload.idempotency_key k e d t.by_key h) [
    | inl (at, same) ↦
        subst
          (λ x.
            (x.payload.idempotency_key ≡ k)
            × (get_elem? (t.events ++ e ∷ []) x.payload.sequence ≡ some x))
          same
          (
            at,
            subst (λ n. get_elem? (t.events ++ e ∷ []) n ≡ some e) (sym number)
                (get_elem?-append_last t.events e),
          )
    | inr g ↦
        let (at, stands) = v.listed k d g in (at, get_elem?-some_append t.events (e ∷ []) _ stands)
  ];
}

-- Only the counts differ.
pub counts-IsValid :
    (t : Tape) (counts : Dict (String × String) ℕ)
    → IsValid t
    → IsValid (record t { invocation_counts = counts })
counts-IsValid t counts v = record {
  ordinals = v.ordinals;
  numbered = v.numbered;
  indexed = v.indexed;
  listed = v.listed;
}

module _ {N : Type 0} (ct : Contracts N) where
  deliver-cases :
      (c : Command N) (t u : Tape) (e : Event) (ordinal : ℕ) (existing : Option Event)
      (sealed : Event)
      → deliver ct c ordinal existing sealed t ≡ ok (u, e)
      → let counts = count ct c ordinal t.invocation_counts in
        ((existing ≡ some e)
          × (same_event e sealed ≡ true)
          × (u ≡ record t { invocation_counts = counts }))
        ⊎ ((existing ≡ none)
            × (sealed ≡ e)
            × (u ≡ record (extended t e ordinal) { invocation_counts = counts }))
  unfolding deliver
  deliver-cases c t u e ordinal none sealed h =
      let same = ok-injective h in
      let at = ap (λ p. p.1) same in
      inr (
        refl,
        at,
        sym (ap (λ p. p.0) same)
            ∙ ap
                (λ x. record (extended t x ordinal) {
                  invocation_counts = count ct c ordinal t.invocation_counts;
                })
                at,
      )
  deliver-cases c t u e ordinal (some d) sealed h =
      let (agree, done) = if-eq-ok (same_event d sealed) _ value_error h in
      let same = ok-injective done in
      let at = ap (λ p. p.1) same in
      inl (ap some at, subst (λ x. same_event x sealed ≡ true) at agree, sym (ap (λ p. p.0) same))

  -- The two ways in which a command is recorded: it is a repeated delivery of an event that the
  -- tape has, or a new event at the end.
  pub Recorded-cases :
      (c : Command N) (t u : Tape) (e : Event) (r : Recorded ct c t u e)
      → let counts = count ct c r.ordinal t.invocation_counts in
        ((get r.key t.by_key ≡ some e)
          × (same_event e r.sealed ≡ true)
          × (u ≡ record t { invocation_counts = counts }))
        ⊎ ((get r.key t.by_key ≡ none)
            × (r.sealed ≡ e)
            × (u ≡ record (extended t e r.ordinal) { invocation_counts = counts }))
  Recorded-cases c t u e r =
      deliver-cases c t u e r.ordinal (get r.key t.by_key) r.sealed r.delivered

  -- `record` keeps a tape well formed.
  pub record_intent-IsValid :
      (c : Command N) (t u : Tape) (e : Event)
      → IsValid t
      → record_intent ct c t ≡ ok (u, e)
      → IsValid u
  record_intent-IsValid c t u e v h =
      let r = record_intent-Recorded ct c t u e h in
      elim (Recorded-cases c t u e r) [
        | inl (_, _, after) ↦ subst IsValid (sym after) (counts-IsValid t _ v)
        | inr (fresh, same, after) ↦
            let (number, named, _, _) =
              sealed_event-Sealed ct c t.identity t.context r.at r.key
                (next_sequence (get r.key t.by_key) t.events) r.sealed r.built in
            let key = sym (ap (λ d. d.payload.idempotency_key) same) ∙ named in
            subst IsValid (sym after) (
              counts-IsValid (extended t e r.ordinal) _ (
                extended-IsValid t e r.ordinal v
                  (subst (λ k. get k t.by_key ≡ none) (sym key) fresh)
                  (sym (ap (λ d. d.payload.sequence) same)
                    ∙ number
                    ∙ ap (λ o. next_sequence o t.events) fresh)))
      ]
