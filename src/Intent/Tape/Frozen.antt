-- ===== src/Intent/Tape/Frozen.antt =====
-- Runs of the tape's operations (pinelib/strategy/intent_tape.py): what a committed bar keeps.
use pinelib.Prelude.{
  ℕ, Bool, List, Option, String, [], arith, false, get_elem?, int_eq, nat_eq, ok, option_eq,
  pair_eq, select, some, string_eq, true, ◌&&◌, ◌++◌, ◌==◌, ◌∷◌, ◌≡◌, ap, inl, inr, refl, subst,
  sym, ◌∙◌,
}
use pinelib.Prelude.Int.{ℤ}
use pinelib.Prelude.Dict.{get}
use pinelib.Intent.Tape.Events.{Recorded, record_intent-Recorded, sealed_event-Sealed}
use pinelib.Intent.Tape.Valid.{
  IsValid, Recorded-cases, get_elem?-some_append, record_intent-IsValid,
}
use pinelib.Intent.Contracts.{Contracts, Event}
use pinelib.Intent.Tape.{Tape, begin_callback, commit_bar, is_committed, set_series_identity}
use pinelib.Intent.Tape.Record.{record_intent, Command, next_sequence}

module _ {N : Type 0} (ct : Contracts N) where
  -- One call on the tape that changes it.
  pub data Step : Tape → Tape → Type 0 where
    began :
        (i u : ℤ) (phase : String) (r : ℤ) (t : Tape) → Step t (begin_callback ct i u phase r t).0
    committed : (i u : ℤ) (t : Tape) → Step t (commit_bar i u t)
    recorded :
        (c : Command N) (t u : Tape) (e : Event) → record_intent ct c t ≡ ok (u, e) → Step t u
    renamed :
        (s i f : String) (p : Option String) (t u : Tape)
        → set_series_identity ct s i f p t ≡ ok u
        → Step t u

  pub data Steps : Tape → Tape → Type 0 where
    done : (t : Tape) → Steps t t
    next : (t u w : Tape) → Step t u → Steps u w → Steps t w

-- The event is one of the bar's.
abbrev pub is_of_bar : ℕ → ℕ → Event → Bool
is_of_bar i u e =
    (e.payload.position.bar_index == i) && (e.payload.position.bar_open_time_utc_ms == u)

-- What a call leaves of a bar once it is committed: its events, and that it is committed.
pub record Kept (i u : ℕ) (t w : Tape) : Type 0 where
  pub still : is_committed i u w ≡ true
  pub frozen : select (is_of_bar i u) w.events ≡ select (is_of_bar i u) t.events
  pub longer : (k : ℕ) (e : Event) → get_elem? t.events k ≡ some e → get_elem? w.events k ≡ some e

select-snoc_rejected {ℓ} :
    {A : Type ℓ} (p : A → Bool) (xs : List A) (x : A)
    → p x ≡ false
    → select p (xs ++ x ∷ []) ≡ select p xs
select-snoc_rejected p [] x h = ground arith
select-snoc_rejected p (y ∷ xs) x h = ground (arith, select-snoc_rejected p xs x h)

-- A call that records nothing.
record SameEvents (t w : Tape) : Type 0 where
  events : w.events ≡ t.events
  event_ordinals : w.event_ordinals ≡ t.event_ordinals
  by_key : w.by_key ≡ t.by_key

SameEvents-IsValid : (t w : Tape) → SameEvents t w → IsValid t → IsValid w
SameEvents-IsValid t w s v = record {
  ordinals = rw s.event_ordinals (rw s.events v.ordinals);
  numbered = λ i e h. v.numbered i e (ap (λ x. get_elem? x i) (sym s.events) ∙ h);
  indexed = λ i e h. rw s.by_key (v.indexed i e (ap (λ x. get_elem? x i) (sym s.events) ∙ h));
  listed = λ k e h. rw s.events (v.listed k e (ap (λ d. get k d) (sym s.by_key) ∙ h));
}

SameEvents-Kept : (i u : ℕ) (t w : Tape) → SameEvents t w → is_committed i u w ≡ true → Kept i u t w
SameEvents-Kept i u t w s still = record {
  still = still;
  frozen = ap (select (is_of_bar i u)) s.events;
  longer = λ k e h. ap (λ x. get_elem? x k) s.events ∙ h;
}

module _ {N : Type 0} (ct : Contracts N) where
  begin_callback-SameEvents :
      (a b : ℤ) (phase : String) (r : ℤ) (t : Tape)
      → SameEvents t (begin_callback ct a b phase r t).0
        × ((begin_callback ct a b phase r t).0.committed_bars ≡ t.committed_bars)
  unfolding begin_callback
  begin_callback-SameEvents a b phase r t = (
    record { events = ground arith; event_ordinals = ground arith; by_key = ground arith },
    ground arith,
  )

  commit_bar-still :
      (a b : ℤ) (i u : ℕ) (t : Tape)
      → is_committed i u t ≡ true
      → is_committed i u (commit_bar a b t) ≡ true
  unfolding commit_bar is_committed
  commit_bar-still a b i u t h = ground arith

  commit_bar-SameEvents : (a b : ℤ) (t : Tape) → SameEvents t (commit_bar a b t)
  unfolding commit_bar
  commit_bar-SameEvents a b t = record {
    events = ground arith;
    event_ordinals = ground arith;
    by_key = ground arith;
  }

  set_series_identity-SameEvents :
      (s i f : String) (p : Option String) (t u : Tape)
      → set_series_identity ct s i f p t ≡ ok u
      → SameEvents t u × (u.committed_bars ≡ t.committed_bars)
  unfolding set_series_identity
  set_series_identity-SameEvents s i f p t u h = (
    record { events = ground arith; event_ordinals = ground arith; by_key = ground arith },
    ground arith,
  )

  same_bars-still :
      (i u : ℕ) (t w : Tape)
      → w.committed_bars ≡ t.committed_bars
      → is_committed i u t ≡ true
      → is_committed i u w ≡ true
  unfolding is_committed
  same_bars-still i u t w s h = rw s h

  -- A sealed event is of a bar that is not committed.
  Recorded-open :
      (c : Command N) (i u : ℕ) (t w : Tape) (e : Event) (r : Recorded ct c t w e)
      → is_committed i u t ≡ true
      → is_of_bar i u r.sealed ≡ false
  Recorded-open c i u t w e r k =
      let (_, _, a, b) =
        sealed_event-Sealed ct c t.identity t.context r.at r.key
          (next_sequence (get r.key t.by_key) t.events) r.sealed r.built in
      let closed = r.open_bar in
      ground (
        arith,
        nat_eq.beq_iff r.sealed.payload.position.bar_index i,
        nat_eq.beq_iff r.sealed.payload.position.bar_open_time_utc_ms u,
      )

  record_intent-Kept :
      (c : Command N) (i u : ℕ) (t w : Tape) (e : Event)
      → record_intent ct c t ≡ ok (w, e)
      → is_committed i u t ≡ true
      → Kept i u t w
  record_intent-Kept c i u t w e h k =
      let r = record_intent-Recorded ct c t w e h in
      elim (Recorded-cases ct c t w e r) [
        | inl (_, _, after) ↦
            SameEvents-Kept i u t w
              (record {
                events = ap (λ x. x.events) after;
                event_ordinals = ap (λ x. x.event_ordinals) after;
                by_key = ap (λ x. x.by_key) after;
              })
              (same_bars-still i u t w (ap (λ x. x.committed_bars) after) k)
        | inr (_, same, after) ↦ record {
          still = same_bars-still i u t w (ap (λ x. x.committed_bars) after) k;
          frozen =
              ap (λ x. select (is_of_bar i u) x.events) after
              ∙ select-snoc_rejected (is_of_bar i u) t.events e
                  (subst (λ d. is_of_bar i u d ≡ false) same (Recorded-open c i u t w e r k));
          longer = λ n d g.
              ap (λ x. get_elem? x.events n) after ∙ get_elem?-some_append t.events (e ∷ []) n g;
        }
      ]

  Step-Kept : (i u : ℕ) (t w : Tape) → Step ct t w → is_committed i u t ≡ true → Kept i u t w
  Step-Kept i u _ _ (began a b phase r t) k =
      let (same, bars) = begin_callback-SameEvents a b phase r t in
      SameEvents-Kept i u t _ same (same_bars-still i u t _ bars k)
  Step-Kept i u _ _ (committed a b t) k =
      SameEvents-Kept i u t _ (commit_bar-SameEvents a b t) (commit_bar-still a b i u t k)
  Step-Kept i u _ _ (recorded c t w e h) k = record_intent-Kept c i u t w e h k
  Step-Kept i u _ _ (renamed s n f p t w h) k =
      let (same, bars) = set_series_identity-SameEvents s n f p t w h in
      SameEvents-Kept i u t w same (same_bars-still i u t w bars k)

  -- Once a bar is committed, no sequence of calls changes its events or unseals it, and every
  -- event on the tape keeps its place.
  pub Steps-Kept : (i u : ℕ) (t w : Tape) → Steps ct t w → is_committed i u t ≡ true → Kept i u t w
  Steps-Kept i u _ _ (done t) k = record { still = k; frozen = refl; longer = λ n e h. h }
  Steps-Kept i u _ _ (next t m w s rest) k =
      let a = Step-Kept i u t m s k in
      let b = Steps-Kept i u m w rest a.still in
      record {
        still = b.still;
        frozen = b.frozen ∙ a.frozen;
        longer = λ n e h. b.longer n e (a.longer n e h);
      }

  Step-IsValid : (t w : Tape) → Step ct t w → IsValid t → IsValid w
  Step-IsValid _ _ (began a b phase r t) v =
      SameEvents-IsValid _ _ (begin_callback-SameEvents a b phase r t).0 v
  Step-IsValid _ _ (committed a b t) v = SameEvents-IsValid _ _ (commit_bar-SameEvents a b t) v
  Step-IsValid _ _ (recorded c t w e h) v = record_intent-IsValid ct c t w e v h
  Step-IsValid _ _ (renamed s n f p t w h) v =
      SameEvents-IsValid _ _ (set_series_identity-SameEvents s n f p t w h).0 v

  -- Every sequence of calls keeps a tape well formed: events numbered by their places, an ordinal
  -- for each, and the index by key holding exactly the listed events.
  pub Steps-IsValid : (t w : Tape) → Steps ct t w → IsValid t → IsValid w
  Steps-IsValid _ _ (done t) v = v
  Steps-IsValid _ _ (next t m w s rest) v = Steps-IsValid m w rest (Step-IsValid t m s v)
