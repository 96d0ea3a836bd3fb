-- ===== src/Intent/Tape/Naming.antt =====
-- The series identity of a tape (pinelib/strategy/intent_tape.py).
use pinelib.Prelude.{
  string_eq, list_eq, >>=-eq-ok, List, Option, String, [], ap, arith, builtin_runtime_error, false,
  get_elem?, int_eq, nat_eq, not, ok, ok-injective, option_eq, pair_eq, raise_if, refl, some, sym,
  true, value_error, ◌&&◌, ◌==◌, ◌∙◌, ◌∷◌, ◌≡◌, raise_if-eq-ok, Bool,
}
use pinelib.Intent.Contracts.{Contracts, Event}
use pinelib.Intent.Business.{nonempty}
use pinelib.Intent.Tape.{
  Tape, context_agrees, is_empty, profile_or, series_identity, set_series_identity,
}

module _ {N : Type 0} (ct : Contracts N) where
  is_empty-false : (es : List Event) (e : Event) → get_elem? es 0 ≡ some e → is_empty es ≡ false
  is_empty-false [] e h = ground arith
  is_empty-false (d ∷ es) e h = refl

  unguarded : (a b : Bool) → a ≡ false → (not a && not b) ≡ false → b ≡ true
  unguarded a b h k = ground arith

  -- A tape that has an event keeps its series identity when set_series_identity succeeds.
  pub set_series_identity-frozen :
      (s i f : String) (p : Option String) (t u : Tape) (e : Event)
      → get_elem? t.events 0 ≡ some e
      → set_series_identity ct s i f p t ≡ ok u
      → series_identity u.identity ≡ series_identity t.identity
  unfolding set_series_identity
  set_series_identity-frozen s i f p t u e has h =
      let (a, _, h1) = >>=-eq-ok (nonempty ct s) _ h in
      let (b, _, h2) = >>=-eq-ok (nonempty ct i) _ h1 in
      let (c, _, h3) = >>=-eq-ok (nonempty ct f) _ h2 in
      let (d, _, h4) = >>=-eq-ok (profile_or ct t.identity.semantic_profile p) _ h3 in
      let new : List String = a ∷ b ∷ c ∷ d ∷ [] in
      let (_, _, h5) =
        >>=-eq-ok
          (raise_if (t.identity.strict_production && not (context_agrees t.context new))
            value_error)
          _ h4 in
      let (_, kept, h6) =
        >>=-eq-ok
          (raise_if (not (is_empty t.events) && not (new == series_identity t.identity))
            builtin_runtime_error)
          _ h5 in
      let full = is_empty-false t.events e has in
      let unchanged = raise_if-eq-ok _ builtin_runtime_error kept in
      let equal : (new == series_identity t.identity) ≡ true =
        unguarded (is_empty t.events) _ full unchanged in
      ap (λ x. series_identity x.identity) (sym (ok-injective h6))
      ∙ (list_eq.beq_iff new (series_identity t.identity)).0 equal
