-- ===== src/Recorders/Visual/Log.antt =====
-- The object table of pinelib/visual.py against its log of events.
use pinelib.Prelude.{
  ℕ, List, All, All-append, Bool-cases, Option-cases, [], arith, nat_eq, string_eq, pair_eq, ◌≡◌,
  ◌≢◌, ◌<◌, ◌≤◌, refl, sym, ap, subst, ◌∙◌, none, some, ok, ok-injective, or_raise, runtime_error,
  >>=-eq-ok, suc, if◌then◌else◌, ◌==◌, ◌∷◌, ◌++◌, ◌+◌, inl, inr, int_eq, option_eq,
}
use pinelib.Prelude.Dict
use pinelib.Prelude.Dict.{
  Dict, IsUnique, get, put, get-put, put-IsUnique, get-put_cases, get-delete_ne, get-delete_self,
  delete-IsUnique,
}
use pinelib.Recorders.Visual.{
  Attrs, PineObjectId, VisualEvent, VisualKind, VisualRecorder, active, check_limit, delete,
  delete_object, kind_eq, new, new_object, set, set_object, update,
}

module _ {A : Type 0} where
  -- What one event of the log does to a table.
  abbrev pub applied : VisualEvent A → Dict PineObjectId (Attrs A) → Dict PineObjectId (Attrs A)
  applied e t = elim e.action [
    | new ↦ put e.object_id e.attrs t
    | set ↦ elim (get e.object_id t) [
      | none ↦ t
      | some old ↦ put e.object_id (update e.attrs old) t
    ]
    | delete ↦ Dict.delete e.object_id t
  ]

  -- The table that a log describes, the events applied in order.
  abbrev pub table_of :
      List (VisualEvent A) → Dict PineObjectId (Attrs A) → Dict PineObjectId (Attrs A)
  table_of [] t = t
  table_of (e ∷ es) t = table_of es (applied e t)

  table_of-snoc :
      (es : List (VisualEvent A)) (e : VisualEvent A) (t : Dict PineObjectId (Attrs A))
      → table_of (es ++ e ∷ []) t ≡ applied e (table_of es t)
  table_of-snoc [] e t = refl
  table_of-snoc (d ∷ es) e t = table_of-snoc es e (applied d t)

  -- The table is what the log describes; ids are below the next one; no kind is over its limit.
  pub record IsWellFormed (r : VisualRecorder A) : Type 0 where
    pub described : r.objects ≡ table_of r.events []
    pub unique : IsUnique r.objects
    pub logged : All (λ e. e.object_id.1 < r.next_id) r.events
    pub numbered : (id : PineObjectId) (a : Attrs A) → get id r.objects ≡ some a → id.1 < r.next_id
    pub limited :
        (kind : VisualKind) (limit : ℕ)
        → get kind r.max_counts ≡ some limit
        → active kind r.objects ≤ limit

  active-put_new :
      (kind : VisualKind) (id : PineObjectId) (a : Attrs A) (t : Dict PineObjectId (Attrs A))
      → get id t ≡ none
      → active kind (put id a t) ≡ (if id.0 == kind then suc (active kind t) else active kind t)
  active-put_new kind id a [] h = refl
  active-put_new kind id a ((j, b) ∷ t) h = ground (arith, active-put_new kind id a t)

  active-put_old :
      (kind : VisualKind) (id : PineObjectId) (a b : Attrs A) (t : Dict PineObjectId (Attrs A))
      → get id t ≡ some b
      → active kind (put id a t) ≡ active kind t
  active-put_old kind id a b [] h = ground arith
  active-put_old kind id a b ((j, c) ∷ t) h = ground (arith, active-put_old kind id a b t)

  active-delete :
      (kind : VisualKind) (id : PineObjectId) (t : Dict PineObjectId (Attrs A))
      → active kind (Dict.delete id t) ≤ active kind t
  active-delete kind id [] = omega arith
  active-delete kind id ((j, c) ∷ t) = ground (arith, active-delete kind id t)

  check_limit-room :
      (kind : VisualKind) (r : VisualRecorder A) (limit : ℕ) {u : Unit {0}}
      → check_limit kind r ≡ ok u
      → get kind r.max_counts ≡ some limit
      → active kind r.objects < limit
  unfolding check_limit
  check_limit-room kind r limit h g = ground arith

  All-later :
      (n m : ℕ) (es : List (VisualEvent A))
      → n ≤ m
      → All (λ e. e.object_id.1 < n) es
      → All (λ e. e.object_id.1 < m) es
  All-later n m [] h a = tt
  All-later n m (e ∷ es) h a = (omega (arith, a.0, h), All-later n m es h a.1)

  -- When a well-formed recorder makes a new object, the object's id was never used in its log, and
  -- the recorder stays well formed.
  pub new_object-IsWellFormed :
      (kind : VisualKind) (attrs : Attrs A) (r w : VisualRecorder A) (id : PineObjectId)
      → IsWellFormed r
      → new_object kind attrs r ≡ ok (id, w)
      → IsWellFormed w × All (λ e. e.object_id ≢ id) r.events
  unfolding new_object
  new_object-IsWellFormed kind attrs r w id v h =
      let (_, room, h1) = >>=-eq-ok (check_limit kind r) _ h in
      let key : PineObjectId = (kind, r.next_id) in
      let fresh : get key r.objects ≡ none = elim (Option-cases (get key r.objects)) [
        | inl empty ↦ empty
        | inr (a, has) ↦ absurd (omega (arith, v.numbered key a has))
      ] in
      (
        subst IsWellFormed (ap (λ p. p.1) (ok-injective h1)) (record {
          described = ap (put key attrs) v.described ∙ sym (table_of-snoc r.events _ []);
          unique = put-IsUnique key attrs r.objects v.unique;
          logged =
              All-append (λ e. e.object_id.1 < r.next_id + 1) r.events _
                (All-later r.next_id (r.next_id + 1) r.events (omega arith) v.logged)
                (omega arith, tt);
          numbered = λ j a g. elim (get-put_cases key j attrs a r.objects g) [
            | inl (same, _) ↦ subst (λ i. i.1 < r.next_id + 1) same (omega arith)
            | inr old ↦ omega (arith, v.numbered j a old)
          ];
          limited = λ k limit g. ground (
            arith,
            active-put_new k key attrs r.objects fresh,
            v.limited k limit g,
            check_limit-room kind r limit room,
            kind_eq.beq_iff kind k,
          );
        }),
        subst (λ i. All (λ e. e.object_id ≢ i) r.events) (ap (λ p. p.0) (ok-injective h1))
            (unused r.next_id kind r.events v.logged),
      )
    where
      unused :
          (n : ℕ) (k : VisualKind) (es : List (VisualEvent A))
          → All (λ e. e.object_id.1 < n) es
          → All (λ e. e.object_id ≢ (k, n)) es
      unused n k [] a = tt
      unused n k (e ∷ es) a =
          ((λ same. absurd (omega (arith, a.0, ap (λ i. i.1) same))), unused n k es a.1)

  pub set_object-IsWellFormed :
      (id : PineObjectId) (attrs : Attrs A) (r w : VisualRecorder A)
      → IsWellFormed r
      → set_object id attrs r ≡ ok w
      → IsWellFormed w
  unfolding set_object
  set_object-IsWellFormed id attrs r w v h =
      let (old, g, h1) = >>=-eq-ok (or_raise (get id r.objects) runtime_error) _ h in
      let has : get id r.objects ≡ some old = ground arith in
      subst IsWellFormed (ok-injective h1) (record {
        described =
            sym (changed has)
            ∙ ap (applied (record { action = set; object_id = id; attrs = attrs })) v.described
            ∙ sym (table_of-snoc r.events _ []);
        unique = put-IsUnique id (update attrs old) r.objects v.unique;
        logged = All-append _ r.events _ v.logged (v.numbered id old has, tt);
        numbered = λ j a x. elim (get-put_cases id j (update attrs old) a r.objects x) [
          | inl (same, _) ↦ subst (λ i. i.1 < r.next_id) same (v.numbered id old has)
          | inr before ↦ v.numbered j a before
        ];
        limited = λ k limit x.
            rw (active-put_old k id (update attrs old) old r.objects has) (v.limited k limit x);
      })
    where
      changed :
          {old : Attrs A}
          → get id r.objects ≡ some old
          → applied (record { action = set; object_id = id; attrs = attrs }) r.objects
            ≡ put id (update attrs old) r.objects
      changed has = rw (has, applied) refl

  get-delete-some :
      (id j : PineObjectId) (a : Attrs A) (t : Dict PineObjectId (Attrs A))
      → IsUnique t
      → get j (Dict.delete id t) ≡ some a
      → get j t ≡ some a
  get-delete-some id j a t u g = elim (Bool-cases (id == j)) [
    | inl same ↦
        let at : id ≡ j = (pair_eq.beq_iff id j).0 same in
        absurd (
          ground (
            arith,
            get-delete_self id t u,
            subst (λ i. get i (Dict.delete id t) ≡ some a) (sym at) g,
          ))
    | inr other ↦
        sym (
          get-delete_ne id j t
            (λ (at : id ≡ j). absurd (ground (arith, (pair_eq.beq_iff id j).1 at))))
        ∙ g
  ]

  pub delete_object-IsWellFormed :
      (id : PineObjectId) (r : VisualRecorder A)
      → IsWellFormed r
      → IsWellFormed (delete_object id r)
  unfolding delete_object
  delete_object-IsWellFormed id r v = elim (Option-cases (get id r.objects)) [
    | inl missing ↦ rw (missing, delete_object) v
    | inr (old, has) ↦
        rw (has, delete_object)
          (record {
            described =
                ap (Dict.delete id) v.described
                ∙ sym (
                    table_of-snoc r.events (record { action = delete; object_id = id; attrs = [] })
                      []);
            unique = delete-IsUnique id r.objects v.unique;
            logged = All-append _ r.events _ v.logged (v.numbered id old has, tt);
            numbered = λ j a g. v.numbered j a (get-delete-some id j a r.objects v.unique g);
            limited = λ k limit g. omega (arith, v.limited k limit g, active-delete k id r.objects);
          })
  ]
