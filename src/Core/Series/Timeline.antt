-- ===== src/Core/Series/Timeline.antt =====
-- What a series promises: it reads like the list of its bars' values, newest first.
use pinelib.Prelude.{
  ℕ, List, [], arith, false, get_elem?, if◌then◌else◌, last?, length, none, ok, or_else, refl, some,
  suc, true, zero, ◌&&◌, ◌∷◌, ◌≡◌, ◌≤◌, reverse, get_elem?-reverse, length-reverse, ◌-◌, ◌∙◌,
  Result, reverse-append, ◌++◌, ◌>>=◌, Result-cases, inl, inr, append-nil, append_assoc,
  ok-injective, subst, sym, ap,
}
use pinelib.Prelude.Int.{pos}
use pinelib.Core.Value.{Value}
use pinelib.Core.Series.{
  Series, getitem, history_forbidden, is_container, is_reference, is_unsupported, lookback, missing,
  commit_current, mark_between_bars, set_current,
}

module _ {F : Type 0} where
  -- The series keeps a history and lets it be read.
  pub record IsPlain (s : Series F) : Type 0 where
    pub no_container : is_container s.dtype ≡ false
    pub readable : history_forbidden s.type_info ≡ false
    pub supported : (is_reference s.type_info && is_unsupported s.reference_mode) ≡ false

  -- Between bars the current value has just been committed.
  abbrev pub IsSettled : Series F → Type 0
  IsSettled s = s.between_bars ≡ true → last? s.history ≡ some s.current

  -- The abstract view: the values of the bars, newest first.
  abbrev pub timeline : Series F → List (Value F)
  timeline s = if s.between_bars then reverse s.history else s.current ∷ reverse s.history

  abbrev pub read_timeline : Series F → ℕ → Value F
  read_timeline s k = or_else (get_elem? (timeline s) k) (missing s)

  get_elem?-out : (xs : List (Value F)) (k : ℕ) → length xs ≤ k → get_elem? xs k ≡ none
  get_elem?-out [] k h = refl
  get_elem?-out (x ∷ xs) zero h = elim h [ ]
  get_elem?-out (x ∷ xs) (suc k) h = get_elem?-out xs k (omega arith)

  lookback-reverse :
      (s : Series F) (k : ℕ)
      → lookback s (suc k) ≡ or_else (get_elem? (timeline s) (suc k)) (missing s)
  unfolding lookback
  lookback-reverse s k = ground (
    arith,
    get_elem?-reverse s.history k,
    get_elem?-reverse s.history (suc k),
    get_elem?-out (reverse s.history) k,
    get_elem?-out (reverse s.history) (suc k),
    length-reverse s.history,
  )

  get_elem?-last :
      (x : Value F) (xs : List (Value F)) → get_elem? (x ∷ xs) (length xs) ≡ last? (x ∷ xs)
  get_elem?-last x [] = refl
  get_elem?-last x (y ∷ xs) = get_elem?-last y xs

  last?-append : (xs : List (Value F)) (v : Value F) → last? (xs ++ v ∷ []) ≡ some v
  last?-append [] v = refl
  last?-append (x ∷ []) v = refl
  last?-append (x ∷ y ∷ xs) v = last?-append (y ∷ xs) v

  last-reverse : (xs : List (Value F)) → get_elem? (reverse xs) 0 ≡ last? xs
  last-reverse [] = refl
  last-reverse (x ∷ xs) =
      get_elem?-reverse (x ∷ xs) 0 (omega arith) ∙ rw sub_one (get_elem?-last x xs)
    where
      sub_one : suc (length xs) - 1 ≡ length xs
      sub_one = omega arith

  -- Every read of a plain, settled series at an offset is the read of its timeline, the list of
  -- the bars' values with the newest first.
  pub getitem-eq-timeline :
      (s : Series F) (k : ℕ) → IsPlain s → IsSettled s → getitem s (pos k) ≡ ok (read_timeline s k)
  unfolding getitem
  getitem-eq-timeline s zero p h = ground (arith, last-reverse s.history)
  getitem-eq-timeline s (suc k) p h = rw (p.readable, p.supported, lookback-reverse s k)

  -- Closing a bar of a plain series that is in a bar changes no read of its timeline.
  pub close_bar-timeline :
      (s : Series F)
      → IsPlain s
      → s.between_bars ≡ false
      → timeline (mark_between_bars (commit_current s)) ≡ timeline s
  unfolding mark_between_bars commit_current
  close_bar-timeline s p h =
      rw (p.no_container, p.readable, h) (reverse-append s.history (s.current ∷ []))

  pub close_bar-IsSettled :
      (s : Series F) → IsPlain s → IsSettled (mark_between_bars (commit_current s))
  unfolding mark_between_bars commit_current
  close_bar-IsSettled s p = rw (p.no_container, p.readable) (λ _. last?-append s.history s.current)

  -- Setting the value of a settled series between bars puts it in front of its timeline.
  pub open_bar-timeline :
      (v : Value F) (s : Series F) {t : Series F}
      → IsSettled s
      → s.between_bars ≡ true
      → set_current v s ≡ ok t
      → timeline t ≡ v ∷ timeline s
  unfolding set_current
  open_bar-timeline v s h b e = ground arith

  -- One bar of a series: it takes a value, commits it and is closed, as `begin_bar` and `end_bar`
  -- do it.
  unfoldable pub one_bar : Value F → Series F → Result (Series F)
  one_bar v s = do t ← set_current v s; ok (mark_between_bars (commit_current t))

  unfoldable pub feed : List (Value F) → Series F → Result (Series F)
  feed [] s = ok s
  feed (v ∷ vs) s = do t ← one_bar v s; feed vs t

  abbrev IsClosed : Series F → Type 0
  IsClosed t = (t.between_bars ≡ true) × (last? t.history ≡ some t.current)

  -- What a run of bars has made of `s`.
  record Fed (s t : Series F) (vs : List (Value F)) : Type 0 where
    dtype : t.dtype ≡ s.dtype
    type_info : t.type_info ≡ s.type_info
    reference_mode : t.reference_mode ≡ s.reference_mode
    history : t.history ≡ s.history ++ vs

  one_bar-Fed :
      (v : Value F) (s : Series F) {t : Series F}
      → IsPlain s
      → one_bar v s ≡ ok t
      → Fed s t (v ∷ []) × IsClosed t
  unfolding one_bar set_current mark_between_bars commit_current
  one_bar-Fed v s p e = ground (arith, last?-append s.history v)

  Fed-IsPlain : {s t : Series F} {vs : List (Value F)} → Fed s t vs → IsPlain s → IsPlain t
  Fed-IsPlain f p = record {
    no_container = rw f.dtype p.no_container;
    readable = rw f.type_info p.readable;
    supported = rw (f.type_info, f.reference_mode) p.supported;
  }

  Fed-trans :
      {s t u : Series F} (v : Value F) {vs : List (Value F)}
      → Fed s u (v ∷ [])
      → Fed u t vs
      → Fed s t (v ∷ vs)
  Fed-trans v {vs} f g = record {
    dtype = g.dtype ∙ f.dtype;
    type_info = g.type_info ∙ f.type_info;
    reference_mode = g.reference_mode ∙ f.reference_mode;
    history = rw (g.history, f.history) (append_assoc _ (v ∷ []) vs);
  }

  -- With the first bar taken apart, and the rest left to the recursive call.
  feed_cons-Fed :
      (v : Value F) (vs : List (Value F)) (s t : Series F)
      → ((u : Series F) → IsPlain u → IsClosed u → feed vs u ≡ ok t → Fed u t vs × IsClosed t)
      → IsPlain s
      → feed (v ∷ vs) s ≡ ok t
      → Fed s t (v ∷ vs) × IsClosed t
  unfolding feed
  feed_cons-Fed v vs s t rest p e = elim (Result-cases (one_bar v s)) [
    | inl (r, er) ↦ cc
    | inr (u, eu) ↦
        let (f, c) = one_bar-Fed v s p eu in
        let (g, d) = rest u (Fed-IsPlain f p) c (rw eu at e) in (Fed-trans v f g, d)
  ]

  feed-Fed :
      (vs : List (Value F)) (s t : Series F)
      → IsPlain s
      → IsClosed s
      → feed vs s ≡ ok t
      → Fed s t vs × IsClosed t
  unfolding feed
  feed-Fed [] s t p c e =
      subst (λ x. Fed s x [] × IsClosed x) (ok-injective e)
        (
          record {
            dtype = refl;
            type_info = refl;
            reference_mode = refl;
            history = sym (append-nil _);
          },
          c,
        )
  feed-Fed (v ∷ vs) s t p c e = feed_cons-Fed v vs s t (λ u. feed-Fed vs u t) p e

  lookback-new : (s : Series F) (k : ℕ) → s.history ≡ [] → lookback s k ≡ missing s
  unfolding lookback
  lookback-new s k h = rw h refl

  getitem-new :
      (s : Series F) (k : ℕ)
      → IsPlain s
      → s.history ≡ []
      → s.current ≡ missing s
      → getitem s (pos k) ≡ ok (missing s)
  unfolding getitem
  getitem-new s zero p h c = ap ok c
  getitem-new s (suc k) p h c = rw (p.readable, p.supported, lookback-new s (suc k) h) refl

  -- After any bars of a plain series with no history, whose value is its missing value (na, or
  -- false for a bool series), series[k] is the value of the k-th bar before the last, and the
  -- missing value where there is no such bar.
  pub getitem-feed :
      (vs : List (Value F)) (k : ℕ) (s : Series F) {t : Series F}
      → IsPlain s
      → s.history ≡ []
      → s.current ≡ missing s
      → feed vs s ≡ ok t
      → getitem t (pos k) ≡ ok (or_else (get_elem? (reverse vs) k) (missing s))
  unfolding feed
  getitem-feed [] k s p h c f = rw (sym (ok-injective f)) (getitem-new s k p h c)
  getitem-feed (v ∷ vs) k s {t = t} p h c f =
      let (g, d) = feed_cons-Fed v vs s t (λ u. feed-Fed vs u t) p f in
      getitem-eq-timeline t k (Fed-IsPlain g p) (λ _. d.1) ∙ rw (d.0, g.history, g.dtype, h) refl
