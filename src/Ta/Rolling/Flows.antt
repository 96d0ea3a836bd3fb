-- ===== src/Ta/Rolling/Flows.antt =====
-- The sums of rising and falling flows against a delay line (_SourceMfiState of
-- pinelib/ta/_impl_states.py), rounded as the code rounds them.
use pinelib.Prelude.{
  append_assoc, Bool-cases, inl, inr, ℕ, List, Option, [], ap, arith, drop, false, if◌then◌else◌,
  last?, length, length-append, length-map, ltb, map, map-append, none, refl, some, suc, sym, true,
  zero, ◌+◌, ◌-◌, ◌++◌, ◌∙◌, ◌∷◌, ◌≡◌,
}
use pinelib.Ta.{Arithmetic, gt, pushed_all}
use pinelib.Ta.Window.{last_of, pushed-full, pushed-short, pushed_all-new}
use pinelib.Ta.Rolling.{
  SourceMfiState, mfi_moved, new_source_mfi, source_mfi_add, source_mfi_evict, source_mfi_update,
}
use pinelib.Ta.Rolling.Delay.{delay, rolled, rolling}
use pinelib.Ta.Rolling.Sums.{both_present, firsts, seconds, zeros}

module _ {A : Type 0} where
  -- Each value of a list with the next one.
  abbrev pub neighbours : List A → List (A × A)
  neighbours [] = []
  neighbours (p ∷ []) = []
  neighbours (p ∷ q ∷ ps) = (p, q) ∷ neighbours (q ∷ ps)

  abbrev newest : A → List A → A
  newest p [] = p
  newest p (q ∷ ps) = newest q ps

  newest-snoc : (p : A) (ps : List A) (q : A) → newest p (ps ++ q ∷ []) ≡ q
  newest-snoc p [] q = refl
  newest-snoc p (r ∷ ps) q = newest-snoc r ps q

module _ {F : Type 0} (ar : Arithmetic F) where
  -- The sums of the rises and of the falls after the flow of a move between two sources, which is
  -- the second one's.
  abbrev pub moved : (F → F → F) → F × F → (F × F) × (F × F) → F × F
  moved op t (p, q) =
      if gt ar (q.0) (p.0)
      then (op (t.0) (q.1), t.1)
      else if ar.float.lt (q.0) (p.0)
      then (t.0, op (t.1) (q.1))
      else t

  abbrev pub add_move : ℕ → F × F → (F × F) × (F × F) → F × F
  add_move i t m = moved ar.float.add t m

  abbrev pub swap_move : F × F → (F × F) × (F × F) → (F × F) × (F × F) → F × F
  swap_move t m old = moved ar.float.sub (moved ar.float.add t m) old

  abbrev pub with_flow : F × F → F × F
  with_flow p = (p.0, ar.mul (p.0) (p.1))

  -- The state of a window of sources and flows with its two sums.
  abbrev pub source_mfi_of : ℕ → List (F × F) → F × F → SourceMfiState F
  source_mfi_of n ps t = record {
    limit = n;
    sources = firsts ps;
    flows = seconds (drop 1 ps);
    pos_sum = t.0;
    neg_sum = t.1;
  }

  abbrev pub source_mfi_updates : List (Option F × Option F) → SourceMfiState F → SourceMfiState F
  source_mfi_updates [] s = s
  source_mfi_updates ((a, b) ∷ xs) s = source_mfi_updates xs (source_mfi_update ar a b s).0

  -- An update with a source and its flow.
  abbrev flow_step : F × F → SourceMfiState F → SourceMfiState F
  flow_step q s =
      let grown = source_mfi_add ar (q.0) (q.1) s in
      if ltb (suc s.limit) (length grown.sources) then source_mfi_evict ar grown else grown

  abbrev flow_steps : List (F × F) → SourceMfiState F → SourceMfiState F
  flow_steps [] s = s
  flow_steps (q ∷ qs) s = flow_steps qs (flow_step q s)

  last?-newest : (p : F × F) (ps : List (F × F)) → last? (firsts (p ∷ ps)) ≡ some (newest p ps).0
  last?-newest p [] = refl
  last?-newest p (r ∷ ps) = last?-newest r ps

  mfi_moved-moved :
      (op : F → F → F) (p q : F × F) (n : ℕ) (ps : List (F × F)) (t : F × F)
      → mfi_moved ar op (p.0) (q.0) (q.1) (source_mfi_of n ps t)
        ≡ source_mfi_of n ps (moved op t (p, q))
  unfolding mfi_moved
  mfi_moved-moved op p q n ps t = elim (Bool-cases (gt ar (q.0) (p.0))) [
    | inl up ↦ rw up refl
    | inr same ↦ elim (Bool-cases (ar.float.lt (q.0) (p.0))) [
      | inl down ↦ rw (same, down) refl
      | inr level ↦ rw (same, level) refl
    ]
  ]

  source_mfi_add-moved :
      (n : ℕ) (p : F × F) (ps : List (F × F)) (q : F × F) (t : F × F)
      → source_mfi_add ar (q.0) (q.1) (source_mfi_of n (p ∷ ps) t)
        ≡ source_mfi_of n (p ∷ (ps ++ q ∷ [])) (moved ar.float.add t (newest p ps, q))
  unfolding source_mfi_add
  source_mfi_add-moved n p ps q t =
      rw
        (
          last?-newest p ps,
          sym (map-append (λ (r : F × F). r.0) ps (q ∷ [])),
          sym (map-append (λ (r : F × F). r.1) ps (q ∷ [])),
        )
        (mfi_moved-moved ar.float.add (newest p ps) q n (p ∷ (ps ++ q ∷ [])) t)

  source_mfi_evict-moved :
      (n : ℕ) (p q : F × F) (ps : List (F × F)) (t : F × F)
      → source_mfi_evict ar (source_mfi_of n (p ∷ q ∷ ps) t)
        ≡ source_mfi_of n (q ∷ ps) (moved ar.float.sub t (p, q))
  unfolding source_mfi_evict
  source_mfi_evict-moved n p q ps t = mfi_moved-moved ar.float.sub p q n (q ∷ ps) t

  length-firsts : (ps : List (F × F)) (q : F × F) → length (firsts (ps ++ q ∷ [])) ≡ suc (length ps)
  length-firsts ps q =
      omega (arith, length-map (ps ++ q ∷ []) (λ (p : F × F). p.0), length-append ps (q ∷ []))

  flow_step-room :
      (n : ℕ) (p : F × F) (ps : List (F × F)) (q : F × F) (t : F × F) (k : ℕ)
      → length ps + suc k ≡ n
      → flow_step q (source_mfi_of n (p ∷ ps) t)
        ≡ source_mfi_of n (p ∷ (ps ++ q ∷ [])) (moved ar.float.add t (newest p ps, q))
  flow_step-room n p ps q t k h =
      let within : ltb (suc n) (suc (length (firsts (ps ++ q ∷ [])))) ≡ false =
        ground (arith, length-firsts ps q) in
      rw (source_mfi_add-moved n p ps q t, within) refl

  flow_step-full :
      (n : ℕ) (p r : F × F) (ps rs : List (F × F)) (q : F × F) (t : F × F)
      → length ps ≡ n
      → ps ++ q ∷ [] ≡ r ∷ rs
      → flow_step q (source_mfi_of n (p ∷ ps) t)
        ≡ source_mfi_of n (r ∷ rs) (swap_move t (newest p ps, q) (p, r))
  flow_step-full n p r ps rs q t h e =
      let over : ltb (suc n) (suc (length (firsts (ps ++ q ∷ [])))) ≡ true =
        ground (arith, length-firsts ps q) in
      rw (source_mfi_add-moved n p ps q t, over)
        (rw e (source_mfi_evict-moved n p r rs (moved ar.float.add t (newest p ps, q))))

  roll_same :
      (t : F × F) (xs : List (F × F)) {i j : ℕ} {p q : F × F}
      {ls ms : List (Option ((F × F) × (F × F)))}
      → i ≡ j
      → p ≡ q
      → ls ≡ ms
      → rolled add_move swap_move i t (neighbours (p ∷ xs)) ls
        ≡ rolled add_move swap_move j t (neighbours (q ∷ xs)) ms
  roll_same t xs {i = i} {j = j} {p = p} {q = q} {ls = ls} {ms = ms} a b c =
      ap (λ k. rolled add_move swap_move k t (neighbours (p ∷ xs)) ls) a
      ∙ ap (λ r. rolled add_move swap_move j t (neighbours (r ∷ xs)) ls) b
      ∙ ap (λ l. rolled add_move swap_move j t (neighbours (q ∷ xs)) l) c

  -- A window of a first value and others, which lacks k moves, and the values to come.
  flow_steps-rolled :
      (n k : ℕ) (p : F × F) (vs : List (F × F)) (t : F × F) (xs : List (F × F))
      → length vs + k ≡ n
      → flow_steps xs (source_mfi_of n (p ∷ vs) t)
        ≡ source_mfi_of n (pushed_all (suc n) (p ∷ vs) xs) (
            rolled add_move swap_move
              (length vs)
              t
              (neighbours (newest p vs ∷ xs))
              (delay k (neighbours (p ∷ (vs ++ xs)))))
  flow_steps-rolled n k p vs t [] h = refl
  flow_steps-rolled n (suc k) p vs t (x ∷ xs) h =
      let more : length (vs ++ x ∷ []) ≡ suc (length vs) =
        omega (arith, length-append vs (x ∷ [])) in
      let rest =
        flow_steps-rolled n k p (vs ++ x ∷ []) (moved ar.float.add t (newest p vs, x)) xs
          (omega arith) in
      let same =
        roll_same (moved ar.float.add t (newest p vs, x)) xs more (newest-snoc p vs x)
          (ap (λ l. delay k (neighbours (p ∷ l))) (append_assoc vs (x ∷ []) xs)) in
      ap (flow_steps xs) (flow_step-room n p vs x t k h)
      ∙ rw (pushed-short (suc n) (p ∷ vs) x (omega arith))
          (rest ∙ ap (source_mfi_of n (pushed_all (suc n) (p ∷ (vs ++ x ∷ [])) xs)) same)
  flow_steps-rolled n zero p [] t (x ∷ xs) h =
      let rest = flow_steps-rolled n zero x [] (swap_move t (p, x) (p, x)) xs h in
      ap (flow_steps xs) (flow_step-full n p x [] [] x t (omega arith) refl)
      ∙ rw (pushed-full (suc n) p [] x (omega arith)) rest
  flow_steps-rolled n zero p (w ∷ ws) t (x ∷ xs) h =
      let more : length (ws ++ x ∷ []) ≡ suc (length ws) =
        omega (arith, length-append ws (x ∷ [])) in
      let rest =
        flow_steps-rolled n zero w (ws ++ x ∷ []) (swap_move t (newest w ws, x) (p, w)) xs
          (omega arith) in
      let same =
        roll_same (swap_move t (newest w ws, x) (p, w)) xs more (newest-snoc w ws x)
          (ap (λ l. delay zero (neighbours (w ∷ l))) (append_assoc ws (x ∷ []) xs)) in
      ap (flow_steps xs) (flow_step-full n p w (w ∷ ws) (ws ++ x ∷ []) x t (omega arith) refl)
      ∙ rw (pushed-full (suc n) p (w ∷ ws) x (omega arith))
          (rest ∙ ap (source_mfi_of n (pushed_all (suc n) (w ∷ (ws ++ x ∷ [])) xs)) same)

  flow_steps-new :
      (n : ℕ) (ps : List (F × F))
      → flow_steps ps (new_source_mfi ar n)
        ≡ source_mfi_of n
            (last_of (suc n) ps)
            (rolling add_move swap_move n (zeros ar) (neighbours ps))
  unfolding source_mfi_add
  flow_steps-new n [] = let none_left : 0 - suc n ≡ 0 = omega arith in rw none_left refl
  flow_steps-new n (p ∷ ps) =
      let room : ltb (suc n) 1 ≡ false = ground arith in
      let kept = pushed-short (suc n) [] p (omega arith) in
      rw room (
        flow_steps-rolled n n p [] (zeros ar) ps (omega arith)
        ∙ ap
            (λ w. source_mfi_of n w (rolling add_move swap_move n (zeros ar) (neighbours (p ∷ ps))))
            (rw kept at (pushed_all-new (suc n) (p ∷ ps))))

  source_mfi_updates-flow_steps :
      (xs : List (Option F × Option F)) (s : SourceMfiState F)
      → source_mfi_updates xs s ≡ flow_steps (map with_flow (both_present xs)) s
  unfolding source_mfi_update
  source_mfi_updates-flow_steps [] s = refl
  source_mfi_updates-flow_steps ((some a, some b) ∷ xs) s =
      source_mfi_updates-flow_steps xs (flow_step (a, ar.mul a b) s)
  source_mfi_updates-flow_steps ((some a, none) ∷ xs) s = source_mfi_updates-flow_steps xs s
  source_mfi_updates-flow_steps ((none, b) ∷ xs) s = source_mfi_updates-flow_steps xs s

  -- After any updates the money flow state holds the last sources of the length and one more, with
  -- their flows, and its sums of rising and of falling flows are those of a delay line of moves
  -- between neighbouring sources: each move's flow is added to the sum of its direction, and the
  -- flow of the move that came the length before is subtracted from the sum of its own direction.
  pub source_mfi_updates-window :
      (n : ℕ) (xs : List (Option F × Option F))
      → let ps = map with_flow (both_present xs) in
        source_mfi_updates xs (new_source_mfi ar n)
        ≡ source_mfi_of n
            (last_of (suc n) ps)
            (rolling add_move swap_move n (zeros ar) (neighbours ps))
  source_mfi_updates-window n xs =
      source_mfi_updates-flow_steps xs (new_source_mfi ar n)
      ∙ flow_steps-new n (map with_flow (both_present xs))
