-- ===== src/Ta/Sar.antt =====
-- The parabolic stop (_SarState of pinelib/ta/_impl_states.py).
use pinelib.Prelude.{
  if-elim, ◌∙◌, Bool, Option, false, if◌then◌else◌, none, some, true, ◌≡◌, List, [], ◌∷◌, arith,
  refl,
}
use pinelib.Core.Bar.{py_min}
use pinelib.Ta.{Arithmetic, whole, gt}

pub record SarState (F : Type 0) : Type 0 where
  pub start : F
  pub inc : F
  pub max_val : F
  pub long : Bool
  pub af : F
  pub ep : F
  pub sarv : F
  pub first_bar : Bool

module _ {F : Type 0} (ar : Arithmetic F) where
  unfoldable pub new_sar : F → F → F → SarState F
  new_sar start inc max_val = record {
    start = start;
    inc = inc;
    max_val = max_val;
    long = true;
    af = ar.div (whole ar 2) (whole ar 100);
    ep = whole ar 0;
    sarv = whole ar 0;
    first_bar = true;
  }

  -- `min(self.af + self.inc, self.max_val)`
  abbrev pub accelerated : SarState F → F
  accelerated s = py_min ar.float (ar.float.add s.af s.inc) s.max_val

  unfoldable pub sar_advance_long : F → F → SarState F → SarState F
  sar_advance_long h low s =
      if ar.float.lt low s.sarv
      then record s { long = false; sarv = s.ep; ep = low; af = s.start }
      else if gt ar h s.ep
      then record s { ep = h; af = accelerated s }
      else s

  unfoldable pub sar_advance_short : F → F → SarState F → SarState F
  sar_advance_short h low s =
      if gt ar h s.sarv
      then record s { long = true; sarv = s.ep; ep = h; af = s.start }
      else if ar.float.lt low s.ep
      then record s { ep = low; af = accelerated s }
      else s

  -- A bar whose high and low are not na.
  unfoldable pub sar_bar : F → F → SarState F → SarState F × Option F
  unfolding sar_advance_long sar_advance_short
  sar_bar h low s =
      let fl = ar.float in
      let moved = record s { sarv = fl.add s.sarv (ar.mul s.af (fl.sub s.ep s.sarv)) } in
      let turned = if s.long then sar_advance_long h low moved else sar_advance_short h low moved in
      if s.first_bar
      then (record s { ep = h; sarv = low; first_bar = false; af = s.start }, none)
      else (turned, some turned.sarv)

  unfoldable pub sar_update : Option F → Option F → SarState F → SarState F × Option F
  unfolding sar_bar
  sar_update (some h) (some low) s = sar_bar h low s
  sar_update (some h) none s = (s, none)
  sar_update none low s = (s, none)

  -- A sequence of bars.
  abbrev pub sar_updates : List (Option F × Option F) → SarState F → SarState F
  sar_updates [] s = s
  sar_updates ((h, low) ∷ bars) s = sar_updates bars (sar_update h low s).0

  -- What holds of a state: the settings are as given, and from the first bar on the acceleration
  -- is not above its greatest value.
  pub record IsBounded (start inc max_val : F) (s : SarState F) : Type 0 where
    pub same : (s.start ≡ start) × (s.inc ≡ inc) × (s.max_val ≡ max_val)
    pub bound : s.first_bar ≡ false → ar.float.lt s.max_val s.af ≡ false

module _ {F : Type 0} (ar : Arithmetic F) (irrefl : (x : F) → ar.float.lt x x ≡ false) where
  accelerated-bound : (s : SarState F) → ar.float.lt s.max_val (accelerated ar s) ≡ false
  accelerated-bound s = ground (arith, irrefl s.max_val)

  -- A step from a state that is bounded, after its first bar.
  abbrev KeepsBound : SarState F → SarState F → Type 0
  KeepsBound s t =
      (t.start ≡ s.start)
      × (t.inc ≡ s.inc)
      × (t.max_val ≡ s.max_val)
      × (t.first_bar ≡ s.first_bar)
      × (ar.float.lt t.max_val t.af ≡ false)

  sar_advance_long-bound :
      (h low : F) (s : SarState F)
      → ar.float.lt s.max_val s.start ≡ false
      → ar.float.lt s.max_val s.af ≡ false
      → KeepsBound s (sar_advance_long ar h low s)
  unfolding sar_advance_long
  sar_advance_long-bound h low s p q =
      let keep = accelerated-bound s in
      (ground arith, ground arith, ground arith, ground arith, ground arith)

  sar_advance_short-bound :
      (h low : F) (s : SarState F)
      → ar.float.lt s.max_val s.start ≡ false
      → ar.float.lt s.max_val s.af ≡ false
      → KeepsBound s (sar_advance_short ar h low s)
  unfolding sar_advance_short
  sar_advance_short-bound h low s p q =
      let keep = accelerated-bound s in
      (ground arith, ground arith, ground arith, ground arith, ground arith)

  sar_bar-IsBounded :
      (start inc max_val h low : F) (s : SarState F)
      → ar.float.lt max_val start ≡ false
      → IsBounded ar start inc max_val s
      → IsBounded ar start inc max_val (sar_bar ar h low s).0
  unfolding sar_bar
  sar_bar-IsBounded start inc max_val h low s p b =
      let fl = ar.float in
      let sarv = fl.add s.sarv (ar.mul s.af (fl.sub s.ep s.sarv)) in
      let moved = record s { sarv = sarv } in
      let (e1, e2, e3) = b.same in
      let start_bound : fl.lt s.max_val s.start ≡ false = rw (e1, e3) p in
      let Bounded = IsBounded ar start inc max_val in
      if-elim (λ (x : SarState F × Option F). Bounded x.0) s.first_bar _ _
        (λ first. record { same = (e1, e2, e3); bound = λ x. start_bound })
        (λ later.
          let bound = b.bound later in
          if-elim Bounded s.long _ _
            (λ up.
              let (a1, a2, a3, a4, a5) = sar_advance_long-bound h low moved start_bound bound in
              record { same = (a1 ∙ e1, a2 ∙ e2, a3 ∙ e3); bound = λ x. a5 })
            (λ down.
              let (a1, a2, a3, a4, a5) = sar_advance_short-bound h low moved start_bound bound in
              record { same = (a1 ∙ e1, a2 ∙ e2, a3 ∙ e3); bound = λ x. a5 }))

  sar_update-IsBounded :
      (start inc max_val : F) (h low : Option F) (s : SarState F)
      → ar.float.lt max_val start ≡ false
      → IsBounded ar start inc max_val s
      → IsBounded ar start inc max_val (sar_update ar h low s).0
  unfolding sar_update
  sar_update-IsBounded start inc max_val (some h) (some low) s p b =
      sar_bar-IsBounded start inc max_val h low s p b
  sar_update-IsBounded start inc max_val (some h) none s p b = b
  sar_update-IsBounded start inc max_val none low s p b = b

  sar_updates-IsBounded :
      (start inc max_val : F) (bars : List (Option F × Option F)) (s : SarState F)
      → ar.float.lt max_val start ≡ false
      → IsBounded ar start inc max_val s
      → IsBounded ar start inc max_val (sar_updates ar bars s)
  sar_updates-IsBounded start inc max_val [] s p b = b
  sar_updates-IsBounded start inc max_val ((h, low) ∷ bars) s p b =
      sar_updates-IsBounded start inc max_val bars (sar_update ar h low s).0 p
        (sar_update-IsBounded start inc max_val h low s p b)

  -- When no number is below itself and the greatest acceleration is not below the start, then
  -- after any bars the settings are as given and, from the first bar on, the acceleration is not
  -- above the greatest.
  pub sar_updates-bound :
      (start inc max_val : F) (bars : List (Option F × Option F))
      → ar.float.lt max_val start ≡ false
      → IsBounded ar start inc max_val (sar_updates ar bars (new_sar ar start inc max_val))
  unfolding new_sar
  sar_updates-bound start inc max_val bars p =
      sar_updates-IsBounded start inc max_val bars (new_sar ar start inc max_val) p
        (record { same = (refl, refl, refl); bound = λ h. cc })
