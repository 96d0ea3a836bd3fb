-- ===== src/Request/Merge/Incremental.antt =====
-- A merge that is called again as the chart grows gives what one call over the whole chart gives.
use pinelib.Prelude.{
  List, String, [], ap, drop, length, none, ok, refl, some, suc, ◌++◌, ◌∷◌, ◌≡◌, >>=-eq-ok, Bool,
  false, if◌then◌else◌, nat_beq, not, ok-injective, raise_if, request_error, sym, true,
}
use pinelib.Core.Value.{Value}
use pinelib.Core.Bar.{Bar}
use pinelib.Request.Merge.{
  GapsMode, LookaheadMode, MergeState, Requested, append_merged, cached_lists, empty_cache,
  merge_bar, merge_bars, merge_requested_series, requested_lists, parse_gaps, parse_lookahead,
}

if_same : (b : Bool) (r : Requested) → (if b then r else r) ≡ r
if_same true r = refl
if_same false r = refl

module _ {F : Type 0} where
  length-merge_bars :
      (g : GapsMode) (l : LookaheadMode) (r : Requested) (values : List (Value F))
      (charts : List (Bar F)) (st : MergeState F)
      → length (merge_bars g l r values charts st).0 ≡ length charts
  unfolding merge_bars
  length-merge_bars g l r values [] st = refl
  length-merge_bars g l r values (c ∷ cs) st =
      ap suc (length-merge_bars g l r values cs (merge_bar g l r values c st).1)

  merge_bars-append :
      (g : GapsMode) (l : LookaheadMode) (r : Requested) (values : List (Value F))
      (xs ys : List (Bar F)) (st : MergeState F)
      → let (vs, st') = merge_bars g l r values xs st in
        let (ws, st'') = merge_bars g l r values ys st' in
        merge_bars g l r values (xs ++ ys) st ≡ (vs ++ ws, st'')
  unfolding merge_bars
  merge_bars-append g l r values [] ys st = refl
  merge_bars-append g l r values (x ∷ xs) ys st =
      let (v, st') = merge_bar g l r values x st in
      ap (λ p. (v ∷ p.0, p.1)) (merge_bars-append g l r values xs ys st')

  drop_prefix : (xs ys : List (Bar F)) → drop (length xs) (xs ++ ys) ≡ ys
  drop_prefix [] ys = refl
  drop_prefix (x ∷ xs) ys = drop_prefix xs ys

  cached_lists-fixed :
      (bars : List (Bar F)) → cached_lists bars (some (requested_lists bars)) ≡ requested_lists bars
  unfolding cached_lists
  cached_lists-fixed bars = if_same _ (requested_lists bars)

  cached_lists-none : (bars : List (Bar F)) → cached_lists bars none ≡ requested_lists bars
  unfolding cached_lists
  cached_lists-none bars = refl

  -- Merging a chart, and later the same chart with more bars, leaves the cache that one merge of
  -- the longer chart leaves.
  pub append_merged-append :
      (g : GapsMode) (l : LookaheadMode) (bars : List (Bar F)) (values : List (Value F))
      (xs ys : List (Bar F))
      → append_merged g l bars values (xs ++ ys) (append_merged g l bars values xs empty_cache)
        ≡ append_merged g l bars values (xs ++ ys) empty_cache
  unfolding append_merged
  append_merged-append g l bars values xs ys =
      let r = requested_lists bars in
      let st = empty_cache.state in
      let (vs, st') = merge_bars g l r values xs st in
      rw (
        cached_lists-none bars,
        cached_lists-fixed bars,
        length-merge_bars g l r values xs st,
        drop_prefix xs ys,
        merge_bars-append g l r values xs ys st,
      )

  -- The merge has one value for each chart bar.
  pub length-merge_requested_series :
      (values : List (Value F)) (bars charts : List (Bar F)) (gaps lookahead : String)
      (out : List (Value F))
      → merge_requested_series values bars charts gaps lookahead ≡ ok out
      → length out ≡ length charts
  unfolding merge_requested_series append_merged
  length-merge_requested_series values bars charts gaps lookahead out e =
      let (u, e1, e2) =
        >>=-eq-ok (raise_if (not (nat_beq (length values) (length bars))) request_error) _ e in
      let (g, e3, e4) = >>=-eq-ok (parse_gaps gaps) _ e2 in
      let (l, e5, e6) = >>=-eq-ok (parse_lookahead lookahead) _ e4 in
      rw (sym (ok-injective e6))
        (length-merge_bars g l (cached_lists bars none) values charts empty_cache.state)
