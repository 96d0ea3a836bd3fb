-- ===== src/Recorders/Visual/Calls.antt =====
-- Sequences of calls on a VisualRecorder (pinelib/visual.py).
use pinelib.Prelude.{◌≡◌, ok}
use pinelib.Recorders.Visual.{
  Attrs, PineObjectId, VisualKind, VisualRecorder, delete_object, new_object, set_object,
}
use pinelib.Recorders.Visual.Log.{
  IsWellFormed, delete_object-IsWellFormed, new_object-IsWellFormed, set_object-IsWellFormed,
}

module _ {A : Type 0} where
  -- One call that a recorder takes without an exception.
  pub data Call : VisualRecorder A → VisualRecorder A → Type 0 where
    made :
        (kind : VisualKind) (attrs : Attrs A) (r w : VisualRecorder A) (id : PineObjectId)
        → new_object kind attrs r ≡ ok (id, w)
        → Call r w
    changed :
        (id : PineObjectId) (attrs : Attrs A) (r w : VisualRecorder A)
        → set_object id attrs r ≡ ok w
        → Call r w
    deleted : (id : PineObjectId) (r : VisualRecorder A) → Call r (delete_object id r)

  pub data Calls : VisualRecorder A → VisualRecorder A → Type 0 where
    stay : (r : VisualRecorder A) → Calls r r
    more : (r m w : VisualRecorder A) → Call r m → Calls m w → Calls r w

  Call-IsWellFormed : (r w : VisualRecorder A) → Call r w → IsWellFormed r → IsWellFormed w
  Call-IsWellFormed _ _ (made kind attrs r w id h) v =
      (new_object-IsWellFormed kind attrs r w id v h).0
  Call-IsWellFormed _ _ (changed id attrs r w h) v = set_object-IsWellFormed id attrs r w v h
  Call-IsWellFormed _ _ (deleted id r) v = delete_object-IsWellFormed id r v

  -- Any calls keep a recorder well formed: its table is the one that its log describes, its ids
  -- are below the next one, and no kind is over its limit.
  pub Calls-IsWellFormed : (r w : VisualRecorder A) → Calls r w → IsWellFormed r → IsWellFormed w
  Calls-IsWellFormed _ _ (stay r) v = v
  Calls-IsWellFormed _ _ (more r m w c rest) v =
      Calls-IsWellFormed m w rest (Call-IsWellFormed r m c v)
