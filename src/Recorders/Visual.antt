-- ===== src/Recorders/Visual.antt =====
-- Visual objects (pinelib/visual.py): the object table and the log of its events. A is the type of
-- the attributes' values.
pub mod Log
pub mod Calls
use pinelib.Prelude.{
  ℕ, Bool, List, Result, String, Eq, [], nat_beq, nat_beq_iff, nat_eq, string_eq, pair_eq, ◌≡◌, ◌↔◌,
  refl, sym, ap, ◌∙◌, true, none, some, ok, or_raise, raise_if, runtime_error, leb, suc, zero,
  if◌then◌else◌, ◌==◌, ◌∷◌, ◌++◌, ◌+◌, ◌>>=◌, ◌>>◌,
}
use pinelib.Prelude.Dict
use pinelib.Prelude.Dict.{Dict, get, put}

pub data VisualKind : Type 0 where
  label line box table : VisualKind

abbrev pub kind_number : VisualKind → ℕ
kind_number label = 0
kind_number line = 1
kind_number box = 2
kind_number table = 3

abbrev kind_of : ℕ → VisualKind
kind_of zero = label
kind_of (suc zero) = line
kind_of (suc (suc zero)) = box
kind_of n = table

kind_of-kind_number : (a : VisualKind) → kind_of (kind_number a) ≡ a
kind_of-kind_number label = refl
kind_of-kind_number line = refl
kind_of-kind_number box = refl
kind_of-kind_number table = refl

abbrev pub kind_beq : VisualKind → VisualKind → Bool
kind_beq a b = nat_beq (kind_number a) (kind_number b)

pub kind_beq_iff : (a b : VisualKind) → (kind_beq a b ≡ true) ↔ (a ≡ b)
kind_beq_iff a b = (
  λ h.
      sym (kind_of-kind_number a)
      ∙ ap kind_of ((nat_beq_iff (kind_number a) (kind_number b)).0 h)
      ∙ kind_of-kind_number b,
  λ h. (nat_beq_iff (kind_number a) (kind_number b)).1 (ap kind_number h),
)

instance abbrev pub kind_eq : Eq VisualKind
kind_eq = record { beq = kind_beq; beq_iff = kind_beq_iff }

-- PineObjectId: a kind and a number.
abbrev pub PineObjectId : Type 0
PineObjectId = VisualKind × ℕ

pub data Action : Type 0 where
  new set delete : Action

module _ (A : Type 0) where
  abbrev pub Attrs : Type 0
  Attrs = Dict String A

  pub record VisualEvent : Type 0 where
    pub action : Action
    pub object_id : PineObjectId
    pub attrs : Attrs

  pub record VisualRecorder : Type 0 where
    pub max_counts : Dict VisualKind ℕ
    pub next_id : ℕ
    pub objects : Dict PineObjectId Attrs
    pub events : List VisualEvent

module _ {A : Type 0} where
  -- `dict.update`
  abbrev pub update : Attrs A → Attrs A → Attrs A
  update [] d = d
  update ((k, v) ∷ more) d = update more (put k v d)

  -- How many objects of a kind there are.
  abbrev pub active : VisualKind → Dict PineObjectId (Attrs A) → ℕ
  active kind [] = 0
  active kind ((id, a) ∷ objects) =
      let rest = active kind objects in if id.0 == kind then suc rest else rest

  unfoldable pub check_limit : VisualKind → VisualRecorder A → Result (Unit {0})
  check_limit kind r = elim (get kind r.max_counts) [
    | none ↦ ok tt
    | some limit ↦ raise_if (leb limit (active kind r.objects)) runtime_error
  ]

  unfoldable pub new_object :
      VisualKind → Attrs A → VisualRecorder A → Result (PineObjectId × VisualRecorder A)
  unfolding check_limit
  new_object kind attrs r = do
    check_limit kind r
    let id : PineObjectId = (kind, r.next_id)
    ok (
      id,
      record r {
        next_id = r.next_id + 1;
        objects = put id attrs r.objects;
        events = r.events ++ record { action = new; object_id = id; attrs = attrs } ∷ [];
      },
    )

  unfoldable pub set_object : PineObjectId → Attrs A → VisualRecorder A → Result (VisualRecorder A)
  set_object id attrs r = do
    old ← or_raise (get id r.objects) runtime_error
    ok (record r {
      objects = put id (update attrs old) r.objects;
      events = r.events ++ record { action = set; object_id = id; attrs = attrs } ∷ [];
    })

  unfoldable pub delete_object : PineObjectId → VisualRecorder A → VisualRecorder A
  delete_object id r = elim (get id r.objects) [
    | none ↦ r
    | some _ ↦ record r {
      objects = Dict.delete id r.objects;
      events = r.events ++ record { action = delete; object_id = id; attrs = [] } ∷ [];
    }
  ]

  unfoldable pub label_new : Attrs A → VisualRecorder A → Result (PineObjectId × VisualRecorder A)
  unfolding new_object
  label_new = new_object label

  unfoldable pub line_new : Attrs A → VisualRecorder A → Result (PineObjectId × VisualRecorder A)
  unfolding new_object
  line_new = new_object line

  unfoldable pub box_new : Attrs A → VisualRecorder A → Result (PineObjectId × VisualRecorder A)
  unfolding new_object
  box_new = new_object box

  unfoldable pub table_new : Attrs A → VisualRecorder A → Result (PineObjectId × VisualRecorder A)
  unfolding new_object
  table_new = new_object table
