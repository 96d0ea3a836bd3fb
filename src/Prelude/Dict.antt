-- ===== src/Prelude/Dict.antt =====
-- Python's dict: an association list in insertion order, where an update keeps the key's place.
use mathlib.Core.Path.{◌≡◌, refl}
use mathlib.Core.Logic.{◌≢◌, ◌⊎◌}
use mathlib.Core.Bool.{Bool}
use mathlib.Core.Option.{Option, none, some}
use mathlib.Core.List.{List, [], ◌∷◌}
use native.Mathlib.Omega.{arith}
use pinelib.Prelude.Tests.{if◌then◌else◌, is_some}
use pinelib.Prelude.Equality.{Eq, ◌==◌, beq_refl, int_eq, nat_eq, option_eq, pair_eq, string_eq}

abbrev pub Dict {ℓ κ} : Type ℓ → Type κ → Type (ℓ ⊔ κ)
Dict K V = List (K × V)

module _ {ℓ κ} {K : Type ℓ} {V : Type κ} ⦃e : Eq K⦄ where
  -- `d.get(k)`
  abbrev pub get : K → Dict K V → Option V
  get k [] = none
  get k ((j, v) ∷ d) = if j == k then some v else get k d

  -- `k in d`
  abbrev pub contains : K → Dict K V → Bool
  contains k d = is_some (get k d)

  -- `d[k] = v`
  abbrev pub put : K → V → Dict K V → Dict K V
  put k v [] = (k, v) ∷ []
  put k v ((j, w) ∷ d) = if j == k then (j, v) ∷ d else (j, w) ∷ put k v d

  -- `del d[k]`, `d.pop(k)`; a missing key changes nothing.
  abbrev pub delete : K → Dict K V → Dict K V
  delete k [] = []
  delete k ((j, w) ∷ d) = if j == k then d else (j, w) ∷ delete k d

  pub get-put :
      (k j : K) (v : V) (d : Dict K V) → get j (put k v d) ≡ (if k == j then some v else get j d)
  get-put k j v [] = refl
  get-put k j v ((i, w) ∷ d) =
      ground (arith, e.beq_iff k j, e.beq_iff i k, e.beq_iff i j, get-put k j v d)

  pub get-put_self : (k : K) (v : V) (d : Dict K V) → get k (put k v d) ≡ some v
  get-put_self k v d = ground (arith, get-put k k v d, beq_refl k)

  -- Storing under a new key keeps what is there, and adds nothing else.
  pub get-put_keeps :
      (k j : K) (v w : V) (d : Dict K V)
      → get k d ≡ none
      → get j d ≡ some w
      → get j (put k v d) ≡ some w
  get-put_keeps k j v w d h g = ground (arith, get-put k j v d, e.beq_iff k j)

  pub get-put_cases :
      (k j : K) (v w : V) (d : Dict K V)
      → get j (put k v d) ≡ some w
      → ((k ≡ j) × (v ≡ w)) ⊎ (get j d ≡ some w)
  get-put_cases k j v w d h = ground (arith, get-put k j v d, e.beq_iff k j)

  pub get-delete_ne : (k j : K) (d : Dict K V) → k ≢ j → get j (delete k d) ≡ get j d
  get-delete_ne k j [] h = refl
  get-delete_ne k j ((i, w) ∷ d) h =
      ground (arith, e.beq_iff i k, e.beq_iff i j, get-delete_ne k j d h)

  -- No key is listed twice.
  abbrev pub IsUnique : Dict K V → Type κ
  IsUnique [] = Unit
  IsUnique ((k, v) ∷ d) = (get k d ≡ none) × IsUnique d

  pub put-IsUnique : (k : K) (v : V) (d : Dict K V) → IsUnique d → IsUnique (put k v d)
  put-IsUnique k v [] h = (refl, tt)
  put-IsUnique k v ((i, w) ∷ d) h =
      ground (arith, e.beq_iff i k, e.beq_iff k i, put-IsUnique k v d h.1, get-put k i v d)

  pub delete-IsUnique : (k : K) (d : Dict K V) → IsUnique d → IsUnique (delete k d)
  delete-IsUnique k [] h = tt
  delete-IsUnique k ((i, w) ∷ d) h =
      ground (arith, e.beq_iff i k, e.beq_iff k i, delete-IsUnique k d h.1, get-delete_ne k i d)

  pub get-delete_self : (k : K) (d : Dict K V) → IsUnique d → get k (delete k d) ≡ none
  get-delete_self k [] h = refl
  get-delete_self k ((i, w) ∷ d) h = ground (arith, e.beq_iff i k, get-delete_self k d h.1)
