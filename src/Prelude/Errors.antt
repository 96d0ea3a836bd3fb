-- ===== src/Prelude/Errors.antt =====
-- The exceptions of errors.py (with their codes, where a code tells two cases apart) and
-- the builtin ones that the code raises. The message texts are not modelled.
use mathlib.Core.Path.{◌≡◌, refl, ap}
use mathlib.Core.Logic.{◌⊎◌, inl, inr}
use mathlib.Core.Bool.{Bool, true, false}
use mathlib.Core.Option.{Option, none, some}
use pinelib.Prelude.Tests.{if◌then◌else◌}

pub data Error : Type 0 where
  runtime_error type_error na_error history_error request_error strategy_error : Error
  history_not_allowed reference_history_unsupported unsupported_nested_security : Error
  unsupported_feature_error unsupported_strategy_setting : Error
  ledger_unavailable_error golden_mismatch_error data_format_error session_error : Error
  value_error index_error key_error builtin_type_error builtin_runtime_error : Error
  overflow_error : Error

-- What a call does: it raises, or it returns a value.
pub data Result {κ} (T : Type κ) : Type κ where
  raise : (thrown : Error) → Result T
  ok : (value : T) → Result T

-- The rest of a function runs only if the call returned.
infixl 5 ◌>>=◌ ◌>>◌
abbrev pub ◌>>=◌ {κ μ} :
    {T : Type κ} {U : Type μ} (call : Result T) (rest : T → Result U) → Result U
raise thrown >>= rest = raise thrown
ok value >>= rest = rest value

abbrev pub ◌>>◌ {κ} : {U : Type κ} (call : Result (Unit {0})) (rest : Result U) → Result U
call >> rest = call >>= (λ done. rest)

-- `if test: raise e`
abbrev pub raise_if : Bool → Error → Result (Unit {0})
raise_if true e = raise e
raise_if false e = ok tt

abbrev pub or_raise {ℓ} : {A : Type ℓ} → Option A → Error → Result A
or_raise none e = raise e
or_raise (some a) _ = ok a

abbrev pub ok_value {ℓ} : {A : Type ℓ} → A → Result A → A
ok_value d (ok a) = a
ok_value d (raise e) = d

pub ok-injective {ℓ} : {A : Type ℓ} {a b : A} → ok a ≡ ok b → a ≡ b
ok-injective {a = a} h = ap (ok_value a) h

-- A procedure that may raise leaves the state that it had reached. The next one runs only if it
-- returned.
abbrev pub and_then {ℓ} :
    {A : Type ℓ} → A × Result (Unit {0}) → (A → A × Result (Unit {0})) → A × Result (Unit {0})
and_then (state, raise e) next = (state, raise e)
and_then (state, ok done) next = next state

-- The state of a procedure that returned, where an exception is passed on.
abbrev pub returned {ℓ} : {A : Type ℓ} → A × Result (Unit {0}) → Result A
returned (state, raise e) = raise e
returned (state, ok done) = ok state

pub returned-eq-ok {ℓ} :
    {A : Type ℓ} (m : A × Result (Unit {0})) {a : A} → returned m ≡ ok a → m ≡ (a, ok tt)
returned-eq-ok (state, raise e) h = cc
returned-eq-ok (state, ok done) h = ap (λ b. (b, ok tt)) (ok-injective h)

pub and_then-eq-ok {ℓ} :
    {A : Type ℓ} (m : A × Result (Unit {0})) (next : A → A × Result (Unit {0})) {a : A}
    → and_then m next ≡ (a, ok tt)
    → (mid : A) × (m ≡ (mid, ok tt)) × (next mid ≡ (a, ok tt))
and_then-eq-ok (state, raise e) next h = absurd (let thrown = ap (λ p. p.1) h in cc)
and_then-eq-ok (state, ok done) next h = (state, refl, h)

pub Result-cases {ℓ} :
    {A : Type ℓ} (r : Result A) → ((e : Error) × (r ≡ raise e)) ⊎ ((a : A) × (r ≡ ok a))
Result-cases (ok a) = inr (a, refl)
Result-cases (raise e) = inl (e, refl)

-- A sequence of calls that returned, taken apart.
pub >>=-eq-ok {κ μ} :
    {T : Type κ} {U : Type μ} (call : Result T) (rest : T → Result U) {out : U}
    → (call >>= rest) ≡ ok out
    → (mid : T) × (call ≡ ok mid) × (rest mid ≡ ok out)
>>=-eq-ok (raise thrown) rest returned = cc
>>=-eq-ok (ok mid) rest returned = (mid, refl, returned)

-- A guarded result that succeeded.
pub if-eq-ok {ℓ} :
    {A : Type ℓ} (b : Bool) (m : Result A) (e : Error) {a : A}
    → (if b then m else raise e) ≡ ok a
    → (b ≡ true) × (m ≡ ok a)
if-eq-ok true m e h = (refl, h)
if-eq-ok false m e h = cc

pub raise_if-eq-ok : (b : Bool) (e : Error) {r : Unit {0}} → raise_if b e ≡ ok r → b ≡ false
raise_if-eq-ok true e h = cc
raise_if-eq-ok false e h = refl

pub or_raise-eq-ok {ℓ} :
    {A : Type ℓ} (o : Option A) (e : Error) {a : A} → or_raise o e ≡ ok a → o ≡ some a
or_raise-eq-ok none e h = cc
or_raise-eq-ok (some a) e h = ap some (ok-injective h)

-- A conditional that returned took one of its branches.
pub if-cases {ℓ} :
    {A : Type ℓ} (b : Bool) (m n : Result A) {a : A}
    → (if b then m else n) ≡ ok a
    → (m ≡ ok a) ⊎ (n ≡ ok a)
if-cases true m n h = inl h
if-cases false m n h = inr h

-- A value that is there is passed on.
pub or_raise-some {κ μ} :
    {T : Type κ} {U : Type μ} (o : Option T) (e : Error) (rest : T → Result U) {a : T}
    → o ≡ some a
    → (or_raise o e >>= rest) ≡ rest a
or_raise-some none e rest h = cc
or_raise-some (some b) e rest h = ap (λ x. or_raise x e >>= rest) h
