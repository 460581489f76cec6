-- ===== src/Exec.antt =====
-- Python code that may raise and that changes the world outside: the SQL backend, the workspace.
-- An action returns the state beside its result, so that what was done before a raise stays done.
use databricks_ucx.Prelude.{Bool, true, false, ◌≡◌, refl, arith, ◌⊎◌, inl, inr}

-- The exception classes that the modelled `except` clauses and `raise` statements name. Every class
-- of the SDK below `DatabricksError` that no clause names is `databricks_error`.
pub data Error : Type 0 where
  value_error runtime_error assertion_error key_error attribute_error stop_iteration : Error
  not_found resource_does_not_exist bad_request resource_conflict databricks_error many_error
        permission_denied invalid_parameter_value :
      Error
  other_error : Error

-- except NotFound: the SDK's `ResourceDoesNotExist` is a subclass.
abbrev pub is_not_found : Error → Bool
is_not_found not_found = true
is_not_found resource_does_not_exist = true
is_not_found _ = false

-- except BadRequest: the SDK's `InvalidParameterValue` is a subclass.
abbrev pub is_bad_request : Error → Bool
is_bad_request bad_request = true
is_bad_request invalid_parameter_value = true
is_bad_request _ = false

-- except DatabricksError
abbrev pub is_databricks_error : Error → Bool
is_databricks_error not_found = true
is_databricks_error resource_does_not_exist = true
is_databricks_error bad_request = true
is_databricks_error resource_conflict = true
is_databricks_error databricks_error = true
is_databricks_error permission_denied = true
is_databricks_error invalid_parameter_value = true
is_databricks_error _ = false

pub data Result {ℓ} (A : Type ℓ) : Type ℓ where
  ok : A → Result A
  err : Error → Result A

abbrev pub is_ok {ℓ} : {A : Type ℓ} → Result A → Bool
is_ok (ok a) = true
is_ok (err e) = false

pub Result-cases {ℓ} :
    {A : Type ℓ} (r : Result A) → ((a : A) × (r ≡ ok a)) ⊎ ((e : Error) × (r ≡ err e))
Result-cases (ok a) = inl (a, refl)
Result-cases (err e) = inr (e, refl)

abbrev pub and_then {ℓ κ} : {A : Type ℓ} {B : Type κ} → Result A → (A → Result B) → Result B
and_then (ok a) f = f a
and_then (err e) f = err e

pub and_then-eq-ok {ℓ κ} :
    {A : Type ℓ} {B : Type κ} (r : Result A) (f : A → Result B) {b : B}
    → and_then r f ≡ ok b
    → (a : A) × (r ≡ ok a) × (f a ≡ ok b)
and_then-eq-ok (ok a) f h = (a, refl, h)
and_then-eq-ok (err e) f h = absurd (ground arith)

abbrev pub Exec {ℓ κ} : Type ℓ → Type κ → Type (ℓ ⊔ κ)
Exec W A = W → Result A × W

module _ {ℓ κ} {W : Type ℓ} {A : Type κ} where
  abbrev pub pure : A → Exec W A
  pure a w = (ok a, w)

  abbrev pub raise : Error → Exec W A
  raise e w = (err e, w)

  -- try: m; except E: handler, where `caught` says which errors the clause names
  abbrev pub handled : (Error → Bool) → Exec W A → Result A × W → Result A × W
  handled caught handler (ok a, w) = (ok a, w)
  handled caught handler (err e, w) = elim (caught e) [ true ↦ handler w | false ↦ (err e, w) ]

  abbrev pub try_except : (Error → Bool) → Exec W A → Exec W A → Exec W A
  try_except caught handler m w = handled caught handler (m w)

module _ {ℓ κ μ} {W : Type ℓ} {A : Type κ} {B : Type μ} where
  abbrev pub continue : (A → Exec W B) → Result A × W → Result B × W
  continue f (ok a, w) = f a w
  continue f (err e, w) = (err e, w)

  infixl 10 ◌>>=◌ ◌>>◌
  abbrev pub ◌>>=◌ : Exec W A → (A → Exec W B) → Exec W B
  ◌>>=◌ m f w = continue f (m w)

  abbrev pub ◌>>◌ : Exec W A → Exec W B → Exec W B
  ◌>>◌ m n w = continue (λ _. n) (m w)

-- A sequence that returns: its first action returned, and the rest returned from there.
pub continue-eq-ok {ℓ κ μ} :
    {W : Type ℓ} {A : Type κ} {B : Type μ} (f : A → Exec W B) (p : Result A × W) {b : B} {w : W}
    → continue f p ≡ (ok b, w)
    → (a : A) × (p.0 ≡ ok a) × (f a p.1 ≡ (ok b, w))
continue-eq-ok f (ok a, v) h = (a, refl, h)
continue-eq-ok f (err e, v) h = absurd (ground arith)

-- What `m` leaves of a property of the world, whether it returns or raises.
pub record Keeps {ℓ κ μ} {W : Type ℓ} {A : Type κ} (P : W → Type μ) (m : Exec W A)
    : Type (ℓ ⊔ κ ⊔ μ) where
  pub at : (w : W) → P w → P (m w).1
