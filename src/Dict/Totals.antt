-- ===== src/Dict/Totals.antt =====
-- A measure of a dictionary's values, summed over its items.
use databricks_ucx.Prelude.{
  ℕ, ◌+◌, ◌==◌, [], ◌∷◌, Option, none, some, ◌≡◌, refl, arith, inl, inr, Bool-cases, Eq,
}
use databricks_ucx.Dict.{Dict, get, put}

abbrev pub measured {ℓ} : {V : Type ℓ} → (V → ℕ) → Option V → ℕ
measured measure none = 0
measured measure (some v) = measure v

-- The number itself, for a dictionary of counts, and 0 for a key that is not there.
abbrev pub itself : ℕ → ℕ
itself n = n

abbrev pub or_zero : Option ℕ → ℕ
or_zero none = 0
or_zero (some n) = n

pub measured-itself : (o : Option ℕ) → measured itself o ≡ or_zero o
measured-itself none = refl
measured-itself (some n) = refl

module _ {ℓ κ} {K : Type ℓ} {V : Type κ} (measure : V → ℕ) where
  unfoldable pub total : Dict K V → ℕ
  total [] = 0
  total ((k, v) ∷ d) = measure v + total d

  module _ ⦃e : Eq K⦄ where
    -- A write replaces what the key had.
    pub total-put :
        (k : K) (v : V) (d : Dict K V)
        → total (put k v d) + measured measure (get k d) ≡ total d + measure v
    unfolding total put get
    total-put k v [] = omega arith
    total-put k v ((j, w) ∷ d) = elim (Bool-cases (j == k)) [
      | inl same ↦ rw same (omega arith)
      | inr other ↦ rw other (omega (arith, total-put k v d))
    ]
