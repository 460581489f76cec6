-- ===== src/Dict.antt =====
-- Python's `dict`: the items in the order of insertion; a write to a key that is there keeps its
-- place. `d[k]` of a missing key is the caller's `KeyError`.
pub mod Laws
pub mod Values
pub mod Totals
use databricks_ucx.Prelude.{
  Eq, ◌==◌, Bool, List, [], ◌∷◌, Option, none, some, if◌then◌else◌, is_some, map,
}

abbrev pub Dict {ℓ κ} : Type ℓ → Type κ → Type (ℓ ⊔ κ)
Dict K V = List (K × V)

module _ {ℓ κ} {K : Type ℓ} {V : Type κ} ⦃e : Eq K⦄ where
  -- d.get(k)
  unfoldable pub get : K → Dict K V → Option V
  get k [] = none
  get k ((j, v) ∷ d) = if j == k then some v else get k d

  -- k in d
  abbrev pub has : K → Dict K V → Bool
  has k d = is_some (get k d)

  -- d[k] = v
  unfoldable pub put : K → V → Dict K V → Dict K V
  put k v [] = (k, v) ∷ []
  put k v ((j, w) ∷ d) = if j == k then (j, v) ∷ d else (j, w) ∷ put k v d

  -- d.update(ps)
  unfoldable pub update : Dict K V → List (K × V) → Dict K V
  update d [] = d
  update d ((k, v) ∷ ps) = update (put k v d) ps

  -- {k: v for k, v in ps}
  unfoldable pub of_pairs : List (K × V) → Dict K V
  unfolding update
  of_pairs ps = update [] ps

module _ {ℓ κ} {K : Type ℓ} {V : Type κ} where
  -- d.values()
  unfoldable pub values : Dict K V → List V
  values d = map (λ p. p.1) d

  -- d.keys()
  unfoldable pub keys : Dict K V → List K
  keys d = map (λ p. p.0) d
