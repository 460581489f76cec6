-- ===== src/HiveMetastore/Views/Batch.antt =====
-- What one batch is: the views of the set that are ready, in the set's order.
use databricks_ucx.Prelude.{
  ℕ, Bool, true, false, not, ◌&&◌, List, [], ◌∷◌, ◌++◌, ◌≡◌, refl, arith, filter, ◌⊎◌, inr, inl,
}
use databricks_ucx.Exec.{Result, ok, err}
use databricks_ucx.HiveMetastore.MigrationStatus.{TableView, MigrationIndex}
use databricks_ucx.HiveMetastore.Views.{ViewToMigrate}
use databricks_ucx.HiveMetastore.Views.Sequencer.{
  Outcome, returns, raises, out_of_fuel, ◌>>=◌, of_result, check_circular, next_of, next_batch,
  is_nil, is_ready,
}

pub >>=-eq-returns {ℓ κ} :
    {A : Type ℓ} {B : Type κ} (m : Outcome A) (f : A → Outcome B) {b : B}
    → (m >>= f) ≡ returns b
    → (a : A) × (m ≡ returns a) × (f a ≡ returns b)
>>=-eq-returns (returns a) f h = (a, refl, h)
>>=-eq-returns (raises e) f h = absurd (ground arith)
>>=-eq-returns out_of_fuel f h = absurd (ground arith)

pub >>=-eq-out_of_fuel {ℓ κ} :
    {A : Type ℓ} {B : Type κ} (m : Outcome A) (f : A → Outcome B)
    → (m >>= f) ≡ out_of_fuel
    → (m ≡ out_of_fuel) ⊎ ((a : A) × (m ≡ returns a) × (f a ≡ out_of_fuel))
>>=-eq-out_of_fuel (returns a) f h = inr (a, refl, h)
>>=-eq-out_of_fuel (raises e) f h = absurd (ground arith)
>>=-eq-out_of_fuel out_of_fuel f h = inl refl

abbrev ready_with : (List TableView → Bool) → Result (List TableView) → Bool
ready_with test (ok ds) = test ds
ready_with test (err e) = false

-- A view whose dependencies could be read and are ready.
abbrev pub ready_view :
    (ViewToMigrate → Result (List TableView))
    → MigrationIndex
    → List ViewToMigrate
    → ViewToMigrate
    → Bool
ready_view dependencies index processed v = ready_with (is_ready index processed) (dependencies v)

ready_with-ok :
    (test : List TableView → Bool) (r : Result (List TableView)) {ds : List TableView}
    → of_result r ≡ returns ds
    → ready_with test r ≡ test ds
ready_with-ok test (ok ds) h = ground arith
ready_with-ok test (err e) h = absurd (ground arith)

pub ready_with-true :
    (test : List TableView → Bool) (r : Result (List TableView))
    → ready_with test r ≡ true
    → (ds : List TableView) × (r ≡ ok ds) × (test ds ≡ true)
ready_with-true test (ok ds) h = (ds, refl, h)
ready_with-true test (err e) h = absurd (ground arith)

module _ (dependencies : ViewToMigrate → Result (List TableView)) (fuel : ℕ)
    (index : MigrationIndex) where
  next_of-eq-filter :
      (views processed rest : List ViewToMigrate) (batch : List ViewToMigrate)
      → next_of dependencies fuel index views processed rest ≡ returns batch
      → batch ≡ filter (ready_view dependencies index processed) rest
  unfolding next_of filter
  next_of-eq-filter views processed [] batch h = ground arith
  next_of-eq-filter views processed (v ∷ rest) batch h =
      let (ds, read, h₁) = >>=-eq-returns (of_result (dependencies v)) _ h in
      let (_, checked, h₂) =
        >>=-eq-returns (check_circular dependencies fuel v (views ++ processed) ds) _ h₁ in
      let (later, visited, h₃) =
        >>=-eq-returns (next_of dependencies fuel index views processed rest) _ h₂ in
      ground (
        arith,
        h₃,
        next_of-eq-filter views processed rest later visited,
        ready_with-ok (is_ready index processed) (dependencies v) read,
      )

  -- A batch of a set with a view is not empty, and it holds the ready views of the set.
  pub next_batch-eq-filter :
      (views processed batch : List ViewToMigrate)
      → next_batch dependencies fuel index views processed ≡ returns batch
      → (batch ≡ filter (ready_view dependencies index processed) views)
        × (is_nil batch && not (is_nil views) ≡ false)
  unfolding next_batch
  next_batch-eq-filter views processed batch h =
      let (result, visited, h₁) =
        >>=-eq-returns (next_of dependencies fuel index views processed views) _ h in
      let same = next_of-eq-filter views processed views result visited in ground (arith, same, h₁)
