-- ===== src/HiveMetastore/Views/Sequencer.antt =====
-- `ViewsMigrationSequencer`. The search of `_check_circular_dependency` need not end, so it runs on
-- fuel, and an outcome tells a search that ran out from one that raised.
use databricks_ucx.Prelude.{
  ℕ, zero, suc, String, String_eq, ◌==◌, Bool, true, false, not, ◌&&◌, List, [], ◌∷◌, ◌++◌, map,
  Option, none, some, if◌then◌else◌, filter, mem, length, any,
}
use databricks_ucx.Exec.{Error, Result, ok, err, value_error}
use databricks_ucx.HiveMetastore.Tables.{key, table_eq}
use databricks_ucx.HiveMetastore.MigrationStatus.{TableView, view_key, MigrationIndex, is_migrated}
use databricks_ucx.HiveMetastore.Mapping.{TableToMigrate}
use databricks_ucx.HiveMetastore.Views.{ViewToMigrate, TableView_eq}

pub data Outcome {ℓ} (A : Type ℓ) : Type ℓ where
  returns : A → Outcome A
  raises : Error → Outcome A
  out_of_fuel : Outcome A

infixl 10 ◌>>=◌
abbrev pub ◌>>=◌ {ℓ κ} : {A : Type ℓ} {B : Type κ} → Outcome A → (A → Outcome B) → Outcome B
returns a >>= f = f a
raises e >>= f = raises e
out_of_fuel >>= f = out_of_fuel

abbrev pub of_result {ℓ} : {A : Type ℓ} → Result A → Outcome A
of_result (ok a) = returns a
of_result (err e) = raises e

-- _get_view_instance: the first view of `all_views` with the key
unfoldable pub get_view_instance : String → List ViewToMigrate → Option ViewToMigrate
get_view_instance k [] = none
get_view_instance k (view ∷ views) =
    if key view.src == k then some view else get_view_instance k views

-- TableView("hive_metastore", t.src.database, t.src.name)
unfoldable pub as_table_view : ViewToMigrate → TableView
as_table_view v = record { catalog = "hive_metastore"; schema = v.src.database; name = v.src.name }

abbrev pub is_nil {ℓ} : {A : Type ℓ} → List A → Bool
is_nil [] = true
is_nil (x ∷ xs) = false

-- The test of `_next_batch` on one view's dependencies, after `processed` has been migrated.
unfoldable pub is_ready : MigrationIndex → List ViewToMigrate → List TableView → Bool
is_ready index processed view_deps =
    if is_nil view_deps
    then true
    else (let not_processed_yet =
          filter (λ d. not (mem d (map as_table_view processed))) view_deps in
        if is_nil not_processed_yet
        then true
        else is_nil (filter (λ d. not (is_migrated index d.schema d.name)) not_processed_yet))

-- views.difference_update(batch)
unfoldable pub difference : List ViewToMigrate → List ViewToMigrate → List ViewToMigrate
difference views batch = filter (λ v. not (any (λ b. table_eq b.src v.src) batch)) views

module _ (dependencies : ViewToMigrate → Result (List TableView)) where
  -- _check_circular_dependency: the `while queue` loop
  unfoldable pub check_circular :
      ℕ → ViewToMigrate → List ViewToMigrate → List TableView → Outcome (Unit {0})
  check_circular fuel initial_view all_views [] = returns tt
  check_circular zero initial_view all_views (dep ∷ queue) = out_of_fuel
  check_circular (suc fuel) initial_view all_views (dep ∷ queue) =
      elim (get_view_instance (view_key dep) all_views) [
        | none ↦ check_circular fuel initial_view all_views queue
        | some current_view ↦ elim (table_eq current_view.src initial_view.src) [
          | true ↦ raises value_error
          | false ↦ elim (dependencies current_view) [
            | err e ↦ raises e
            | ok more ↦ check_circular fuel initial_view all_views (queue ++ more)
          ]
        ]
      ]

  module _ (fuel : ℕ) (index : MigrationIndex) where
    -- The loop of _next_batch over the views that are left to visit.
    unfoldable pub next_of :
        List ViewToMigrate → List ViewToMigrate → List ViewToMigrate → Outcome (List ViewToMigrate)
    next_of views processed [] = returns []
    next_of views processed (view ∷ rest) = do
      view_deps ← of_result (dependencies view)
      checked ← check_circular fuel view (views ++ processed) view_deps
      later ← next_of views processed rest
      returns (if is_ready index processed view_deps then view ∷ later else later)

    abbrev pub or_stuck : List ViewToMigrate → List ViewToMigrate → Outcome (List ViewToMigrate)
    or_stuck views result =
        if is_nil result && not (is_nil views) then raises value_error else returns result

    -- _next_batch
    unfoldable pub next_batch :
        List ViewToMigrate → List ViewToMigrate → Outcome (List ViewToMigrate)
    unfolding next_of
    next_batch views processed = next_of views processed views >>= or_stuck views

    -- The `while len(views) > 0` loop of sequence_batches, with a bound on its rounds.
    unfoldable pub sequence_loop :
        ℕ → List ViewToMigrate → List ViewToMigrate → Outcome (List (List ViewToMigrate))
    sequence_loop rounds [] processed = returns []
    sequence_loop zero (view ∷ views) processed = out_of_fuel
    sequence_loop (suc rounds) (view ∷ views) processed =
        next_batch (view ∷ views) processed >>= λ batch.
        sequence_loop rounds (difference (view ∷ views) batch) (processed ++ batch) >>= λ later.
        returns (batch ∷ later)

    -- sequence_batches, once the views have been collected; every round migrates a view
    unfoldable pub sequence_batches : List ViewToMigrate → Outcome (List (List ViewToMigrate))
    unfolding sequence_loop
    sequence_batches views = sequence_loop (length views) views []

-- The set of views that sequence_batches collects: an equal view is not added again.
unfoldable pub collect_views : List ViewToMigrate → List TableToMigrate → List ViewToMigrate
collect_views views [] = views
collect_views views (t ∷ ts) = elim t.src.view_text [
  | none ↦ collect_views views ts
  | some _ ↦
      collect_views (if any (λ v. table_eq v.src t.src) views then views else views ++ t ∷ []) ts
]
