-- ===== src/HiveMetastore/TableMigrate/Revert.antt =====
-- hive_metastore/table_migrate.py: the revert of migrated tables and the counts that it reports.
-- The status refresher, the crawler and Threads.strict are parameters.
pub mod Laws
pub mod Counts
use Prim.Native.String.{◌++◌}
use databricks_ucx.Prelude.{
  ℕ, suc, String, String_eq, ◌==◌, Bool, true, false, not, ◌||◌, List, [], ◌∷◌, map, Option, none,
  some, if◌then◌else◌, is_none, is_some, filter, mem,
}
use databricks_ucx.Prelude.{◌++◌ as append}
use databricks_ucx.Text.{is_empty, lower}
use databricks_ucx.Dict.{Dict, get, put, values}
use databricks_ucx.Dict.Totals.{or_zero}
use databricks_ucx.Exec.{
  Result, ok, err, key_error, is_databricks_error, and_then, Exec, pure, try_except, ◌>>=◌, ◌>>◌,
}
use databricks_ucx.HiveMetastore.Tables.{Table, What, what, What_eq, key, kind, is_view}
use databricks_ucx.HiveMetastore.Tables.Sql.{sql_unset_upgraded_to}
use databricks_ucx.HiveMetastore.MigrationStatus.Refresher.{reverse_seen}
use databricks_ucx.HiveMetastore.TableMigrate.{MigrateApi, of_result}

-- schema.lower() if schema else None
abbrev pub lowered : Option String → Option String
lowered none = none
lowered (some s) = if is_empty s then none else some (lower s)

-- schema and cur_table.database != schema
abbrev pub excludes : Option String → String → Bool
excludes none field = false
excludes (some s) field = if is_empty s then false else not (field == s)

unfoldable pub is_to_revert : Option String → Option String → Dict String String → Table → Bool
is_to_revert schema table seen t =
    if excludes schema t.database
    then false
    else if excludes table t.name
    then false
    else mem (key t) (values seen)

-- _get_tables_to_revert
unfoldable pub get_tables_to_revert :
    Dict String String → List Table → Option String → Option String → List Table
unfolding is_to_revert
get_tables_to_revert seen tables schema table =
    filter (is_to_revert (lowered schema) (lowered table) seen) tables

-- A view, an external table, or any table where managed tables go as well.
unfoldable pub is_reverted : Bool → Table → Bool
is_reverted delete_managed t = is_view t || t.object_type == "EXTERNAL" || delete_managed

-- The loop that makes the tasks: `reverse_seen[migrated_table.key]` may raise KeyError.
unfoldable pub tasks_of : Dict String String → Bool → List Table → Result (List (Table × String))
unfolding is_reverted
tasks_of reverse delete_managed [] = ok []
tasks_of reverse delete_managed (t ∷ tables) =
    let rest = tasks_of reverse delete_managed tables in
    if is_reverted delete_managed t
    then (elim (get (key t) reverse) [
      | none ↦ err key_error
      | some target ↦ and_then rest λ tasks. ok ((t, target) ∷ tasks)
    ])
    else rest

-- The tables that are reverted, each with the target that is dropped.
unfoldable pub revert_tasks :
    Dict String String
    → List Table
    → Option String
    → Option String
    → Bool
    → Result (List (Table × String))
unfolding get_tables_to_revert tasks_of
revert_tasks seen tables schema table delete_managed =
    tasks_of (reverse_seen seen) delete_managed (get_tables_to_revert seen tables schema table)

unfoldable pub drop_statement : Table → String → String
drop_statement t target = "DROP " ++ kind t ++ " IF EXISTS " ++ target

module _ {W : Type 0} (api : MigrateApi W) where
  -- _revert_migrated_table
  unfoldable pub revert_migrated_table : Table × String → Exec W (Unit {0})
  unfolding drop_statement
  revert_migrated_table (t, target) =
      try_except is_databricks_error (pure tt)
        (do api.execute (sql_unset_upgraded_to t); api.execute (drop_statement t target))

  module _ (get_seen_tables : Exec W (Dict String String)) (snapshot : Exec W (List Table))
      (strict : List (Exec W (Unit {0})) → Exec W (Unit {0})) where
    -- revert_migrated_tables
    unfoldable pub revert_migrated_tables : Option String → Option String → Bool → Exec W (Unit {0})
    unfolding revert_migrated_table
    revert_migrated_tables schema table delete_managed = do
      seen ← get_seen_tables
      tables ← snapshot
      tasks ← of_result (revert_tasks seen tables schema table delete_managed)
      strict (map revert_migrated_table tasks)

-- MigrationCount
pub record MigrationCount : Type 0 where
  pub database : String
  pub what_count : Dict What ℕ

-- The body of the inner loop: a table with the property is counted under its class.
unfoldable pub count_table : Dict What ℕ → Table → Result (Dict What ℕ)
unfolding what
count_table counts t =
    if is_none t.upgraded_to
    then ok counts
    else and_then (what t) λ w. ok (put w (suc (or_zero (get w counts))) counts)

unfoldable pub what_counts : Dict What ℕ → List Table → Result (Dict What ℕ)
unfolding count_table
what_counts counts [] = ok counts
what_counts counts (t ∷ tables) = elim (count_table counts t) [
  | err e ↦ err e
  | ok counts' ↦ what_counts counts' tables
]

abbrev pub or_empty : Option (List Table) → List Table
or_empty none = []
or_empty (some tables) = tables

-- table_by_database, a defaultdict(list)
unfoldable pub by_database : Dict String (List Table) → List Table → Dict String (List Table)
by_database groups [] = groups
by_database groups (t ∷ tables) =
    by_database (put t.database (append (or_empty (get t.database groups)) (t ∷ [])) groups) tables

unfoldable pub count_groups : Dict String (List Table) → Result (List MigrationCount)
unfolding what_counts
count_groups [] = ok []
count_groups ((database, tables) ∷ groups) =
    let rest = count_groups groups in
    and_then (what_counts [] tables) λ counts.
      and_then rest λ later. ok (record { database = database; what_count = counts } ∷ later)

-- _get_revert_count, once the tables that have been seen are known
unfoldable pub get_revert_count :
    Dict String String → List Table → Option String → Option String → Result (List MigrationCount)
unfolding by_database count_groups
get_revert_count seen tables schema table =
    count_groups (by_database [] (get_tables_to_revert seen tables schema table))
