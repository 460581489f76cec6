-- ===== src/HiveMetastore/Mapping/Select.antt =====
-- `TableMapping.get_tables_to_migrate`. `Threads.strict` runs tasks in parallel; it is a parameter.
pub mod Laws
use databricks_ucx.Prelude.{
  String, String_eq, Bool, true, false, not, List, [], ◌∷◌, ◌++◌, map, filter, Option, none, some,
  mem, if◌then◌else◌,
}
use mathlib.Core.List.{filter_map, flat_map}
use databricks_ucx.Dict.{Dict, get, of_pairs}
use databricks_ucx.Exec.{Result, ok, err, and_then}
use databricks_ucx.HiveMetastore.Tables.{Table, key, is_databricks_dataset}
use databricks_ucx.HiveMetastore.Mapping.{Rule, TableToMigrate, as_hms_table_key}
use databricks_ucx.HiveMetastore.Mapping.Scope.{table_in_scope, database_in_scope}

abbrev pub Strict : Type 1
Strict = (A : Type 0) → List (Result (Option A)) → Result (List A)

-- {table.key: table for table in snapshot}
unfoldable pub tables_by_key : List Table → Dict String Table
tables_by_key snapshot = of_pairs (map (λ t. (key t, t)) snapshot)

-- The body of the loop over the rules: the candidate that a task is made for.
unfoldable pub candidate : Dict String Table → List String → Rule → Option TableToMigrate
candidate crawled databases rule = elim (get (as_hms_table_key rule) crawled) [
  | none ↦ none
  | some table ↦
      if not (mem rule.src_schema databases)
      then none
      else if is_databricks_dataset table
      then none
      else some (record { src = table; rule = rule })
]

-- {rule.src_schema for rule in rules}, in some order
unfoldable pub source_schemas : List String → List Rule → List String
source_schemas seen [] = seen
source_schemas seen (rule ∷ rules) =
    source_schemas (if mem rule.src_schema seen then seen else seen ++ rule.src_schema ∷ []) rules

module _ (strict : Strict) (get_table : String → Result (Dict String String))
    (execute : String → Result (Unit {0}))
    (show_properties : Table → Result (List (String × String)))
    (describe : String → Result (List (String × String)))
    (property_keys : String → List String) where
  abbrev pub scope_task : TableToMigrate → Result (Option TableToMigrate) × List String
  scope_task = table_in_scope get_table execute show_properties

  unfoldable pub databases_in_scope : List Rule → Result (List String)
  databases_in_scope rules =
      strict String (map (database_in_scope describe property_keys) (source_schemas [] rules))

  unfoldable pub candidates : List Rule → List Table → List String → List TableToMigrate
  candidates rules snapshot databases =
      filter_map (candidate (tables_by_key snapshot) databases) rules

  -- The tables to migrate, from the loaded rules and the crawler's snapshot.
  unfoldable pub get_tables_to_migrate :
      Result (List Rule) → List Table → Result (List TableToMigrate)
  get_tables_to_migrate loaded snapshot = and_then loaded λ rules.
      and_then (databases_in_scope rules) λ databases.
        strict TableToMigrate (map (λ t. (scope_task t).0) (candidates rules snapshot databases))

  -- The statements that the tasks execute, task by task.
  unfoldable pub scope_statements : List TableToMigrate → List String
  scope_statements = flat_map (λ t. (scope_task t).1)
