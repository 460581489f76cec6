-- ===== src/HiveMetastore/Mapping/Scope.antt =====
-- Whether a database and a table are in the scope of the migration. What the workspace knows of a
-- table (`ws.tables.get`), the properties and descriptions that the SQL backend shows and the outcome
-- of a statement are parameters. A task returns its result and the statements that it executed.
use databricks_ucx.Prelude.{
  String, String_eq, ◌==◌, Bool, true, false, not, List, [], ◌∷◌, Option, none, some, if◌then◌else◌,
  mem,
}
use databricks_ucx.Text.{lower, is_empty}
use databricks_ucx.Dict.{Dict, get, of_pairs}
use databricks_ucx.Exec.{Result, ok, err, is_not_found, is_databricks_error, resource_conflict}
use databricks_ucx.HiveMetastore.Tables.{Table, key}
use databricks_ucx.HiveMetastore.Tables.Sql.{sql_unset_upgraded_to}
use databricks_ucx.HiveMetastore.Mapping.{TableToMigrate, as_uc_table_key, ucx_skip_property}

-- The check of the properties that `ws.tables.get` returned.
abbrev pub from_other : Table → Option String → Bool
from_other t none = false
from_other t (some upgraded_from) =
    if is_empty upgraded_from then false else not (upgraded_from == key t)

module _ (get_table : String → Result (Dict String String)) where
  -- TableMapping.exists_in_uc; a table with no properties has an empty dictionary
  unfoldable pub exists_in_uc : Table → String → Result Bool
  exists_in_uc t target = elim (get_table target) [
    | err e ↦ if is_not_found e then ok false else err e
    | ok properties ↦
        if from_other t (get "upgraded_from" properties) then err resource_conflict else ok true
  ]

  module _ (execute : String → Result (Unit {0})) where
    -- One statement and what follows: a DatabricksError that it raises is logged and dropped.
    abbrev pub executed :
        String
        → Result (Option TableToMigrate) × List String
        → Result (Option TableToMigrate) × List String
    executed sql (result, later) = elim (execute sql) [
      | ok _ ↦ (result, sql ∷ later)
      | err e ↦ if is_databricks_error e then (result, sql ∷ later) else (err e, sql ∷ [])
    ]

    -- The loop over the table's properties.
    unfoldable pub check_properties :
        TableToMigrate → List (String × String) → Result (Option TableToMigrate) × List String
    check_properties t [] = (ok (some t), [])
    check_properties t ((k, v) ∷ properties) =
        let rest = check_properties t properties in
        if k == ucx_skip_property
        then (ok none, [])
        else if k == "upgraded_to"
        then elim (exists_in_uc t.src v) [
          | err e ↦ (err e, [])
          | ok true ↦ (ok none, [])
          | ok false ↦ executed (sql_unset_upgraded_to t.src) rest
        ]
        else rest

    -- TableMapping._get_table_in_scope_task
    unfoldable pub table_in_scope :
        (Table → Result (List (String × String)))
        → TableToMigrate
        → Result (Option TableToMigrate) × List String
    table_in_scope show_properties t = elim (exists_in_uc t.src (as_uc_table_key t.rule)) [
      | err e ↦ (err e, [])
      | ok true ↦ (ok none, [])
      | ok false ↦ elim (show_properties t.src) [
        | err e ↦ if is_databricks_error e then (ok none, []) else (err e, [])
        | ok properties ↦ check_properties t properties
      ]
    ]

-- TableMapping._get_database_in_scope_task, on the description's (item, value) rows and on the keys
-- that `parse_database_props` finds
unfoldable pub database_in_scope :
    (String → Result (List (String × String)))
    → (String → List String)
    → String
    → Result (Option String)
database_in_scope describe property_keys database = elim (describe database) [
  | err e ↦ if is_not_found e then ok none else err e
  | ok rows ↦ elim (get "Properties" (of_pairs rows)) [
    | none ↦ ok (some database)
    | some properties ↦
        if is_empty properties
        then ok (some database)
        else if mem ucx_skip_property (property_keys (lower properties))
        then ok none
        else ok (some database)
  ]
]
