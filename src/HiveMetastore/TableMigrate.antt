-- ===== src/HiveMetastore/TableMigrate.antt =====
-- hive_metastore/table_migrate.py: `TablesMigrator`. The SQL backend and the workspace are
-- parameters, and so is what needs a parsed statement: the DDL of an in-place migration and the
-- rewritten text of a view.
pub mod Acl
pub mod Migrate
pub mod Batches
pub mod Revert
pub mod Trace
use databricks_ucx.Prelude.{String, Bool, true, false, List, [], ◌∷◌, Option, none, some}
use databricks_ucx.Exec.{
  Result, ok, err, is_databricks_error, Exec, pure, raise, try_except, ◌>>=◌, ◌>>◌,
}
use databricks_ucx.HiveMetastore.Tables.{Table}
use databricks_ucx.HiveMetastore.Tables.Sql.{sql_alter_to, sql_alter_from}
use databricks_ucx.HiveMetastore.Mapping.{Rule, as_uc_table_key}
use databricks_ucx.HiveMetastore.MigrationStatus.{MigrationIndex}

pub record MigrateApi (W : Type 0) : Type 0 where
  -- self._backend.execute
  pub execute : String → Exec W (Unit {0})
  -- the status code of the first row of a SYNC statement
  pub fetch_sync : String → Exec W String
  -- the rows of DESCRIBE TABLE EXTENDED, without the comments
  pub describe : Table → Exec W (List (String × String))
  -- Table._ddl_show_create_table
  pub show_create : Table → Rule → Option String → Exec W (Option String)
  -- self._ws.get_workspace_id()
  pub workspace_id : Exec W String
  -- self._migration_status_refresher.index() and index_full_refresh()
  pub index : Exec W MigrationIndex
  pub index_full_refresh : Exec W MigrationIndex
  -- the text that SHOW CREATE TABLE has for a view, rewritten with the index
  pub view_sql : Table → Rule → MigrationIndex → Exec W String
  -- str.replace
  pub replace : String → String → String → String

abbrev pub of_result {ℓ} : {W : Type ℓ} {A : Type 0} → Result A → Exec W A
of_result (ok a) = pure a
of_result (err e) = raise e

abbrev pub if_else {ℓ} : {W : Type ℓ} {A : Type 0} → Bool → Exec W A → Exec W A → Exec W A
if_else true m n = m
if_else false m n = n

module _ {W : Type 0} (api : MigrateApi W) where
  -- The statements of a `try` block: the migration, then both marks.
  unfoldable pub mark_statements : String → Table → Rule → Exec W Bool
  mark_statements sql t rule = do
    api.execute sql
    api.execute (sql_alter_to t (as_uc_table_key rule))
    ws_id ← api.workspace_id
    api.execute (sql_alter_from t (as_uc_table_key rule) ws_id)
    pure true

  -- The `try` block: a DatabricksError is logged, and the method returns False.
  unfoldable pub try_marked : String → Table → Rule → Exec W Bool
  unfolding mark_statements
  try_marked sql t rule = try_except is_databricks_error (pure false) (mark_statements sql t rule)
