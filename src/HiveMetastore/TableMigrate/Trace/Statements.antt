-- ===== src/HiveMetastore/TableMigrate/Trace/Statements.antt =====
-- hive_metastore/table_migrate.py: which statements migrate a table of each class.
use databricks_ucx.Prelude.{String, String_eq, Bool, true, false, List, [], ◌∷◌, some, ◌≡◌}
use databricks_ucx.Exec.{ok}
use databricks_ucx.HiveMetastore.Tables.{
  Table, What, external_sync, external_hiveserde, external_no_sync, dbfs_root_delta,
  dbfs_root_non_delta, view, db_dataset, unknown,
}
use databricks_ucx.HiveMetastore.Tables.Sql.{
  sql_alter_from, sql_migrate_external, sql_migrate_ctas_managed, sql_migrate_dbfs,
}
use databricks_ucx.HiveMetastore.Mapping.{Rule, as_uc_table_key}
use databricks_ucx.HiveMetastore.Grants.{Grant}
use databricks_ucx.HiveMetastore.Grants.Cluster.{Mount}
use databricks_ucx.HiveMetastore.TableMigrate.{MigrateApi}
use databricks_ucx.HiveMetastore.TableMigrate.Acl.{acl_statements}
use databricks_ucx.HiveMetastore.TableMigrate.Migrate.{ctas_external, in_place_location}
use databricks_ucx.HiveMetastore.TableMigrate.Trace.{marked}

-- The statements that migrate a table, by its class and by whether Hive tables are migrated in place.
pub data Executes {W : Type 0} (api : MigrateApi W) (t : Table) (rule : Rule) (grants : List Grant)
    (mounts : List Mount) : What → Bool → List String → Type 0 where
  deep_clone :
      {sql : String} (in_place : Bool) (ws_id : String)
      → sql_migrate_dbfs t (as_uc_table_key rule) ≡ ok sql
      → Executes api t rule grants mounts dbfs_root_delta in_place (marked t rule grants sql ws_id)
  managed_copy :
      (in_place : Bool) (ws_id : String)
      → Executes api t rule grants mounts dbfs_root_non_delta in_place
          (marked t rule grants (sql_migrate_ctas_managed t (as_uc_table_key rule)) ws_id)
  external_copy :
      (in_place : Bool) (ws_id : String)
      → Executes api t rule grants mounts external_no_sync in_place
          (marked t rule grants (ctas_external api.replace t rule mounts) ws_id)
  hive_copy :
      (ws_id : String)
      → Executes api t rule grants mounts external_hiveserde false
          (marked t rule grants (ctas_external api.replace t rule mounts) ws_id)
  -- The statement is the DDL of the source with the resolved location.
  hive_in_place :
      {sql : String} (ws_id : String) (w : W)
      → (api.show_create t rule (in_place_location api.replace t mounts) w).0 ≡ ok (some sql)
      → Executes api t rule grants mounts external_hiveserde true (marked t rule grants sql ws_id)
  sync :
      (in_place : Bool) (ws_id : String)
      → Executes api t rule grants mounts external_sync in_place (
          sql_migrate_external t (as_uc_table_key rule)
          ∷ sql_alter_from t (as_uc_table_key rule) ws_id
          ∷ acl_statements t rule grants)
  skips_view : (in_place : Bool) → Executes api t rule grants mounts view in_place []
  skips_dataset : (in_place : Bool) → Executes api t rule grants mounts db_dataset in_place []
  skips_unknown : (in_place : Bool) → Executes api t rule grants mounts unknown in_place []
