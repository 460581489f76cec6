-- ===== src/HiveMetastore/TableMigrate/Migrate.antt =====
-- hive_metastore/table_migrate.py: how one table or view is migrated.
use Prim.Native.String.{◌++◌}
use databricks_ucx.Prelude.{
  String, String_eq, ◌==◌, Bool, true, false, ◌&&◌, List, [], ◌∷◌, Option, none, some,
  if◌then◌else◌, is_some,
}
use databricks_ucx.Text.{is_empty}
use databricks_ucx.Dict.{Dict, has}
use databricks_ucx.Exec.{Result, Exec, pure, ◌>>=◌, ◌>>◌}
use databricks_ucx.HiveMetastore.Tables.{
  Table, What, external_sync, external_hiveserde, external_no_sync, dbfs_root_delta,
  dbfs_root_non_delta, what, is_dbfs_mnt, on_format,
}
use databricks_ucx.HiveMetastore.Tables.Sql.{
  sql_alter_from, sql_migrate_external, sql_migrate_ctas_external, sql_migrate_ctas_managed,
  sql_migrate_dbfs,
}
use databricks_ucx.HiveMetastore.Tables.Serde.{HiveSerdeType, parquet, avro, orc, hiveserde_type}
use databricks_ucx.HiveMetastore.Mapping.{Rule, TableToMigrate, as_uc_table_key}
use databricks_ucx.HiveMetastore.MigrationStatus.{TableView, get_status}
use databricks_ucx.HiveMetastore.Grants.{Grant}
use databricks_ucx.HiveMetastore.Grants.Cluster.{Mount, resolve_mount}
use databricks_ucx.HiveMetastore.TableMigrate.{MigrateApi, of_result, if_else, try_marked}
use databricks_ucx.HiveMetastore.TableMigrate.Acl.{migrate_acl}

-- if mounts and src_table.is_dbfs_mnt: a list of mounts that is not empty, and a mounted location
abbrev pub has_mounts : List Mount → Bool
has_mounts [] = false
has_mounts (m ∷ mounts) = true

module _ (replace : String → String → String → String) where
  -- The location of the table of a CTAS, for a table with a location.
  unfoldable pub ctas_location : Table → List Mount → String → String
  ctas_location t mounts location =
      if has_mounts mounts && is_dbfs_mnt t
      then resolve_mount replace location mounts ++ "_ctas_migrated"
      else location ++ "_ctas_migrated"

  -- The statement for an external table.
  abbrev pub ctas_external : Table → Rule → List Mount → String
  ctas_external t rule mounts = elim t.location [
    | none ↦ sql_migrate_ctas_managed t (as_uc_table_key rule)
    | some location ↦
        if is_empty location
        then sql_migrate_ctas_managed t (as_uc_table_key rule)
        else sql_migrate_ctas_external t (as_uc_table_key rule) (ctas_location t mounts location)
  ]

  -- The statement of _migrate_table_create_ctas, for a table of the given class.
  unfoldable pub ctas_statement : What → Table → Rule → List Mount → String
  unfolding ctas_location
  ctas_statement external_no_sync t rule mounts = ctas_external t rule mounts
  ctas_statement external_hiveserde t rule mounts = ctas_external t rule mounts
  ctas_statement w t rule mounts = sql_migrate_ctas_managed t (as_uc_table_key rule)

  -- The location that an in-place migration gives the table, if it changes.
  unfoldable pub in_place_location : Table → List Mount → Option String
  in_place_location t mounts =
      if has_mounts mounts && is_dbfs_mnt t
      then (elim t.location [ none ↦ none | some l ↦ some (resolve_mount replace l mounts) ])
      else none

-- A serde for which a DDL is generated; the others can only be migrated by CTAS.
abbrev pub is_in_place : HiveSerdeType → Bool
is_in_place parquet = true
is_in_place avro = true
is_in_place orc = true
is_in_place _ = false

module _ {W : Type 0} (api : MigrateApi W) where
  -- Table.sql_migrate_external_hiveserde_in_place
  unfoldable pub in_place_sql :
      HiveSerdeType → Table → Rule → Option String → Exec W (Option String)
  in_place_sql serde t rule location =
      if_else (is_in_place serde) (api.show_create t rule location) (pure none)

  -- What follows a `try` block: nothing where it failed, else the grants.
  abbrev pub then_acl : Table → Rule → List Grant → Bool → Exec W Bool
  then_acl t rule grants done = if_else done (migrate_acl api t rule grants) (pure false)

  unfoldable pub migrate_marked : String → Table → Rule → List Grant → Exec W Bool
  unfolding try_marked migrate_acl
  migrate_marked sql t rule grants = try_marked api sql t rule >>= then_acl t rule grants

  -- _migrate_dbfs_root_table
  unfoldable pub migrate_dbfs_root_table : Table → Rule → List Grant → Exec W Bool
  unfolding migrate_marked sql_migrate_dbfs
  migrate_dbfs_root_table t rule grants = do
    sql ← of_result (sql_migrate_dbfs t (as_uc_table_key rule))
    migrate_marked sql t rule grants

  -- _migrate_table_create_ctas
  unfoldable pub migrate_table_create_ctas : Table → Rule → List Grant → List Mount → Exec W Bool
  unfolding migrate_marked ctas_statement
  migrate_table_create_ctas t rule grants mounts = do
    w ← of_result (what t)
    migrate_marked (ctas_statement api.replace w t rule mounts) t rule grants

  abbrev pub synced : Table → Rule → List Grant → String → Exec W Bool
  synced t rule grants status =
      if_else (status == "SUCCESS")
        (do
          ws_id ← api.workspace_id
          api.execute (sql_alter_from t (as_uc_table_key rule) ws_id)
          migrate_acl api t rule grants)
        (pure false)

  -- _migrate_external_table
  unfoldable pub migrate_external_table : Table → Rule → List Grant → Exec W Bool
  unfolding migrate_acl
  migrate_external_table t rule grants = do
    status ← api.fetch_sync (sql_migrate_external t (as_uc_table_key rule))
    synced t rule grants status

  abbrev pub with_ddl : Table → Rule → List Grant → Option String → Exec W Bool
  with_ddl t rule grants none = pure false
  with_ddl t rule grants (some sql) =
      if_else (is_empty sql) (pure false) (migrate_marked sql t rule grants)

  -- The rest of _migrate_external_table_hiveserde_in_place, once the serde is known.
  unfoldable pub migrate_in_place :
      HiveSerdeType → Table → Rule → List Grant → List Mount → Exec W Bool
  unfolding in_place_sql migrate_marked in_place_location
  migrate_in_place serde t rule grants mounts =
      if_else (is_in_place serde)
        (do
          sql ← in_place_sql serde t rule (in_place_location api.replace t mounts)
          with_ddl t rule grants sql)
        (pure false)

  -- What hiveserde_type fetches: nothing for a table in another format.
  abbrev pub described_rows : Table → Exec W (List (String × String))
  described_rows t =
      if_else (on_format t.table_format (λ f. f == "HIVE")) (api.describe t) (pure [])

  -- _migrate_external_table_hiveserde_in_place
  unfoldable pub migrate_hiveserde_in_place : Table → Rule → List Grant → List Mount → Exec W Bool
  unfolding migrate_in_place hiveserde_type
  migrate_hiveserde_in_place t rule grants mounts = do
    rows ← described_rows t
    migrate_in_place (hiveserde_type t rows) t rule grants mounts

  -- The dispatch of _migrate_table on the class of the table.
  unfoldable pub migrate_as : What → Table → Rule → List Grant → List Mount → Bool → Exec W Bool
  unfolding migrate_dbfs_root_table migrate_table_create_ctas migrate_external_table
      migrate_hiveserde_in_place
  migrate_as dbfs_root_delta t rule grants mounts in_place = migrate_dbfs_root_table t rule grants
  migrate_as dbfs_root_non_delta t rule grants mounts in_place =
      migrate_table_create_ctas t rule grants mounts
  migrate_as external_sync t rule grants mounts in_place = migrate_external_table t rule grants
  migrate_as external_hiveserde t rule grants mounts in_place =
      if_else in_place (migrate_hiveserde_in_place t rule grants mounts)
        (migrate_table_create_ctas t rule grants mounts)
  migrate_as external_no_sync t rule grants mounts in_place =
      migrate_table_create_ctas t rule grants mounts
  migrate_as w t rule grants mounts in_place = pure true

  -- _migrate_table
  unfoldable pub migrate_table :
      Dict String String → TableToMigrate → List Grant → List Mount → Bool → Exec W Bool
  unfolding migrate_as what
  migrate_table seen t grants mounts in_place =
      if_else (has (as_uc_table_key t.rule) seen) (pure true)
        (do w ← of_result (what t.src); migrate_as w t.src t.rule grants mounts in_place)

  -- _view_can_be_migrated
  unfoldable pub view_can_be_migrated : List TableView → Exec W Bool
  view_can_be_migrated [] = pure true
  view_can_be_migrated (d ∷ ds) = api.index_full_refresh >>= λ index.
      if_else (is_some (get_status index d.schema d.name)) (view_can_be_migrated ds) (pure false)

  -- _migrate_view_table
  unfoldable pub migrate_view_table : Table → Rule → List Grant → Exec W Bool
  unfolding migrate_marked
  migrate_view_table t rule grants = do
    index ← api.index
    sql ← api.view_sql t rule index
    migrate_marked sql t rule grants

  -- _migrate_view, on the dependencies that the sequencer has computed
  unfoldable pub migrate_view :
      Dict String String → TableToMigrate → Result (List TableView) → List Grant → Exec W Bool
  unfolding view_can_be_migrated migrate_view_table
  migrate_view seen t dependencies grants =
      if_else (has (as_uc_table_key t.rule) seen) (pure true) (do
        ds ← of_result dependencies
        can ← view_can_be_migrated ds
        if_else can (migrate_view_table t.src t.rule grants) (pure true))
