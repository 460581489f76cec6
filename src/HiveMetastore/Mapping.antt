-- ===== src/HiveMetastore/Mapping.antt =====
-- hive_metastore/mapping.py: the rules that map a table of the Hive metastore to Unity Catalog.
pub mod Scope
pub mod Skip
pub mod Select
use databricks_ucx.Prelude.{String, ◌∷◌, [], List, map, Option, none, some}
use databricks_ucx.Text.{join_dot}
use databricks_ucx.Exec.{Result, ok, err, value_error}
use databricks_ucx.HiveMetastore.Tables.{Table, key, table_eq}

pub record Rule : Type 0 where
  pub workspace_name : String
  pub catalog_name : String
  pub src_schema : String
  pub dst_schema : String
  pub src_table : String
  pub dst_table : String

-- Rule.initial
unfoldable pub initial : String → String → Table → Rule
initial workspace_name catalog_name table = record {
  workspace_name = workspace_name;
  catalog_name = catalog_name;
  src_schema = table.database;
  dst_schema = table.database;
  src_table = table.name;
  dst_table = table.name;
}

unfoldable pub as_uc_table_key : Rule → String
as_uc_table_key r = join_dot (r.catalog_name ∷ r.dst_schema ∷ r.dst_table ∷ [])

unfoldable pub as_hms_table_key : Rule → String
as_hms_table_key r = join_dot ("hive_metastore" ∷ r.src_schema ∷ r.src_table ∷ [])

pub record TableToMigrate : Type 0 where
  pub src : Table
  pub rule : Rule

abbrev pub ucx_skip_property : String
ucx_skip_property = "databricks.labs.ucx.skip"

-- TableMapping.current_tables, on the crawler's snapshot
unfoldable pub current_tables : List Table → String → String → Result (List Rule)
unfolding initial
current_tables [] workspace_name catalog_name = err value_error
current_tables (t ∷ ts) workspace_name catalog_name =
    ok (map (initial workspace_name catalog_name) (t ∷ ts))
