-- ===== src/HiveMetastore/Mapping/Skip.antt =====
-- hive_metastore/mapping.py: how tables and schemas are marked to be skipped, the rules of tables of
-- Unity Catalog, and how rules are saved and loaded. The backend and the installation are parameters.
use Prim.Native.String.{◌++◌}
use databricks_ucx.Prelude.{String, Bool, true, List, Option, none, some, ◌||◌}
use databricks_ucx.Framework.Escape.{escape_sql_identifier}
use databricks_ucx.Exec.{
  Error, Result, ok, err, value_error, is_not_found, is_bad_request, Exec, pure, raise, try_except,
  ◌>>=◌,
}
use databricks_ucx.HiveMetastore.Tables.{Table}
use databricks_ucx.HiveMetastore.Mapping.{Rule, ucx_skip_property, current_tables}

-- str(x or "")
abbrev pub or_blank : Option String → String
or_blank none = ""
or_blank (some s) = s

-- What from_src_dst reads of the SDK's TableInfo and SchemaInfo.
pub record SourceTable : Type 0 where
  pub schema_name : Option String
  pub table_name : Option String

pub record TargetSchema : Type 0 where
  pub catalog_name : Option String
  pub name : Option String

-- Rule.from_src_dst
unfoldable pub from_src_dst : SourceTable → TargetSchema → Rule
from_src_dst src_table dst_schema = record {
  workspace_name = "workspace";
  catalog_name = or_blank dst_schema.catalog_name;
  src_schema = or_blank src_table.schema_name;
  dst_schema = or_blank dst_schema.name;
  src_table = or_blank src_table.table_name;
  dst_table = or_blank src_table.table_name;
}

-- except NotFound: ..., except BadRequest: ...: both are logged.
abbrev pub is_logged : Error → Bool
is_logged e = is_not_found e || is_bad_request e

unfoldable pub skip_table_sql : String → String → String
skip_table_sql schema table =
    "ALTER TABLE "
    ++ escape_sql_identifier schema true
    ++ "."
    ++ escape_sql_identifier table true
    ++ " SET TBLPROPERTIES('"
    ++ ucx_skip_property
    ++ "' = true)"

unfoldable pub skip_schema_sql : String → String
skip_schema_sql schema =
    "ALTER SCHEMA "
    ++ escape_sql_identifier schema true
    ++ " SET DBPROPERTIES('"
    ++ ucx_skip_property
    ++ "' = true)"

module _ {W : Type 0} (execute : String → Exec W (Unit {0})) where
  -- skip_table
  unfoldable pub skip_table : String → String → Exec W (Unit {0})
  unfolding skip_table_sql
  skip_table schema table = try_except is_logged (pure tt) (execute (skip_table_sql schema table))

  -- skip_schema
  unfoldable pub skip_schema : String → Exec W (Unit {0})
  unfolding skip_schema_sql
  skip_schema schema = try_except is_logged (pure tt) (execute (skip_schema_sql schema))

module _ {W : Type 0} (load_rules : Exec W (List Rule)) (save_rules : List Rule → Exec W String)
    (current : Exec W String) (as_identifier : String → String) where
  -- load
  unfoldable pub load : Exec W (List Rule)
  load = try_except is_not_found (raise value_error) load_rules

  abbrev save_current : Result (List Rule) → Exec W String
  save_current (ok rules) = save_rules rules
  save_current (err e) = raise e

  -- save, on the snapshot of the crawler: re.sub makes the name of the catalog
  unfoldable pub save : List Table → Exec W String
  unfolding current_tables
  save tables = current >>= λ workspace_name.
      save_current (current_tables tables workspace_name (as_identifier workspace_name))
