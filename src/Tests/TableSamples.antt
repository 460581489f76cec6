-- ===== src/Tests/TableSamples.antt =====
-- Samples for hive_metastore/tables.py and hive_metastore/migration_status.py.
use databricks_ucx.Prelude.{
  String, String_eq, true, false, List, [], ◌∷◌, none, some, ◌≡◌, ◌≢◌, ◌↔◌, refl, any, pair_eq,
  ◌==◌,
}
use databricks_ucx.Text.{is_dot, lower, join_dot, is_empty, split_dots, upper}
use databricks_ucx.Exec.{ok, err, attribute_error}
use databricks_ucx.Dict.{Dict, get, of_pairs, update, put}
use databricks_ucx.HiveMetastore.Tables.{
  Table, key, what, external_sync, dbfs_root_delta, dbfs_root_non_delta, view, db_dataset, unknown,
  is_dbfs_root, is_databricks_dataset, is_view, is_format_supported_for_sync, dbfs_root_by,
  external_hiveserde, external_no_sync,
}
use databricks_ucx.HiveMetastore.Tables.Laws.{what_total, what_iff, IsElsewhere, IsUnsupported}
use databricks_ucx.HiveMetastore.MigrationStatus.{
  MigrationStatus, index_of, get_status, destination,
}
use databricks_ucx.HiveMetastore.MigrationStatus.Refresher.{status_of, any_property, with_target}
use databricks_ucx.HiveMetastore.MigrationStatus.Laws.{destination-status_of}

abbrev pub root_table : Table
root_table = record {
  catalog = "hive_metastore";
  database = "db";
  name = "t";
  object_type = "MANAGED";
  table_format = some "DELTA";
  location = some "dbfs:/user/hive/t";
  view_text = none;
  upgraded_to = none;
  storage_properties = none;
  is_partitioned = false;
}

root_table-is_dbfs_root : is_dbfs_root root_table ≡ true
unfolding is_dbfs_root dbfs_root_by is_empty any
root_table-is_dbfs_root = refl

pub root_table-what : what root_table ≡ ok dbfs_root_delta
unfolding what is_databricks_dataset is_dbfs_root dbfs_root_by is_empty any
root_table-what = refl

what_total_example :
    what root_table ≢ ok unknown
    × ((what root_table ≡ err attribute_error) ↔ (
        IsElsewhere root_table × (is_view root_table ≡ false) × (root_table.table_format ≡ none)))
what_total_example = what_total root_table

what_iff_example :
    ((what root_table ≡ ok db_dataset) ↔ (is_databricks_dataset root_table ≡ true))
    × ((what root_table ≡ ok dbfs_root_delta)
        ↔ ((is_dbfs_root root_table ≡ true) × (root_table.table_format ≡ some "DELTA")))
    × ((what root_table ≡ ok dbfs_root_non_delta)
        ↔ ((is_dbfs_root root_table ≡ true) × (root_table.table_format ≢ some "DELTA")))
    × ((what root_table ≡ ok view) ↔ (IsElsewhere root_table × (is_view root_table ≡ true)))
    × ((what root_table ≡ ok external_sync) ↔ (
        IsElsewhere root_table
        × (is_view root_table ≡ false)
        × (is_format_supported_for_sync root_table ≡ true)))
    × ((what root_table ≡ ok external_hiveserde) ↔ (
        IsElsewhere root_table
        × ((f : String) × IsUnsupported root_table f × ((upper f == "HIVE") ≡ true))))
    × ((what root_table ≡ ok external_no_sync) ↔ (
        IsElsewhere root_table
        × ((f : String) × IsUnsupported root_table f × ((upper f == "HIVE") ≡ false))))
what_iff_example = what_iff root_table

abbrev migrated_status : MigrationStatus
migrated_status = record {
  src_schema = "db";
  src_table = "t";
  dst_catalog = some "main";
  dst_schema = some "db";
  dst_table = some "t";
  update_ts = some "0";
}

status_found : get_status (index_of (migrated_status ∷ [])) "DB" "T" ≡ some migrated_status
unfolding get_status index_of of_pairs update put get lower is_empty
status_found = refl

abbrev upgraded : Dict String String
upgraded = ("hive_metastore.db.t", "Main.db.t") ∷ []

abbrev set_properties : String → String → List String
set_properties schema name = "main.db.t" ∷ []

root_table-status : (status_of upgraded set_properties "0" root_table).dst_catalog ≡ some "Main"
unfolding status_of get key lower join_dot any_property with_target split_dots is_dot
root_table-status = refl

destination-status_of_example :
    (target : String) × (get (key root_table) upgraded ≡ some target)
    × (any_property (set_properties (lower "db") (lower "t")) ≡ true)
    × (destination (status_of upgraded set_properties "0" root_table) ≡ lower target)
destination-status_of_example =
    destination-status_of upgraded set_properties "0" root_table "Main" root_table-status
