-- ===== src/Tests/MigrateSamples.antt =====
-- Samples for hive_metastore/table_migrate.py: a backend that keeps the statements it is sent.
use mathlib.Core.List.{Memᴰ}
use databricks_ucx.Prelude.{
  String, String_eq, Bool, true, false, List, [], ◌∷◌, ◌++◌, none, some, ◌≡◌, ◌↔◌, ◌≢◌, ap, arith,
  refl, any, filter, mem,
}
use databricks_ucx.Text.{lower, join_dot, is_empty}
use databricks_ucx.Dict.{Dict, get, has, put, values}
use databricks_ucx.Exec.{Result, ok, pure}
use databricks_ucx.HiveMetastore.Tables.{
  Table, What, what, dbfs_root_delta, legacy_tacl, is_databricks_dataset, is_dbfs_root,
  dbfs_root_by, key, kind, external_sync,
}
use databricks_ucx.HiveMetastore.Mapping.{Rule, TableToMigrate, as_uc_table_key}
use databricks_ucx.HiveMetastore.Grants.{Grant, uc_grant_sql_on}
use databricks_ucx.HiveMetastore.Grants.Cluster.{on_table}
use databricks_ucx.HiveMetastore.MigrationStatus.Refresher.{
  SchemaInfo, TableInfo, get_seen_tables, iter_schemas, seen_in, see_tables, see_table,
}
use databricks_ucx.HiveMetastore.MigrationStatus.Seen.{get_seen_tables-lower}
use databricks_ucx.HiveMetastore.TableMigrate.{MigrateApi}
use databricks_ucx.HiveMetastore.TableMigrate.Acl.{acl_statements, compute_grants}
use databricks_ucx.HiveMetastore.TableMigrate.Acl.Laws.{IsCarried, renamed, acl_statements_iff}
use databricks_ucx.HiveMetastore.TableMigrate.Migrate.{migrate_table}
use databricks_ucx.HiveMetastore.TableMigrate.Revert.{
  MigrationCount, revert_tasks, get_revert_count, get_tables_to_revert, is_to_revert, by_database,
  count_groups, what_counts, count_table,
}
use databricks_ucx.HiveMetastore.TableMigrate.Revert.Laws.{IsRevertOf, revert_tasks-IsRevertOf}
use databricks_ucx.HiveMetastore.TableMigrate.Revert.Counts.{
  report_total, count_upgraded, report_total-get_revert_count,
}
use databricks_ucx.HiveMetastore.TableMigrate.Trace.{Sends, Sends-nil, IsLogged}
use databricks_ucx.HiveMetastore.TableMigrate.Trace.Statements.{Executes}
use databricks_ucx.HiveMetastore.TableMigrate.Trace.Refines.{migrate_table-Executes}
use databricks_ucx.HiveMetastore.TableMigrate.Trace.Works.{
  IsWorking, IsMigrated, migrate_table-IsMigrated,
}
use databricks_ucx.HiveMetastore.TableMigrate.Trace.Caught.{IsCaught, migrate_table-IsCaught}
use databricks_ucx.WorkspaceAccess.Groups.{MigratedGroup}
use databricks_ucx.Tests.TableSamples.{root_table, root_table-what}

abbrev World : Type 0
World = List String

abbrev keep_replace : String → String → String → String
keep_replace s old new = s

abbrev recording : MigrateApi World
recording = record {
  execute = λ sql w. (ok tt, w ++ sql ∷ []);
  fetch_sync = λ sql w. (ok "SUCCESS", w ++ sql ∷ []);
  describe = λ t. pure [];
  show_create = λ t rule location. pure none;
  workspace_id = pure "42";
  index = pure [];
  index_full_refresh = pure [];
  view_sql = λ t rule index. pure "";
  replace = keep_replace;
}

abbrev log_of : World → List String
log_of w = w

recording-IsLogged : IsLogged recording log_of
recording-IsLogged = record {
  logs_execute = λ sql w. record { sends = refl };
  logs_sync = λ sql w. record { sends = refl };
  keeps_workspace_id = λ w. Sends-nil log_of refl;
  keeps_describe = λ t w. Sends-nil log_of refl;
  keeps_show_create = λ t rule location w. Sends-nil log_of refl;
}

recording-IsWorking : IsWorking recording
recording-IsWorking = record {
  executes = λ sql w. refl;
  synchronizes = λ sql w. refl;
  ws_id = "42";
  answers = λ w. refl;
}

abbrev to_catalog : Rule
to_catalog = record {
  workspace_name = "ws";
  catalog_name = "main";
  src_schema = "db";
  dst_schema = "db";
  src_table = "t";
  dst_table = "t";
}

abbrev to_migrate : TableToMigrate
to_migrate = record { src = root_table; rule = to_catalog }

abbrev no_tables : Dict String String
no_tables = []

abbrev select_grant : Grant
select_grant = record { principal = "me"; action_type = "SELECT"; keys = on_table root_table }

unseen : has (as_uc_table_key to_catalog) no_tables ≡ false
unfolding get
unseen = refl

migrate_table-IsMigrated_example :
    IsMigrated recording log_of [] to_migrate
      (select_grant ∷ [])
      dbfs_root_delta
      []
      (migrate_table recording no_tables to_migrate (select_grant ∷ []) [] false [])
migrate_table-IsMigrated_example =
    migrate_table-IsMigrated recording log_of [] recording-IsWorking recording-IsLogged no_tables
      to_migrate (select_grant ∷ []) [] root_table-what refl unseen

returned_true :
    (migrate_table recording no_tables to_migrate (select_grant ∷ []) [] false [])
    ≡ (ok true, (migrate_table recording no_tables to_migrate (select_grant ∷ []) [] false []).1)
returned_true =
    ap
      (λ (r : Result Bool).
        (r, (migrate_table recording no_tables to_migrate (select_grant ∷ []) [] false []).1))
      (migrate_table-IsMigrated recording log_of [] recording-IsWorking recording-IsLogged no_tables
        to_migrate (select_grant ∷ []) [] root_table-what refl unseen).returned

migrate_table-Executes_example :
    (v : What) × (statements : List String) × (what root_table ≡ ok v)
    × Executes recording root_table to_catalog (select_grant ∷ []) [] v false statements
    × Sends log_of []
        (migrate_table recording no_tables to_migrate (select_grant ∷ []) [] false []).1
        statements
migrate_table-Executes_example =
    migrate_table-Executes recording log_of recording-IsLogged no_tables to_migrate
      (select_grant ∷ []) [] false [] unseen returned_true

root_table-not_sync : what root_table ≢ ok external_sync
root_table-not_sync h = ground (root_table-what, h, arith)

migrate_table-IsCaught_example :
    IsCaught (migrate_table recording no_tables to_migrate (select_grant ∷ []) [] false)
migrate_table-IsCaught_example =
    migrate_table-IsCaught recording no_tables to_migrate (select_grant ∷ []) [] root_table-not_sync

abbrev renaming : List MigratedGroup
renaming = []

acl_statements_iff_example :
    Memᴰ "GRANT SELECT ON TABLE main.db.t TO `me`" (
      acl_statements root_table to_catalog
        (compute_grants root_table (legacy_tacl ∷ []) (select_grant ∷ []) [] renaming))
    ↔ ((g : Grant) × IsCarried root_table (legacy_tacl ∷ []) (select_grant ∷ []) [] g
        × (uc_grant_sql_on (renamed renaming g) (kind root_table) (as_uc_table_key to_catalog)
            ≡ some "GRANT SELECT ON TABLE main.db.t TO `me`"))
acl_statements_iff_example =
    acl_statements_iff root_table renaming (legacy_tacl ∷ []) (select_grant ∷ []) [] to_catalog
      "GRANT SELECT ON TABLE main.db.t TO `me`"

abbrev seen_root : Dict String String
seen_root = ("main.db.t", "hive_metastore.db.t") ∷ []

abbrev upgraded_table : Table
upgraded_table = record root_table { object_type = "EXTERNAL"; upgraded_to = some "main.db.t" }

revert_tasks-IsRevertOf_example :
    (tasks : List (Table × String)) × (revert_tasks seen_root
        (upgraded_table ∷ [])
        (some "DB")
        none
        false
      ≡ ok tasks)
    × IsRevertOf seen_root (upgraded_table ∷ []) (some "DB") none false tasks
revert_tasks-IsRevertOf_example =
    revert_tasks-IsRevertOf seen_root (upgraded_table ∷ []) (some "DB") none false

abbrev one_count : List MigrationCount
one_count = record { database = "db"; what_count = (dbfs_root_delta, 1) ∷ [] } ∷ []

counted_root : get_revert_count seen_root (upgraded_table ∷ []) none none ≡ ok one_count
unfolding get_revert_count get_tables_to_revert is_to_revert filter mem values by_database get put
    count_groups what_counts count_table what is_databricks_dataset is_dbfs_root dbfs_root_by
    is_empty any key lower join_dot
counted_root = refl

report_total-get_revert_count_example :
    report_total one_count
    ≡ count_upgraded (get_tables_to_revert seen_root (upgraded_table ∷ []) none none)
report_total-get_revert_count_example =
    report_total-get_revert_count seen_root (upgraded_table ∷ []) none none counted_root

abbrev main_schema : SchemaInfo
main_schema = record { catalog_name = "main"; schema_name = "db" }

abbrev migrated_info : TableInfo
migrated_info = record {
  full_name = some "main.db.T";
  properties = ("upgraded_from", "hive_metastore.db.t") ∷ [];
}

abbrev list_schemas : String → Result (List SchemaInfo)
list_schemas catalog = ok (main_schema ∷ [])

abbrev list_tables : SchemaInfo → Result (List TableInfo)
list_tables schema = ok (migrated_info ∷ [])

seen_of_main :
    get_seen_tables ("main" ∷ []) list_schemas list_tables
    ≡ ok (("main.db.t", "hive_metastore.db.t") ∷ [])
unfolding get_seen_tables iter_schemas seen_in see_tables see_table get put lower is_empty
seen_of_main = refl

target_seen : has "main.db.t" seen_root ≡ true
unfolding get
target_seen = refl

get_seen_tables-lower_example : lower "main.db.t" ≡ "main.db.t"
get_seen_tables-lower_example =
    get_seen_tables-lower ("main" ∷ []) list_schemas list_tables seen_root "main.db.t" seen_of_main
      target_seen
