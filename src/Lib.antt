-- ===== src/Lib.antt =====
-- ucx, the toolkit for the upgrade of a Databricks workspace to Unity Catalog: a model of its core
-- in Python, and the theorems about it. The paths below start at src/databricks/labs/ucx.
--
-- The parts and how they interact. A crawler keeps a snapshot of what it found in an inventory
-- table (framework/crawlers.py). The tables of the Hive metastore are classed by where and how they
-- are stored (hive_metastore/tables.py), a mapping says where each table goes and which tables are
-- in the scope of the migration (hive_metastore/mapping.py), a refresher keeps which tables have
-- been migrated (hive_metastore/migration_status.py), and views are migrated in batches, after what
-- they depend on (hive_metastore/view_migrate.py). A migrator copies, clones or synchronizes each
-- table in scope, marks both sides, carries its grants over and can revert it
-- (hive_metastore/table_migrate.py); tables of Unity Catalog are moved to other schemas
-- (hive_metastore/table_move.py). The storage that the tables lie in is counted by external
-- location and matched with what Unity Catalog has, and tables are looked for below the mount
-- points (hive_metastore/locations.py). The users of interactive clusters are granted what their
-- clusters could read and write (hive_metastore/grants.py). Workspace-local groups are matched with
-- account groups, renamed, replaced and deleted, and their permissions are moved
-- (workspace_access/groups.py); the access control lists of objects and secret scopes are rewritten
-- for the account groups (workspace_access/generic.py, workspace_access/secrets.py).
--
-- Which file models which part:
-- - Prelude, Text, Dict and Exec: Python's tests, lists, texts, dictionaries and exceptions. lower
--   and upper change the letters A-Z and a-z only, where Python's change those of other alphabets
--   too. A dictionary is the list of its items in the order of insertion. An action on the world
--   outside takes a state and returns a result, a value or the class of an exception, with the
--   state after it.
-- - Framework/Escape: escape_sql_identifier of framework/utils.py; Framework/Crawler:
--   CrawlerBase.__init__, full_name, reset, _valid, _try_valid and _snapshot.
-- - HiveMetastore/Tables: Table and its properties, with the statements that it builds in
--   Tables/Sql and the serde types in Tables/Serde.
-- - HiveMetastore/MigrationStatus: MigrationStatus, TableView and MigrationIndex; Refresher has
--   get_seen_tables, is_migrated (any_property) and _crawl.
-- - HiveMetastore/Mapping: Rule and TableToMigrate; Scope has exists_in_uc,
--   _get_table_in_scope_task and _get_database_in_scope_task; Select has get_tables_to_migrate;
--   Skip has skip_table, skip_schema, save, load and from_src_dst.
-- - HiveMetastore/Views: ViewToMigrate and _view_dependencies; Sequencer has sequence_batches,
--   _next_batch and _check_circular_dependency.
-- - HiveMetastore/Grants: Grant with type_and_key and its statements (hive_metastore/grants.py);
--   Cluster has PrincipalACL._get_privilege, _get_grants, get_interactive_cluster_grants and
--   resolve_mount of hive_metastore/locations.py; Eligible has
--   AwsACL.get_eligible_locations_principals, and Listing has GrantsCrawler.grants and the instance
--   profiles of the clusters.
-- - HiveMetastore/TableMigrate: TablesMigrator of hive_metastore/table_migrate.py. Acl has
--   _match_grants, _compute_grants and _migrate_acl; Migrate has _migrate_table, _migrate_view and
--   what they call; Batches has migrate_tables, _migrate_tables and _migrate_views; Revert has
--   revert_migrated_tables and _get_revert_count; Trace is about the statements that are sent.
-- - HiveMetastore/TableMove: move (TableMove.move) and alias_tables; Recreate has _move_table,
--   _alias_table, _move_view, _recreate_table and _reapply_grants; Regrant and Alias are about the
--   grants of an alias.
-- - HiveMetastore/Locations: _external_locations with _dbfs_locations and _add_jdbc_location;
--   Matching has match_table_external_locations, _match_existing and _get_ext_location_definitions,
--   Mounts has _deduplicate_mounts, and InMounts has TablesInMounts.
-- - WorkspaceAccess/Groups: MigratedGroup and MigrationState; Strategy has the four strategies of
--   generate_migrated_groups, Manager the operations of GroupManager, and Permissions the loops of
--   _apply_to_groups.
-- - WorkspaceAccess/Supports: Generic has GenericPermissionsSupport (_prepare_new_acl,
--   get_apply_task, _verify, _crawler_task), Secrets the rewriting of SecretScopesSupport, and
--   Manager has PermissionManager.object_type_support and apply_group_permissions
--   (workspace_access/manager.py), of which Registry is about the supports.
-- - Tests: small inputs.
--
-- Fuel. _check_circular_dependency need not end, and so check_circular takes fuel; where the
-- references of every view cost no more than the fuel, by a cost that falls along every reference
-- of a view of the set, it does not run out. sequence_batches takes as many rounds as there are
-- views, since each round takes a view away. The `while True` loop over the pages of permissions
-- takes fuel, and one more than the permissions that are left on a group is enough, whether the
-- calls return or raise. The search for tables below a mount takes as fuel the depth of the calls,
-- and one more than the rank of the mount point is enough where a rank falls from a directory to
-- what it lists.
--
-- Parameters. The SQL backend, the workspace client with the retries around it, Threads.strict and
-- Threads.gather, the regular expressions of `re`, json.dumps, json.loads with the SDK's from_dict,
-- str.replace, os.path and the parser of sqlglot are parameters; records name what the program
-- relies on of them (Inventory, StrictLaws, Migrates, IsLogged, IsWorking, IsTree, IsMoveLog,
-- IsGrantLog). The iteration order of a Python set is left open: a set of views is a list in any
-- order.
--
-- Not modelled in what is modelled: the listing of schemas is complete before their tables are
-- listed, where get_seen_tables interleaves both and keeps the schemas that came before a NotFound,
-- and the listing of catalogs does not raise; the fetch of is_migrated does not raise; an account
-- group without a display name is sorted as one with the empty name, where Python raises a
-- TypeError. The dictionary that get_eligible_locations_principals stores for every cluster is an
-- object in a store, so that its later changes are seen under all of its references; elsewhere no
-- result depends on sharing.
--
-- Not modelled: the linters, which walk syntax trees of other libraries, the installer, the
-- dashboards, the wiring of the components and the command line, and the texts of log messages. Of
-- groups.py, validate_group_membership and ConfigureGroups; of grants.py, the tasks of the crawler,
-- AzureACL and apply_location_acl; of tables.py, the crawler and the statements that rewrite a
-- parsed DDL; of table_migrate.py, the printed report of the revert; of generic.py, the listings
-- and the retries of an update; of secrets.py, the writing of the entries; of manager.py, the
-- inventory and its verification; of the other permission supports, everything.
pub mod Prelude
pub mod Text
pub mod Dict
pub mod Exec
pub mod Framework
pub mod HiveMetastore
pub mod WorkspaceAccess
pub mod Tests
