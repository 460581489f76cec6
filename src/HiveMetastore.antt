-- ===== src/HiveMetastore.antt =====
-- hive_metastore/: the inventory of tables and views, the mapping to Unity Catalog, the migration.
pub mod Tables
pub mod MigrationStatus
pub mod Mapping
pub mod Views
pub mod Grants
pub mod TableMigrate
pub mod Locations
pub mod TableMove
