-- ===== src/HiveMetastore/MigrationStatus.antt =====
-- hive_metastore/migration_status.py: which tables have been migrated, and where to.
pub mod Refresher
pub mod Laws
pub mod Seen
use databricks_ucx.Prelude.{
  String, String_eq, pair_eq, Bool, true, false, List, map, Option, none, some, if◌then◌else◌,
  is_some, ◌∷◌, [],
}
use databricks_ucx.Text.{lower, is_empty, join_dot}
use databricks_ucx.Dict.{Dict, get, of_pairs}

pub record MigrationStatus : Type 0 where
  pub src_schema : String
  pub src_table : String
  pub dst_catalog : Option String
  pub dst_schema : Option String
  pub dst_table : Option String
  pub update_ts : Option String

-- How an f-string shows a text that may be None.
abbrev pub shown : Option String → String
shown none = "None"
shown (some s) = s

unfoldable pub destination : MigrationStatus → String
unfolding lower join_dot
destination ms =
    lower (join_dot (shown ms.dst_catalog ∷ shown ms.dst_schema ∷ shown ms.dst_table ∷ []))

pub record TableView : Type 0 where
  pub catalog : String
  pub schema : String
  pub name : String

-- TableView.key
unfoldable pub view_key : TableView → String
view_key v = lower (join_dot (v.catalog ∷ v.schema ∷ v.name ∷ []))

-- The constructor's argument and the dictionary that MigrationIndex keeps.
abbrev pub MigrationIndex : Type 0
MigrationIndex = Dict (String × String) MigrationStatus

unfoldable pub index_of : List MigrationStatus → MigrationIndex
index_of tables = of_pairs (map (λ ms. ((ms.src_schema, ms.src_table), ms)) tables)

-- Neither None nor "".
abbrev pub is_set : Option String → Bool
is_set none = false
is_set (some s) = if is_empty s then false else true

abbrev pub if_has_target : Option MigrationStatus → Option MigrationStatus
if_has_target none = none
if_has_target (some ms) = if is_set ms.dst_table then some ms else none

-- MigrationIndex.get
unfoldable pub get_status : MigrationIndex → String → String → Option MigrationStatus
get_status index schema table = if_has_target (get (lower schema, lower table) index)

-- MigrationIndex.is_migrated
unfoldable pub is_migrated : MigrationIndex → String → String → Bool
unfolding get_status
is_migrated index schema table = is_some (get_status index schema table)
