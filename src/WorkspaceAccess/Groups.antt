-- ===== src/WorkspaceAccess/Groups.antt =====
-- workspace_access/groups.py: groups, migrated groups and the migration state. An absent display
-- name of a group is "": the code only asks whether there is one. The entries of `members`, `roles`
-- and `entitlements` are of a type `C` of the SDK, and an absent list is empty.
pub mod Strategy
pub mod Manager
pub mod Permissions
use databricks_ucx.Prelude.{String, String_eq, List, map, Option, none, some, is_some}
use databricks_ucx.Dict.{Dict, get, has, of_pairs}

pub record Group (C : Type 0) : Type 0 where
  pub id : String
  pub display_name : String
  pub external_id : Option String
  -- meta.resource_type, where the group has a meta
  pub meta : Option (Option String)
  pub members : List C
  pub roles : List C
  pub entitlements : List C

pub record MigratedGroup : Type 0 where
  pub id_in_workspace : String
  pub name_in_workspace : String
  pub name_in_account : String
  pub temporary_name : String
  pub members : Option String
  pub entitlements : Option String
  pub external_id : Option String
  pub roles : Option String

pub record MigrationState : Type 0 where
  pub name_to_group : Dict String MigratedGroup
  pub id_to_group : Dict String MigratedGroup
  pub groups : List MigratedGroup

-- MigrationState.__init__
unfoldable pub migration_state : List MigratedGroup → MigrationState
unfolding of_pairs
migration_state gs = record {
  name_to_group = of_pairs (map (λ (g : MigratedGroup). (g.name_in_workspace, g)) gs);
  id_to_group = of_pairs (map (λ (g : MigratedGroup). (g.id_in_workspace, g)) gs);
  groups = gs;
}

unfoldable pub get_target_principal : MigrationState → String → Option String
get_target_principal s name = elim (get name s.name_to_group) [
  | none ↦ none
  | some g ↦ some g.name_in_account
]

unfoldable pub get_temp_principal : MigrationState → String → Option String
get_temp_principal s name = elim (get name s.name_to_group) [
  | none ↦ none
  | some g ↦ some g.temporary_name
]
