-- ===== src/Tests/SupportSamples.antt =====
-- Samples for workspace_access/generic.py, secrets.py and manager.py.
use mathlib.Core.List.{Memᴰ, flat_map}
use databricks_ucx.Prelude.{String, String_eq, false, [], ◌∷◌, map, none, some, ◌≡◌, ◌↔◌, refl, any}
use databricks_ucx.Text.{is_empty}
use databricks_ucx.Dict.{get, of_pairs, update, put, Dict}
use databricks_ucx.Exec.{Result, ok}
use databricks_ucx.WorkspaceAccess.Groups.{
  MigratedGroup, MigrationState, migration_state, get_target_principal,
}
use databricks_ucx.WorkspaceAccess.Supports.{Permissions, is_in_scope}
use databricks_ucx.WorkspaceAccess.Supports.Generic.{
  Permission, AccessControlResponse, ObjectPermissions, AccessControlRequest, or_no_list,
  request_for, prepare_new_acl, get_apply_task, is_item_relevant, has_group_in_scope,
}
use databricks_ucx.WorkspaceAccess.Supports.Secrets.{AclItem, new_acls}
use databricks_ucx.WorkspaceAccess.Supports.Laws.{
  IsMigratedEntry, prepare_new_acl_iff, get_apply_task-none, renamed, new_acls-map,
}
use databricks_ucx.WorkspaceAccess.Supports.Manager.{
  AclSupport, register, register_all, object_type_support,
}
use databricks_ucx.WorkspaceAccess.Supports.Registry.{IsNamed, object_type_support_iff}

abbrev moved : MigratedGroup
moved = record {
  id_in_workspace = "1";
  name_in_workspace = "data";
  name_in_account = "account-data";
  temporary_name = "tmp-data";
  members = none;
  entitlements = none;
  external_id = none;
  roles = none;
}

abbrev one_group : MigrationState
one_group = migration_state (moved ∷ [])

abbrev entry_for : String → AccessControlResponse
entry_for group = record {
  group_name = some group;
  user_name = none;
  service_principal_name = none;
  all_permissions = record { permission_level = some "CAN_USE"; inherited = false } ∷ [];
}

abbrev permissions_of : String → ObjectPermissions
permissions_of group = record { access_control_list = some (entry_for group ∷ []) }

abbrev wanted : AccessControlRequest
wanted = record {
  group_name = some "account-data";
  permission_level = some "CAN_USE";
  service_principal_name = none;
  user_name = none;
}

prepare_new_acl_iff_example : Memᴰ wanted (prepare_new_acl one_group (permissions_of "data")) ↔ (
    (item : AccessControlResponse) × (m : MigratedGroup) × (p : Permission) × Memᴰ item
      (or_no_list (permissions_of "data").access_control_list)
    × IsMigratedEntry one_group item m
    × Memᴰ p item.all_permissions
    × (p.inherited ≡ false)
    × (wanted ≡ request_for m.name_in_account item p))
prepare_new_acl_iff_example = prepare_new_acl_iff one_group (permissions_of "data") wanted

wanted_only : prepare_new_acl one_group (permissions_of "data") ≡ wanted ∷ []
unfolding prepare_new_acl flat_map migration_state of_pairs update put get get_target_principal
wanted_only = refl

abbrev decode_other : String → Result ObjectPermissions
decode_other raw = ok (permissions_of "other")

abbrev cluster_item : Permissions
cluster_item = record { object_id = "c1"; object_type = "clusters"; raw = "{}" }

other_skipped : get_apply_task decode_other one_group cluster_item ≡ ok none
unfolding get_apply_task is_item_relevant has_group_in_scope any is_in_scope is_empty
    migration_state of_pairs update put get
other_skipped = refl

get_apply_task-none_example : prepare_new_acl one_group (permissions_of "other") ≡ []
get_apply_task-none_example =
    get_apply_task-none decode_other one_group cluster_item (permissions_of "other") refl
      other_skipped

abbrev acl_of : String → AclItem
acl_of principal = record { principal = principal; permission = "READ" }

new_acls-map_example :
    new_acls one_group (acl_of "data" ∷ acl_of "me" ∷ [])
    ≡ map (renamed one_group) (acl_of "data" ∷ acl_of "me" ∷ [])
new_acls-map_example = new_acls-map one_group (acl_of "data" ∷ acl_of "me" ∷ [])

abbrev jobs_support : AclSupport String
jobs_support = record {
  object_types = "jobs" ∷ "clusters" ∷ [];
  apply_task = λ item. ok (some item.object_id);
}

abbrev with_jobs : Dict String (AclSupport String)
with_jobs = ("jobs", jobs_support) ∷ ("clusters", jobs_support) ∷ []

registered : object_type_support (jobs_support ∷ []) ≡ ok with_jobs
unfolding object_type_support register_all register get put
registered = refl

object_type_support_iff_example :
    (get "jobs" with_jobs ≡ some jobs_support) ↔ IsNamed "jobs" jobs_support (jobs_support ∷ [])
object_type_support_iff_example =
    object_type_support_iff (jobs_support ∷ []) "jobs" jobs_support registered
