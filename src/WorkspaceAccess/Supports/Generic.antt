-- ===== src/WorkspaceAccess/Supports/Generic.antt =====
-- workspace_access/generic.py: GenericPermissionsSupport. The permissions of a workspace object are
-- read and updated by the workspace client, a parameter, and the retries are left to it.
use mathlib.Core.List.{flat_map}
use databricks_ucx.Prelude.{
  String, String_eq, ◌==◌, Bool, true, false, not, ◌&&◌, ◌||◌, List, [], ◌∷◌, map, Option, none,
  some, if◌then◌else◌, filter, any,
}
use databricks_ucx.Text.{is_empty, set_text}
use databricks_ucx.Dict.{Dict, put}
use databricks_ucx.Exec.{
  Error, Result, ok, err, assertion_error, not_found, resource_does_not_exist, permission_denied,
  invalid_parameter_value, and_then, Exec, pure, raise, try_except, ◌>>=◌,
}
use databricks_ucx.WorkspaceAccess.Groups.{MigrationState, get_target_principal}
use databricks_ucx.WorkspaceAccess.Supports.{Permissions, is_in_scope}

-- What the program reads of iam.Permission; an absent flag is false.
pub record Permission : Type 0 where
  pub permission_level : Option String
  pub inherited : Bool

-- iam.AccessControlResponse; no permissions are the empty list.
pub record AccessControlResponse : Type 0 where
  pub group_name : Option String
  pub user_name : Option String
  pub service_principal_name : Option String
  pub all_permissions : List Permission

-- iam.ObjectPermissions
pub record ObjectPermissions : Type 0 where
  pub access_control_list : Option (List AccessControlResponse)

-- iam.AccessControlRequest
pub record AccessControlRequest : Type 0 where
  pub group_name : Option String
  pub permission_level : Option String
  pub service_principal_name : Option String
  pub user_name : Option String

abbrev pub or_no_list : Option (List AccessControlResponse) → List AccessControlResponse
or_no_list none = []
or_no_list (some acl) = acl

-- A permission of an entry for a group, as a request for the group of the account.
abbrev pub request_for : String → AccessControlResponse → Permission → AccessControlRequest
request_for new_group_name item permission = record {
  group_name = some new_group_name;
  permission_level = permission.permission_level;
  service_principal_name = item.service_principal_name;
  user_name = item.user_name;
}

abbrev pub is_direct : Permission → Bool
is_direct permission = not permission.inherited

-- The loop over the permissions of an entry.
abbrev pub requests_for : AccessControlResponse → Option String → List AccessControlRequest
requests_for item none = []
requests_for item (some new_group_name) =
    map (request_for new_group_name item) (filter is_direct item.all_permissions)

-- The body of the loop in _prepare_new_acl.
unfoldable pub requests_of : MigrationState → AccessControlResponse → List AccessControlRequest
unfolding is_empty filter is_in_scope
requests_of s item = elim (set_text item.group_name) [
  | none ↦ []
  | some group ↦
      if not (is_in_scope s (some group))
      then []
      else requests_for item (get_target_principal s group)
]

-- _prepare_new_acl
unfoldable pub prepare_new_acl : MigrationState → ObjectPermissions → List AccessControlRequest
unfolding requests_of
prepare_new_acl s permissions =
    flat_map (requests_of s) (or_no_list permissions.access_control_list)

-- The loop of _is_item_relevant.
unfoldable pub has_group_in_scope : MigrationState → List AccessControlResponse → Bool
unfolding any is_in_scope is_empty
has_group_in_scope s acl =
    any (λ (item : AccessControlResponse). is_in_scope s (set_text item.group_name)) acl

module _ (decode : String → Result ObjectPermissions) where
  abbrev is_relevant : MigrationState → ObjectPermissions → Result Bool
  is_relevant s permissions = elim permissions.access_control_list [
    | none ↦ err assertion_error
    | some acl ↦ ok (has_group_in_scope s acl)
  ]

  -- _is_item_relevant
  unfoldable pub is_item_relevant : MigrationState → Permissions → Result Bool
  unfolding has_group_in_scope
  is_item_relevant s item =
      if (item.object_id == "tokens") || (item.object_id == "passwords")
      then ok true
      else and_then (decode item.raw) (is_relevant s)

  -- get_apply_task: none, or the object and the list that the task applies
  unfoldable pub get_apply_task :
      MigrationState → Permissions → Result (Option (String × String × List AccessControlRequest))
  unfolding is_item_relevant prepare_new_acl
  get_apply_task s item = and_then (is_item_relevant s item) λ relevant.
      if not relevant
      then ok none
      else and_then (decode item.raw)
          λ permissions. ok (some (item.object_type, item.object_id, prepare_new_acl s permissions))

-- _response_to_request
unfoldable pub response_to_request : List AccessControlResponse → List AccessControlRequest
response_to_request = flat_map λ (acl : AccessControlResponse).
    map
      (λ (permission : Permission). record {
        group_name = acl.group_name;
        permission_level = permission.permission_level;
        service_principal_name = acl.service_principal_name;
        user_name = acl.user_name;
      })
      acl.all_permissions

abbrev is_level : Option String → String → Bool
is_level none wanted = false
is_level (some level) wanted = level == wanted

-- _object_have_owner
unfoldable pub object_have_owner : ObjectPermissions → Bool
unfolding any
object_have_owner permissions =
    any
      (λ (acl : AccessControlResponse).
        any (λ (p : Permission). is_level p.permission_level "IS_OWNER") acl.all_permissions)
      (or_no_list permissions.access_control_list)

abbrev pub option_eq : Option String → Option String → Bool
option_eq none none = true
option_eq (some s) (some t) = s == t
option_eq _ _ = false

-- AccessControlRequest is a dataclass: its equality is that of its fields.
unfoldable pub request_beq : AccessControlRequest → AccessControlRequest → Bool
request_beq a b =
    option_eq a.group_name b.group_name
    && option_eq a.permission_level b.permission_level
    && option_eq a.service_principal_name b.service_principal_name
    && option_eq a.user_name b.user_name

-- all(elem in remote for elem in acl)
unfoldable pub all_applied : List AccessControlRequest → List AccessControlRequest → Bool
unfolding any request_beq
all_applied remote [] = true
all_applied remote (elem ∷ acl) = any (request_beq elem) remote && all_applied remote acl

-- The three classes that _safe_get_permissions and _safe_update_permissions log.
abbrev pub is_removed : Error → Bool
is_removed permission_denied = true
is_removed not_found = true
is_removed resource_does_not_exist = true
is_removed invalid_parameter_value = true
is_removed _ = false

-- _key_for_acl_dict
unfoldable pub key_for_acl_dict : AccessControlRequest → String
key_for_acl_dict acl = elim acl.group_name [
  | some group ↦ group
  | none ↦ elim acl.user_name [
    | some user ↦ user
    | none ↦ elim acl.service_principal_name [ some principal ↦ principal | none ↦ "UNKNOWN" ]
  ]
]

-- The direct permissions of _load_as_request, before they are sorted.
unfoldable pub direct_requests : ObjectPermissions → List AccessControlRequest
unfolding filter
direct_requests loaded =
    flat_map
      (λ (acl : AccessControlResponse).
        map
          (λ (permission : Permission). record {
            group_name = acl.group_name;
            permission_level = permission.permission_level;
            service_principal_name = acl.service_principal_name;
            user_name = acl.user_name;
          })
          (filter is_direct acl.all_permissions))
      (or_no_list loaded.access_control_list)

-- The loop of load_as_dict, on the sorted list.
unfoldable pub as_dict : Dict String String → List AccessControlRequest → Dict String String
unfolding key_for_acl_dict put
as_dict result [] = result
as_dict result (acl ∷ acls) = elim acl.permission_level [
  | none ↦ as_dict result acls
  | some level ↦ as_dict (put (key_for_acl_dict acl) level result) acls
]

module _ {W : Type 0} (get_permissions : String → String → Exec W ObjectPermissions)
    (encode : ObjectPermissions → String) where
  -- _safe_get_permissions
  unfoldable pub safe_get_permissions : String → String → Exec W (Option ObjectPermissions)
  safe_get_permissions object_type object_id =
      try_except is_removed (pure none)
        (get_permissions object_type object_id >>= λ permissions. pure (some permissions))

  abbrev check_applied : List AccessControlRequest → Option ObjectPermissions → Exec W Bool
  check_applied acl none = pure false
  check_applied acl (some remote) =
      elim (all_applied (response_to_request (or_no_list remote.access_control_list)) acl) [
        | true ↦ pure true
        | false ↦ raise not_found
      ]

  -- _verify
  unfoldable pub verify : String → String → List AccessControlRequest → Exec W Bool
  unfolding safe_get_permissions all_applied response_to_request
  verify object_type object_id acl =
      safe_get_permissions object_type object_id >>= check_applied acl

  abbrev crawled_permissions : String → String → Option ObjectPermissions → Option Permissions
  crawled_permissions object_type object_id none = none
  crawled_permissions object_type object_id (some permissions) =
      if not (object_have_owner permissions)
        && ((object_type == "jobs") || (object_type == "pipelines"))
      then none
      else some
          (record { object_id = object_id; object_type = object_type; raw = encode permissions })

  -- _crawler_task
  unfoldable pub crawler_task : String → String → Exec W (Option Permissions)
  unfolding safe_get_permissions object_have_owner
  crawler_task object_type object_id = safe_get_permissions object_type object_id >>= λ permissions.
      pure (crawled_permissions object_type object_id permissions)
