-- ===== src/WorkspaceAccess/Supports/Secrets.antt =====
-- workspace_access/secrets.py: SecretScopesSupport. What json.loads and the SDK read of a text is a
-- parameter.
use databricks_ucx.Prelude.{
  String, String_eq, ◌==◌, Bool, not, List, [], ◌∷◌, map, Option, none, some, if◌then◌else◌, any,
  mem,
}
use databricks_ucx.Exec.{Result, ok, and_then}
use databricks_ucx.WorkspaceAccess.Groups.{MigratedGroup, MigrationState, get_target_principal}
use databricks_ucx.WorkspaceAccess.Supports.{Permissions, is_in_scope}

-- workspace.AclItem
pub record AclItem : Type 0 where
  pub principal : String
  pub permission : String

-- The loop of get_apply_task.
unfoldable pub new_acls : MigrationState → List AclItem → List AclItem
unfolding is_in_scope
new_acls s [] = []
new_acls s (acl ∷ acls) =
    let rest = new_acls s acls in
    if not (is_in_scope s (some acl.principal))
    then acl ∷ rest
    else (elim (get_target_principal s acl.principal) [
      | none ↦ rest
      | some target ↦ record { principal = target; permission = acl.permission } ∷ rest
    ])

-- The test of _is_item_relevant on the entries.
unfoldable pub mentions_group : MigrationState → List AclItem → Bool
unfolding any mem
mentions_group s acls =
    any
      (λ (g : MigratedGroup). mem g.name_in_workspace (map (λ (acl : AclItem). acl.principal) acls))
      s.groups

-- get_apply_task of the secrets: none, or the scope and the entries that the task applies
unfoldable pub get_secrets_task :
    (String → Result (List AclItem))
    → MigrationState
    → Permissions
    → Result (Option (String × List AclItem))
unfolding new_acls mentions_group
get_secrets_task decode s item = and_then (decode item.raw) λ acls.
    if not (mentions_group s acls) then ok none else ok (some (item.object_id, new_acls s acls))

-- secret_scope_permission, on the entries of the scope
unfoldable pub secret_scope_permission : List AclItem → String → Option String
secret_scope_permission [] group_name = none
secret_scope_permission (acl ∷ acls) group_name =
    let rest = secret_scope_permission acls group_name in
    if acl.principal == group_name then some acl.permission else rest
