-- ===== src/WorkspaceAccess/Supports.antt =====
-- workspace_access/generic.py and secrets.py: how an access control list is rewritten for the account
-- groups. What json.loads and the SDK read of a text is a parameter, and so is the workspace.
pub mod Generic
pub mod Secrets
pub mod Manager
pub mod Registry
pub mod Laws
use databricks_ucx.Prelude.{
  String, String_eq, Bool, true, false, List, Option, none, some, if◌then◌else◌,
}
use databricks_ucx.Text.{is_empty}
use databricks_ucx.Dict.{has}
use databricks_ucx.WorkspaceAccess.Groups.{MigrationState}

-- The row of the inventory of permissions.
pub record Permissions : Type 0 where
  pub object_id : String
  pub object_type : String
  pub raw : String

-- MigrationState.is_in_scope
unfoldable pub is_in_scope : MigrationState → Option String → Bool
is_in_scope s none = false
is_in_scope s (some name) = has name s.name_to_group
