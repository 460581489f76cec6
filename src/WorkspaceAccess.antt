-- ===== src/WorkspaceAccess.antt =====
-- workspace_access/: the migration of workspace-local groups to account groups.
pub mod Groups
pub mod Supports
