-- ===== src/WorkspaceAccess/Groups/Permissions.antt =====
-- workspace_access/groups.py: `MigrationState._apply_to_groups`. The workspace's
-- `migrate_permissions` is a parameter; it returns how many permissions it moved. The `while True`
-- loop runs on fuel, and `none` is a loop that ran out.
pub mod Laws
use databricks_ucx.Prelude.{
  ℕ, zero, suc, ◌+◌, ◌≤◌, String, Bool, true, false, List, [], ◌∷◌, Option, none, some, ◌≡◌, refl,
  if◌then◌else◌, nat_eq, arith, length, Bool-cases, inl, inr,
}
use databricks_ucx.Exec.{Result, ok, err}
use databricks_ucx.WorkspaceAccess.Groups.{MigratedGroup, MigrationState}
use databricks_ucx.Dict.{Dict}

-- A step of the workspace, and a call that may not return.
abbrev pub Call : Type 0 → Type 0
Call W = W → Result ℕ × W

abbrev pub Loop : Type 0 → Type 0
Loop W = W → Option (Result ℕ × W)

abbrev pub batch_size : ℕ
batch_size = 1000

module _ {W : Type 0} (migrate_permissions : String → String → ℕ → Call W) where
  abbrev pub more_of : (ℕ → Loop W) → ℕ → Result ℕ × W → Option (Result ℕ × W)
  more_of again migrated (err e, w) = some (err e, w)
  more_of again migrated (ok moved, w) =
      if nat_eq moved 0 then some (ok migrated, w) else again (migrated + moved) w

  -- The loop of _migrate_group_permissions_paginated.
  unfoldable pub migrate_paginated : ℕ → String → String → ℕ → Loop W
  migrate_paginated zero name_in_workspace name_in_account migrated w = none
  migrate_paginated (suc fuel) name_in_workspace name_in_account migrated w =
      more_of (migrate_paginated fuel name_in_workspace name_in_account) migrated
        (migrate_permissions name_in_workspace name_in_account batch_size w)

  abbrev pub next_group : (ℕ → Loop W) → ℕ → Option (Result ℕ × W) → Option (Result ℕ × W)
  next_group rest items none = none
  next_group rest items (some (err e, w)) = some (err e, w)
  next_group rest items (some (ok moved, w)) = rest (items + moved) w

  -- The loop of _apply_to_groups over the groups; `items` is what has been moved so far.
  unfoldable pub apply_loop : ℕ → Bool → List MigratedGroup → ℕ → Loop W
  unfolding migrate_paginated
  apply_loop fuel renamed [] items w = some (ok items, w)
  apply_loop fuel renamed (g ∷ groups) items w = next_group (apply_loop fuel renamed groups) items (
      migrate_paginated fuel (if renamed then g.temporary_name else g.name_in_workspace)
        g.name_in_account 0 w)

  -- _apply_to_groups; beside the code's `True`, which it always returns, the count that it logs
  unfoldable pub apply_to_groups : ℕ → Bool → MigrationState → Loop W
  unfolding apply_loop
  apply_to_groups fuel renamed s w =
      if nat_eq (length s.name_to_group) 0
      then some (ok 0, w)
      else apply_loop fuel renamed s.groups 0 w
