-- ===== src/WorkspaceAccess/Groups/Manager/Tasks.antt =====
-- Which groups are renamed, reflected and deleted.
use mathlib.Core.List.{Memᴰ, filter_map}
use databricks_ucx.Prelude.{
  String, String_eq, true, false, List, [], ◌∷◌, Option, none, some, ◌≡◌, refl, arith, inl, inr,
  ◌↔◌, Memᴰ-filter_map, filter_map-Memᴰ, Bool-cases, Option-cases,
}
use databricks_ucx.Dict.{Dict, get, has}
use databricks_ucx.WorkspaceAccess.Groups.{Group, MigratedGroup}
use databricks_ucx.WorkspaceAccess.Groups.Manager.{rename_tasks, reflect_tasks, delete_tasks}

filter_map-nil :
    (f : MigratedGroup → Option (String × String)) (groups : List MigratedGroup)
    → ((g : MigratedGroup) → Memᴰ g groups → f g ≡ none)
    → filter_map f groups ≡ []
unfolding filter_map
filter_map-nil f [] h = refl
filter_map-nil f (g ∷ groups) h =
    rw (h g (Memᴰ.head refl), filter_map) (filter_map-nil f groups (λ a m. h a (Memᴰ.tail m)))

module _ {C : Type 0} where
  -- The groups that a deletion covers: the renamed group is still in the workspace and the account
  -- group has been reflected.
  abbrev pub IsDeletable : Dict String (Group C) → Dict String (Group C) → MigratedGroup → Type 0
  IsDeletable workspace_groups account_groups g =
      (has g.temporary_name workspace_groups ≡ true) × (has g.name_in_account account_groups ≡ true)

  -- There is a task to delete a group exactly where it is the task of a migrated group whose
  -- temporary name is in the workspace and whose account group is there too.
  pub delete_tasks_iff :
      (workspace_groups account_groups : Dict String (Group C)) (groups : List MigratedGroup)
      (task : String × String)
      → Memᴰ task (delete_tasks workspace_groups account_groups groups) ↔ (
          (g : MigratedGroup) × Memᴰ g groups
          × IsDeletable workspace_groups account_groups g
          × ((g.id_in_workspace, g.temporary_name) ≡ task))
  unfolding delete_tasks
  delete_tasks_iff workspace_groups account_groups groups task = (
    λ m. let (g, n, h) = Memᴰ-filter_map _ groups m in (g, n, ground arith, ground arith),
    λ k. let (g, n, d, e) = k in filter_map-Memᴰ _ n (ground arith),
  )

  -- The groups that a renaming covers: the account group is not in the workspace and no workspace
  -- group has the temporary name yet.
  abbrev pub IsRenamable : Dict String (Group C) → Dict String (Group C) → MigratedGroup → Type 0
  IsRenamable in_workspace workspace_groups g =
      (has g.name_in_account in_workspace ≡ false) × (has g.temporary_name workspace_groups ≡ false)

  -- There is a task to rename a group exactly where it is the task of a migrated group whose account
  -- group is not in the workspace and whose temporary name no workspace group has yet; the task
  -- gives the group its temporary name.
  pub rename_tasks_iff :
      (in_workspace workspace_groups : Dict String (Group C)) (groups : List MigratedGroup)
      (task : String × String)
      → Memᴰ task (rename_tasks in_workspace workspace_groups groups) ↔ (
          (g : MigratedGroup) × Memᴰ g groups
          × IsRenamable in_workspace workspace_groups g
          × ((g.id_in_workspace, g.temporary_name) ≡ task))
  unfolding rename_tasks
  rename_tasks_iff in_workspace workspace_groups groups task = (
    λ m. let (g, n, h) = Memᴰ-filter_map _ groups m in (g, n, ground arith, ground arith),
    λ k. let (g, n, d, e) = k in filter_map-Memᴰ _ n (ground arith),
  )

  -- A second renaming has no tasks, where the account groups that were in the workspace and the
  -- temporary names that were there are still there, and every temporary name of a first task is
  -- there as well.
  pub rename_tasks_again :
      (in_workspace workspace_groups in_workspace' workspace_groups' : Dict String (Group C))
      (groups : List MigratedGroup)
      → ((name : String) → has name in_workspace ≡ true → has name in_workspace' ≡ true)
      → ((g : MigratedGroup)
          → Memᴰ g groups
          → has g.temporary_name workspace_groups ≡ true
          → has g.temporary_name workspace_groups' ≡ true)
      → ((task : String × String)
          → Memᴰ task (rename_tasks in_workspace workspace_groups groups)
          → has task.1 workspace_groups' ≡ true)
      → rename_tasks in_workspace' workspace_groups' groups ≡ []
  unfolding rename_tasks
  rename_tasks_again in_workspace workspace_groups in_workspace' workspace_groups' groups kept
        renamed done =
      filter_map-nil _ groups (λ g m. elim (Bool-cases (has g.name_in_account in_workspace)) [
        | inl e ↦ ground (arith, kept g.name_in_account e)
        | inr e ↦ elim (Bool-cases (has g.temporary_name workspace_groups)) [
          | inl e₂ ↦ ground (arith, renamed g m e₂)
          | inr e₂ ↦ ground (
            arith,
            done (g.id_in_workspace, g.temporary_name) (filter_map-Memᴰ _ m (ground arith)),
          )
        ]
      ])

  -- There is a task to reflect an account group exactly where it is the account group of a migrated
  -- group, by name, that is not in the workspace yet.
  pub reflect_tasks_iff :
      (in_account in_workspace : Dict String (Group C)) (groups : List MigratedGroup) (id : String)
      → Memᴰ id (reflect_tasks in_account in_workspace groups) ↔ (
          (g : MigratedGroup) × (account : Group C) × Memᴰ g groups
          × (has g.name_in_account in_workspace ≡ false)
          × (get g.name_in_account in_account ≡ some account)
          × (account.id ≡ id))
  unfolding reflect_tasks
  reflect_tasks_iff in_account in_workspace groups id = (
    λ m.
        let (g, n, h) = Memᴰ-filter_map _ groups m in
        elim (Bool-cases (has g.name_in_account in_workspace)) [
          | inl e ↦ absurd (ground arith)
          | inr e ↦ elim (Option-cases (get g.name_in_account in_account)) [
            | inl e₂ ↦ absurd (ground arith)
            | inr (account, e₂) ↦ (g, account, n, e, e₂, ground arith)
          ]
        ],
    λ k. let (g, account, n, absent, known, e) = k in filter_map-Memᴰ _ n (ground arith),
  )
