-- ===== src/WorkspaceAccess/Groups/Manager.antt =====
-- workspace_access/groups.py: `GroupManager`. The calls of the workspace client, with the retries
-- and rate limits of the blueprint library around them, are a parameter, and so is what
-- `Threads.gather` does with a list of tasks: it returns their errors.
pub mod Laws
pub mod Tasks
use mathlib.Core.List.{filter_map}
use databricks_ucx.Prelude.{
  String, String_eq, ◌==◌, Bool, true, false, not, ◌&&◌, ◌||◌, List, [], ◌∷◌, ◌++◌, map, Option,
  none, some, if◌then◌else◌, mem, filter,
}
use databricks_ucx.Text.{is_empty}
use databricks_ucx.Exec.{
  Error, many_error, is_bad_request, is_not_found, Exec, pure, raise, try_except, ◌>>=◌, ◌>>◌,
}
use databricks_ucx.Dict.{Dict, get, has, of_pairs}
use databricks_ucx.WorkspaceAccess.Groups.{Group, MigratedGroup}
use databricks_ucx.WorkspaceAccess.Groups.Strategy.{
  Regex, GroupConfig, get_strategy, renamed_prefix, generate_migrated_groups, Option_eq,
}

pub record GroupsApi (W C : Type 0) : Type 0 where
  pub list_groups : List String → Exec W (List (Group C))
  pub get_group : String → Exec W (Group C)
  pub list_account_groups : List String → Exec W (List (Group C))
  pub patch_display_name : String → String → Exec W (Unit {0})
  pub delete_group : String → Exec W (Unit {0})
  pub put_assignment : String → Exec W (Unit {0})
  pub gather : List (Exec W (Unit {0})) → Exec W (List Error)
  -- sorted(..., key=display_name)
  pub sorted_by_name : List (Group C) → List (Group C)

abbrev pub system_groups : List String
system_groups = "users" ∷ "admins" ∷ "account users" ∷ []

-- list.remove: the first one
unfoldable pub remove : String → List String → List String
remove a [] = []
remove a (x ∷ xs) = if x == a then xs else x ∷ remove a xs

module _ {C : Type 0} where
  unfoldable pub is_group_out_of_scope : Group C → String → Bool
  is_group_out_of_scope group resource_type =
      if mem group.display_name system_groups
      then true
      else elim group.meta [ none ↦ false | some kind ↦ not (kind == some resource_type) ]

  -- The loop of the three listings: a later group of the same name takes the place of an earlier.
  unfoldable pub by_display_name : List (Group C) → Dict String (Group C)
  unfolding of_pairs
  by_display_name groups = of_pairs (
      map (λ (g : Group C). (g.display_name, g))
        (filter (λ (g : Group C). not (is_empty g.display_name)) groups))

  -- The tasks of rename_groups: the identifier and the new name.
  unfoldable pub rename_tasks :
      Dict String (Group C) → Dict String (Group C) → List MigratedGroup → List (String × String)
  rename_tasks account_groups workspace_groups = filter_map (λ (g : MigratedGroup).
      if has g.name_in_account account_groups
      then none
      else if has g.temporary_name workspace_groups
      then none
      else some (g.id_in_workspace, g.temporary_name))

  -- The tasks of reflect_account_groups_on_workspace: identifiers of account groups.
  unfoldable pub reflect_tasks :
      Dict String (Group C) → Dict String (Group C) → List MigratedGroup → List String
  reflect_tasks in_account in_workspace = filter_map (λ (g : MigratedGroup).
      if has g.name_in_account in_workspace
      then none
      else (elim (get g.name_in_account in_account) [
        | none ↦ none
        | some account ↦ some account.id
      ]))

  -- The tasks of delete_original_workspace_groups.
  unfoldable pub delete_tasks :
      Dict String (Group C) → Dict String (Group C) → List MigratedGroup → List (String × String)
  delete_tasks workspace_groups account_groups = filter_map (λ (g : MigratedGroup).
      if not (has g.temporary_name workspace_groups)
      then none
      else if not (has g.name_in_account account_groups)
      then none
      else some (g.id_in_workspace, g.temporary_name))

  module _ {W : Type 0} (api : GroupsApi W C) where
    -- _get_group
    unfoldable pub get_or_none : String → Exec W (Option (Group C))
    get_or_none group_id =
        try_except is_not_found (pure none) (do g ← api.get_group group_id; pure (some g))

    abbrev pub prepend : Option (Group C) → List (Group C) → List (Group C)
    prepend none results = results
    prepend (some g) results = g ∷ results

    -- The first loop of _list_workspace_groups: each group in scope is read again.
    unfoldable pub read_in_scope : String → List (Group C) → Exec W (List (Group C))
    unfolding get_or_none
    read_in_scope resource_type [] = pure []
    read_in_scope resource_type (g ∷ groups) = elim (is_group_out_of_scope g resource_type) [
      | true ↦ read_in_scope resource_type groups
      | false ↦ (do
        read ← get_or_none g.id
        results ← read_in_scope resource_type groups
        pure (prepend read results))
    ]

    -- _list_workspace_groups, on the attributes as a list
    unfoldable pub list_workspace_groups : String → List String → Exec W (List (Group C))
    unfolding read_in_scope remove
    list_workspace_groups resource_type attributes = elim (mem "members" attributes) [
      | true ↦ (do
        groups ← api.list_groups (remove "members" attributes)
        read_in_scope resource_type groups)
      | false ↦ (do
        groups ← api.list_groups attributes
        pure (filter (λ g. not (is_group_out_of_scope g resource_type)) groups))
    ]

    -- _list_account_groups
    unfoldable pub list_account_groups : List String → Exec W (List (Group C))
    list_account_groups attributes = do
      resources ← api.list_account_groups attributes
      pure (
          api.sorted_by_name
            (filter (λ (g : Group C). not (mem g.display_name system_groups)) resources))

    unfoldable pub workspace_groups_in_workspace : Exec W (Dict String (Group C))
    unfolding by_display_name list_workspace_groups
    workspace_groups_in_workspace = do
      groups ←
          list_workspace_groups "WorkspaceGroup" (
            "id" ∷ "displayName" ∷ "meta" ∷ "externalId" ∷ "members" ∷ "roles" ∷ "entitlements"
            ∷ [])
      pure (by_display_name groups)

    unfoldable pub account_groups_in_workspace : Exec W (Dict String (Group C))
    unfolding by_display_name list_workspace_groups
    account_groups_in_workspace = do
      groups ← list_workspace_groups "Group" ("id" ∷ "displayName" ∷ "externalId" ∷ "meta" ∷ [])
      pure (by_display_name groups)

    unfoldable pub account_groups_in_account : Exec W (Dict String (Group C))
    unfolding by_display_name list_account_groups
    account_groups_in_account = do
      groups ← list_account_groups ("id" ∷ "displayName" ∷ "externalId" ∷ [])
      pure (by_display_name groups)

    -- if len(errors) > 0: raise ManyError(errors)
    abbrev pub raise_any : List Error → Exec W (Unit {0})
    raise_any [] = pure tt
    raise_any (e ∷ errors) = raise many_error

    -- Threads.gather and the test of its errors
    abbrev pub run_all : List (Exec W (Unit {0})) → Exec W (Unit {0})
    run_all tasks = do errors ← api.gather tasks; raise_any errors

    -- _delete_workspace_group
    unfoldable pub delete_workspace_group : String → Exec W (Unit {0})
    delete_workspace_group group_id = try_except is_not_found (pure tt) (api.delete_group group_id)

    -- _reflect_account_group_to_workspace
    unfoldable pub reflect_account_group : String → Exec W (Unit {0})
    reflect_account_group account_group_id =
        try_except is_not_found (pure tt)
          (try_except is_bad_request (pure tt) (api.put_assignment account_group_id))

    module _ (snapshot : Exec W (List MigratedGroup)) where
      unfoldable pub rename_groups : Exec W (Unit {0})
      unfolding rename_tasks account_groups_in_workspace workspace_groups_in_workspace
      rename_groups = do
        account_groups ← account_groups_in_workspace
        workspace_groups ← workspace_groups_in_workspace
        groups_to_migrate ← snapshot
        run_all (
            map (λ (task : String × String). api.patch_display_name task.0 task.1)
              (rename_tasks account_groups workspace_groups groups_to_migrate))

      unfoldable pub reflect_account_groups_on_workspace : Exec W (Unit {0})
      unfolding reflect_tasks account_groups_in_account account_groups_in_workspace
      reflect_account_groups_on_workspace = do
        in_account ← account_groups_in_account
        in_workspace ← account_groups_in_workspace
        groups_to_migrate ← snapshot
        run_all
            (map reflect_account_group (reflect_tasks in_account in_workspace groups_to_migrate))

      unfoldable pub delete_original_workspace_groups : Exec W (Unit {0})
      unfolding delete_tasks workspace_groups_in_workspace account_groups_in_workspace
      delete_original_workspace_groups = do
        workspace_groups ← workspace_groups_in_workspace
        account_groups ← account_groups_in_workspace
        groups ← snapshot
        run_all (
            map (λ (task : String × String). delete_workspace_group task.0)
              (delete_tasks workspace_groups account_groups groups))

    -- _crawler
    unfoldable pub crawler : (List C → String) → Regex → GroupConfig → Exec W (List MigratedGroup)
    unfolding generate_migrated_groups get_strategy renamed_prefix
    crawler dumps re c = do
      workspace_groups ← workspace_groups_in_workspace
      account_groups ← account_groups_in_account
      pure (
          generate_migrated_groups dumps (renamed_prefix c) re c.include_group_names
            workspace_groups account_groups (get_strategy c))

-- The choice of rows in _fetcher: all of them, or those of the configured names in their order.
unfoldable pub fetched : List String → List MigratedGroup → List MigratedGroup
unfolding of_pairs get
fetched [] state = state
fetched (n ∷ names) state =
    filter_map
      (λ name. get name (of_pairs (map (λ (g : MigratedGroup). (g.name_in_workspace, g)) state)))
      (n ∷ names)
