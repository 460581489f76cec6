-- ===== src/WorkspaceAccess/Supports/Manager.antt =====
-- workspace_access/manager.py: PermissionManager, which hands each row of the inventory to the support
-- of its object type. The supports and Threads.gather are parameters.
use Prim.Native.String.{compare}
use Prim.Native.Nat.{Ordering}
use databricks_ucx.Prelude.{
  String, String_eq, ◌==◌, Bool, true, false, List, [], ◌∷◌, Option, none, some, if◌then◌else◌,
}
use databricks_ucx.Dict.{Dict, get, has, put, of_pairs}
use databricks_ucx.Exec.{
  Error, Result, ok, err, key_error, value_error, many_error, and_then, Exec, pure, raise, ◌>>=◌,
}
use databricks_ucx.WorkspaceAccess.Supports.{Permissions}

-- AclSupport: the tasks of a support are of a type of their own.
pub record AclSupport (T : Type 0) : Type 0 where
  pub object_types : List String
  pub apply_task : Permissions → Result (Option T)

module _ {T : Type 0} where
  -- The inner loop of object_type_support.
  unfoldable pub register :
      AclSupport T → List String → Dict String (AclSupport T) → Result (Dict String (AclSupport T))
  unfolding get put
  register support [] appliers = ok appliers
  register support (object_type ∷ object_types) appliers =
      if has object_type appliers
      then err key_error
      else register support object_types (put object_type support appliers)

  unfoldable pub register_all :
      List (AclSupport T) → Dict String (AclSupport T) → Result (Dict String (AclSupport T))
  unfolding register
  register_all [] appliers = ok appliers
  register_all (support ∷ supports) appliers =
      elim (register support support.object_types appliers) [
        | err e ↦ err e
        | ok more ↦ register_all supports more
      ]

  -- object_type_support
  unfoldable pub object_type_support : List (AclSupport T) → Result (Dict String (AclSupport T))
  unfolding register_all
  object_type_support supports = register_all supports []

abbrev is_after : String → String → Bool
is_after s t = elim (compare s t) [ Ordering.gt ↦ true | _ ↦ false ]

-- sorted(items, key=lambda i: i.object_type): equal keys keep their order
unfoldable pub insert_sorted : Permissions → List Permissions → List Permissions
insert_sorted i [] = i ∷ []
insert_sorted i (j ∷ items) =
    let later = insert_sorted i items in
    if is_after i.object_type j.object_type then j ∷ later else i ∷ j ∷ items

unfoldable pub sorted : List Permissions → List Permissions
unfolding insert_sorted
sorted [] = []
sorted (i ∷ items) = insert_sorted i (sorted items)

abbrev add_run : Permissions → List (String × List Permissions) → List (String × List Permissions)
add_run i [] = (i.object_type, i ∷ []) ∷ []
add_run i ((t, run) ∷ runs) =
    if i.object_type == t then (t, i ∷ run) ∷ runs else (i.object_type, i ∷ []) ∷ (t, run) ∷ runs

-- groupby(items, key=lambda i: i.object_type)
unfoldable pub group_by_type : List Permissions → List (String × List Permissions)
group_by_type [] = []
group_by_type (i ∷ items) = add_run i (group_by_type items)

module _ {T : Type 0} (appliers : Dict String (AclSupport T)) where
  -- The check that all supports are valid.
  unfoldable pub all_supported : List (String × List Permissions) → Bool
  all_supported [] = true
  all_supported ((t, run) ∷ runs) =
      let rest = all_supported runs in if has t appliers then rest else false

  abbrev with_task : Option T → List T → List T
  with_task none tasks = tasks
  with_task (some task) tasks = task ∷ tasks

  -- The loop over the items of a type, and what follows it.
  unfoldable pub tasks_for_support :
      AclSupport T → List Permissions → Result (List T) → Result (List T)
  tasks_for_support support [] later = later
  tasks_for_support support (item ∷ items) later =
      let rest = tasks_for_support support items later in
      and_then (support.apply_task item) λ task. and_then rest λ tasks. ok (with_task task tasks)

  unfoldable pub tasks_for_types : List (String × List Permissions) → Result (List T)
  unfolding tasks_for_support
  tasks_for_types [] = ok []
  tasks_for_types ((t, run) ∷ runs) =
      let later = tasks_for_types runs in
      elim (get t appliers) [
        | none ↦ err key_error
        | some support ↦ tasks_for_support support run later
      ]

  -- The tasks of apply_group_permissions, for the rows of the inventory.
  unfoldable pub applier_tasks : List Permissions → Result (List T)
  unfolding sorted group_by_type all_supported tasks_for_types of_pairs
  applier_tasks items =
      let runs = of_pairs (group_by_type (sorted items)) in
      if all_supported runs then tasks_for_types runs else err value_error

module _ {W : Type 0} {T : Type 0} (gather : List T → Exec W (List Error)) where
  abbrev raise_many : List Error → Exec W Bool
  raise_many [] = pure true
  raise_many (e ∷ errors) = raise many_error

  abbrev run_tasks : Result (List T) → Exec W Bool
  run_tasks (ok tasks) = gather tasks >>= raise_many
  run_tasks (err e) = raise e

  abbrev with_appliers : Result (Dict String (AclSupport T)) → List Permissions → Exec W Bool
  with_appliers (ok appliers) items = run_tasks (applier_tasks appliers items)
  with_appliers (err e) items = raise e

  -- apply_group_permissions, for a migration state that may have no group
  unfoldable pub apply_group_permissions :
      Bool → List (AclSupport T) → Exec W (List Permissions) → Exec W Bool
  unfolding applier_tasks object_type_support
  apply_group_permissions has_groups supports load_all = elim has_groups [
    | false ↦ pure true
    | true ↦ load_all >>= λ items. with_appliers (object_type_support supports) items
  ]
