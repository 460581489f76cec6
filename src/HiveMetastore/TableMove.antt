-- ===== src/HiveMetastore/TableMove.antt =====
-- hive_metastore/table_move.py: the move of tables and views to another schema of Unity Catalog, with
-- their grants. The SQL backend and the workspace are parameters.
pub mod Laws
pub mod Recreate
pub mod Regrant
pub mod Alias
use Prim.Native.String.{◌++◌}
use databricks_ucx.Prelude.{
  String, String_eq, ◌==◌, Bool, true, false, not, ◌&&◌, ◌||◌, List, [], ◌∷◌, map, Option, none,
  some, if◌then◌else◌, filter,
}
use databricks_ucx.Text.{is_empty, set_text}
use databricks_ucx.Exec.{
  Error, is_not_found, Exec, pure, raise, try_except, Result, ok, err, ◌>>=◌, ◌>>◌,
}

-- What the program reads of the SDK's TableInfo.
pub record MovedTable : Type 0 where
  pub name : String
  pub table_type : Option String
  pub view_definition : Option String

-- A task for a table, which may be a managed one, or for a view with its text.
pub data MoveTask : Type 0 where
  table_task : String → Bool → MoveTask
  view_task : String → String → MoveTask

-- PermissionsChange, also for the assignments that are read
pub record Assignment : Type 0 where
  pub privileges : List String
  pub principal : String

pub record MoveApi (W : Type 0) : Type 0 where
  pub execute : String → Exec W (Unit {0})
  -- the first field of the first row
  pub fetch_first : String → Exec W String
  -- schemas.get, schemas.create, tables.list, tables.get
  pub get_schema : String → Exec W (Unit {0})
  pub create_schema : String → String → Exec W (Unit {0})
  pub list_tables : String → String → Exec W (List MovedTable)
  pub get_table : String → Exec W (Unit {0})
  -- grants.get and grants.update; no assignments are the empty list
  pub read_grants : String → Exec W (List Assignment)
  pub update_grants : String → List Assignment → Exec W (Unit {0})

abbrev pub table_name : String → String → String → String
table_name catalog schema name = catalog ++ "." ++ schema ++ "." ++ name

-- from_table in [table.name, "*"]
unfoldable pub is_chosen : String → MovedTable → Bool
is_chosen from_table t = (t.name == from_table) || ("*" == from_table)

abbrev pub is_table_type : Option String → Bool
is_table_type none = false
is_table_type (some t) = (t == "EXTERNAL") || (t == "MANAGED")

abbrev pub is_managed_type : Option String → Bool
is_managed_type none = false
is_managed_type (some t) = t == "MANAGED"

-- What is done with a table that the target schema does not have.
unfoldable pub task_of : MovedTable → Option MoveTask
unfolding is_empty
task_of t =
    if is_table_type t.table_type
    then some (MoveTask.table_task t.name (is_managed_type t.table_type))
    else elim (set_text t.view_definition) [
      | none ↦ none
      | some text ↦ some (MoveTask.view_task t.name text)
    ]

abbrev with_task : Option MoveTask → List MoveTask → List MoveTask
with_task none tasks = tasks
with_task (some task) tasks = task ∷ tasks

abbrev pub is_table_task : MoveTask → Bool
is_table_task (table_task name is_managed) = true
is_table_task (view_task name text) = false

module _ {W : Type 0} (api : MoveApi W) where
  abbrev pub exists_by : Exec W (Unit {0}) → Exec W Bool
  exists_by m = try_except is_not_found (pure false) (m >> pure true)

  -- The loop that makes the tasks, of move and of alias_tables.
  unfoldable pub tasks_for : String → String → List MovedTable → Exec W (List MoveTask)
  unfolding task_of
  tasks_for to_catalog to_schema [] = pure []
  tasks_for to_catalog to_schema (t ∷ tables) =
      exists_by (api.get_table (table_name to_catalog to_schema t.name)) >>= λ present.
      tasks_for to_catalog to_schema tables >>= λ later.
      pure (if present then later else with_task (task_of t) later)

  -- The target schema is created where it is not found.
  abbrev with_schema : String → String → Exec W (Unit {0})
  with_schema to_catalog to_schema =
      try_except is_not_found (api.create_schema to_schema to_catalog)
        (api.get_schema (to_catalog ++ "." ++ to_schema))

  -- What both methods do before they run the tasks: none where the source schema is not found.
  unfoldable pub collect_tasks :
      String → String → String → String → String → Exec W (Option (List MoveTask))
  unfolding tasks_for is_chosen filter
  collect_tasks from_catalog from_schema from_table to_catalog to_schema = do
    found ← exists_by (api.get_schema (from_catalog ++ "." ++ from_schema))
    elim found [
      | false ↦ pure none
      | true ↦ do
        with_schema to_catalog to_schema
        tables ← api.list_tables from_catalog from_schema
        tasks ← tasks_for to_catalog to_schema (filter (is_chosen from_table) tables)
        pure (some tasks)
    ]

-- An assignment without privileges is left out.
abbrev pub assigned : String → List String → Option Assignment
assigned principal [] = none
assigned principal (p ∷ privileges) =
    some (record { privileges = p ∷ privileges; principal = principal })

abbrev pub is_kept : String → Bool
is_kept privilege = not (privilege == "MODIFY")

-- The body of the loop in _reapply_grants: with `target_view`, on the alias of a table, none may modify.
unfoldable pub reapplied : Bool → Assignment → Option Assignment
unfolding filter
reapplied target_view a =
    if not target_view
    then assigned a.principal a.privileges
    else assigned a.principal (filter is_kept a.privileges)
