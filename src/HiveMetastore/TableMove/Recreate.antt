-- ===== src/HiveMetastore/TableMove/Recreate.antt =====
-- hive_metastore/table_move.py: what the tasks do, and the methods as a whole.
use Prim.Native.String.{◌++◌}
use mathlib.Core.List.{filter_map}
use databricks_ucx.Prelude.{
  String, String_eq, ◌==◌, Bool, true, false, List, [], ◌∷◌, map, Option, none, some,
}
use databricks_ucx.Text.{lower}
use databricks_ucx.Framework.Escape.{escape_sql_identifier}
use databricks_ucx.Exec.{is_not_found, Exec, pure, try_except, ◌>>=◌, ◌>>◌}
use databricks_ucx.HiveMetastore.TableMigrate.{if_else}
use databricks_ucx.HiveMetastore.TableMove.{
  Assignment, MoveApi, MoveTask, table_task, view_task, table_name, is_table_task, collect_tasks,
  reapplied,
}
use databricks_ucx.Prelude.{filter, not}

abbrev pub escaped : String → String
escaped name = escape_sql_identifier name true

unfoldable pub clone_sql : String → String → String
clone_sql from_name to_name =
    "CREATE TABLE IF NOT EXISTS " ++ escaped to_name ++ " DEEP CLONE " ++ escaped from_name

unfoldable pub drop_sql : String → String → String
drop_sql kind name = "DROP " ++ kind ++ " " ++ escaped name

unfoldable pub row_check_sql : String → String → String
row_check_sql from_name to_name =
    "SELECT (SELECT COUNT(*) FROM "
    ++ escaped to_name
    ++ ")=(SELECT COUNT(*) FROM "
    ++ escaped from_name
    ++ ")"

unfoldable pub alias_sql : String → String → String
alias_sql from_name to_name =
    "CREATE VIEW " ++ escaped to_name ++ " AS SELECT * FROM " ++ escaped from_name

unfoldable pub create_view_sql : String → String → String
create_view_sql to_name text = "CREATE VIEW " ++ escaped to_name ++ " AS " ++ text

module _ {W : Type 0} (api : MoveApi W) where
  -- The source goes only where its rows were not found to differ.
  abbrev drop_checked : String → String → Exec W (Unit {0})
  drop_checked from_name row_check =
      if_else (lower row_check == "false") (pure tt) (api.execute (drop_sql "TABLE" from_name))

  -- _recreate_table of a managed table
  unfoldable pub recreate_managed : String → String → Bool → Exec W (Unit {0})
  unfolding clone_sql drop_sql row_check_sql lower
  recreate_managed from_name to_name del_table = do
    api.execute (clone_sql from_name to_name)
    if_else del_table (api.fetch_first (row_check_sql from_name to_name) >>= drop_checked from_name)
        (pure tt)

  module _ (replace : String → String → String → String) where
    -- _recreate_table of an external table: `del_table` is not read
    unfoldable pub recreate_external : String → String → Exec W (Unit {0})
    unfolding drop_sql
    recreate_external from_name to_name = do
      create_sql ← api.fetch_first ("SHOW CREATE TABLE " ++ escaped from_name)
      api.execute (drop_sql "TABLE" from_name)
      api.execute (
          replace create_sql ("CREATE TABLE " ++ escaped from_name)
            ("CREATE TABLE " ++ escaped to_name))

    -- _recreate_table
    unfoldable pub recreate_table : String → String → Bool → Bool → Exec W (Unit {0})
    unfolding recreate_managed recreate_external
    recreate_table from_name to_name is_managed del_table =
        if_else is_managed (recreate_managed from_name to_name del_table)
          (recreate_external from_name to_name)

    abbrev pub update_assigned : String → Bool → Option (List Assignment) → Exec W (Unit {0})
    update_assigned to_name target_view none = pure tt
    update_assigned to_name target_view (some []) = pure tt
    update_assigned to_name target_view (some (a ∷ assignments)) =
        api.update_grants to_name (filter_map (reapplied target_view) (a ∷ assignments))

    -- _reapply_grants: a source that is not found any more has no grants
    unfoldable pub reapply_grants : String → String → Bool → Exec W (Unit {0})
    unfolding reapplied
    reapply_grants from_name to_name target_view =
        try_except is_not_found (pure none)
          (api.read_grants from_name >>= λ assignments. pure (some assignments))
        >>= update_assigned to_name target_view

    -- _move_table: it returns False whether it moved the table or not
    unfoldable pub move_table : String → String → Bool → Bool → Exec W Bool
    unfolding recreate_table reapply_grants
    move_table from_name to_name is_managed del_table = try_except is_not_found (pure false) (do
      recreate_table from_name to_name is_managed del_table
      reapply_grants from_name to_name false
      pure false)

    -- _alias_table, with _create_alias_view
    unfoldable pub alias_table : String → String → Exec W Bool
    unfolding alias_sql reapply_grants
    alias_table from_name to_name = try_except is_not_found (pure false) (do
      api.execute (alias_sql from_name to_name)
      reapply_grants from_name to_name true
      pure true)

    -- _move_view, with _recreate_view
    unfoldable pub move_view : String → String → String → Bool → Exec W Bool
    unfolding create_view_sql drop_sql reapply_grants
    move_view from_name to_name text del_view = try_except is_not_found (pure false) (do
      api.execute (create_view_sql to_name text)
      reapply_grants from_name to_name false
      if_else del_view (api.execute (drop_sql "VIEW" from_name)) (pure tt)
      pure true)

    module _ (from_catalog from_schema to_catalog to_schema : String) where
      abbrev pub source_name : String → String
      source_name = table_name from_catalog from_schema

      abbrev pub target_name : String → String
      target_name = table_name to_catalog to_schema

      -- A task of move, and one of alias_tables.
      unfoldable pub run_move : Bool → MoveTask → Exec W Bool
      unfolding move_table move_view
      run_move del_table (table_task name is_managed) =
          move_table (source_name name) (target_name name) is_managed del_table
      run_move del_table (view_task name text) =
          move_view (source_name name) (target_name name) text del_table

      unfoldable pub run_alias : MoveTask → Exec W Bool
      unfolding alias_table move_view
      run_alias (table_task name is_managed) = alias_table (source_name name) (target_name name)
      run_alias (view_task name text) = move_view (source_name name) (target_name name) text false

      module _ (strict : List (Exec W Bool) → Exec W (List Bool)) where
        abbrev run_moves : Bool → Option (List MoveTask) → Exec W (Unit {0})
        run_moves del_table none = pure tt
        run_moves del_table (some tasks) = do
          tables ← strict (map (run_move del_table) (filter is_table_task tasks))
          views ← strict (map (run_move del_table) (filter (λ t. not (is_table_task t)) tasks))
          pure tt

        -- move: the tables before the views
        unfoldable pub move : String → Bool → Exec W (Unit {0})
        unfolding collect_tasks run_move filter
        move from_table del_table =
            collect_tasks api from_catalog from_schema from_table to_catalog to_schema
            >>= run_moves del_table

        abbrev run_aliases : Option (List MoveTask) → Exec W (Unit {0})
        run_aliases none = pure tt
        run_aliases (some tasks) = strict (map run_alias tasks) >> pure tt

        -- alias_tables
        unfoldable pub alias_tables : String → Exec W (Unit {0})
        unfolding collect_tasks run_alias
        alias_tables from_table =
            collect_tasks api from_catalog from_schema from_table to_catalog to_schema
            >>= run_aliases
