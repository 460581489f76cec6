-- ===== src/Tests/MoveSamples.antt =====
-- Samples for hive_metastore/table_move.py: a backend that keeps the statements it is sent.
use mathlib.Core.List.{filter_map}
use databricks_ucx.Prelude.{filter, String, true, List, [], ◌∷◌, ◌++◌, ◌≡◌, ◌⊎◌, refl}
use databricks_ucx.Text.{lower}
use databricks_ucx.Exec.{ok, pure}
use databricks_ucx.HiveMetastore.TableMigrate.Trace.{Sends, Sends-nil}
use databricks_ucx.HiveMetastore.TableMove.{MoveApi, MoveTask, Assignment, table_task, reapplied}
use databricks_ucx.HiveMetastore.TableMove.Recreate.{
  recreate_managed, clone_sql, drop_sql, run_alias, alias_table, reapply_grants,
}
use databricks_ucx.HiveMetastore.TableMove.Laws.{IsMoveLog, IsDropped, recreate_managed-log}
use databricks_ucx.HiveMetastore.TableMove.Regrant.{IsGrantLog, Regrants}
use databricks_ucx.HiveMetastore.TableMove.Alias.{run_alias-Regrants}

abbrev sent_to : MoveApi (List String)
sent_to = record {
  execute = λ sql w. (ok tt, w ++ sql ∷ []);
  fetch_first = λ sql. pure "True";
  get_schema = λ name. pure tt;
  create_schema = λ schema catalog. pure tt;
  list_tables = λ catalog schema. pure [];
  get_table = λ name. pure tt;
  read_grants = λ name. pure [];
  update_grants = λ name changes. pure tt;
}

abbrev log_of : List String → List String
log_of w = w

sent_to-IsMoveLog : IsMoveLog sent_to log_of
sent_to-IsMoveLog = record {
  logs = λ sql w. record { sends = refl };
  keeps = λ sql w. Sends-nil log_of refl;
}

abbrev moved_log : List String
moved_log = clone_sql "a.b.t" "c.d.t" ∷ drop_sql "TABLE" "a.b.t" ∷ []

moved : recreate_managed sent_to "a.b.t" "c.d.t" true [] ≡ (ok tt, moved_log)
unfolding recreate_managed lower
moved = refl

recreate_managed-log_example :
    Sends log_of [] moved_log (clone_sql "a.b.t" "c.d.t" ∷ [])
    ⊎ IsDropped sent_to log_of sent_to-IsMoveLog "a.b.t" "c.d.t" true [] moved_log
recreate_managed-log_example =
    recreate_managed-log sent_to log_of sent_to-IsMoveLog "a.b.t" "c.d.t" true [] moved

abbrev may_all : Assignment
may_all = record { privileges = "SELECT" ∷ "MODIFY" ∷ []; principal = "me" }

abbrev may_select : Assignment
may_select = record { privileges = "SELECT" ∷ []; principal = "me" }

-- A workspace that keeps the changes of grants.
abbrev Changes : Type 0
Changes = List (String × List Assignment)

abbrev granting : MoveApi Changes
granting = record {
  execute = λ sql. pure tt;
  fetch_first = λ sql. pure "True";
  get_schema = λ name. pure tt;
  create_schema = λ schema catalog. pure tt;
  list_tables = λ catalog schema. pure [];
  get_table = λ name. pure tt;
  read_grants = λ name. pure (may_all ∷ []);
  update_grants = λ name changes w. (ok tt, w ++ (name, changes) ∷ []);
}

abbrev changes_of : Changes → Changes
changes_of w = w

granting-IsGrantLog : IsGrantLog granting changes_of
granting-IsGrantLog = record { updates = λ name changes w. refl; reads = λ name w. refl }

abbrev keep_text : String → String → String → String
keep_text s old new = s

abbrev table_alias : MoveTask
table_alias = table_task "t" true

aliased :
    run_alias granting keep_text "a" "b" "c" "d" table_alias []
    ≡ (ok true, ("c.d.t", may_select ∷ []) ∷ [])
unfolding run_alias alias_table reapply_grants reapplied filter_map filter
aliased = refl

run_alias-Regrants_example :
    Regrants granting changes_of "a.b.t" "c.d.t" true [] (("c.d.t", may_select ∷ []) ∷ [])
run_alias-Regrants_example =
    run_alias-Regrants granting keep_text changes_of granting-IsGrantLog "a" "b" "c" "d" table_alias
      [] aliased
