-- ===== src/HiveMetastore/TableMove/Laws.antt =====
-- hive_metastore/table_move.py: when the source of a managed table is dropped.
use databricks_ucx.Prelude.{
  String, String_eq, ◌==◌, Bool, true, false, List, [], ◌∷◌, ◌≡◌, ◌≢◌, ◌⊎◌, refl, arith, inl, inr,
  Bool-cases,
}
use databricks_ucx.Text.{lower}
use databricks_ucx.Exec.{ok, continue-eq-ok}
use databricks_ucx.HiveMetastore.TableMigrate.Trace.{Sends, Sends-trans, Sends-to, state-eq}
use databricks_ucx.HiveMetastore.TableMove.{MoveApi}
use databricks_ucx.HiveMetastore.TableMove.Recreate.{
  clone_sql, drop_sql, row_check_sql, recreate_managed,
}

-- A log of the statements that are executed; a query leaves it.
pub record IsMoveLog {W : Type 0} (api : MoveApi W) (log : W → List String) : Type 0 where
  pub logs : (sql : String) (w : W) → Sends log w (api.execute sql w).1 (sql ∷ [])
  pub keeps : (sql : String) (w : W) → Sends log w (api.fetch_first sql w).1 []

module _ {W : Type 0} (api : MoveApi W) (log : W → List String) (logged : IsMoveLog api log) where
  -- The source was dropped after the clone succeeded and the check that was made in the world that
  -- the clone left did not find the rows to differ.
  pub record IsDropped (from_name to_name : String) (del_table : Bool) (w w' : W) : Type 0 where
    pub asked : del_table ≡ true
    pub row_check : String
    pub cloned : (api.execute (clone_sql from_name to_name) w).0 ≡ ok tt
    pub checked :
        (api.fetch_first
          (row_check_sql from_name to_name)
          (api.execute (clone_sql from_name to_name) w).1).0
        ≡ ok row_check
    pub not_different : lower row_check ≢ "false"
    pub sent : Sends log w w' (clone_sql from_name to_name ∷ drop_sql "TABLE" from_name ∷ [])

  -- The move of a managed table that returns has sent the clone alone, or the clone and then the drop
  -- of the source: the drop only where it was asked for, the clone succeeded and the check of
  -- the rows, made in the world that the clone left, did not answer "false".
  pub recreate_managed-log :
      (from_name to_name : String) (del_table : Bool) (w : W) {w' : W}
      → recreate_managed api from_name to_name del_table w ≡ (ok tt, w')
      → Sends log w w' (clone_sql from_name to_name ∷ [])
        ⊎ IsDropped from_name to_name del_table w w'
  unfolding recreate_managed
  recreate_managed-log from_name to_name false w h =
      let clone = clone_sql from_name to_name in
      let (a, e, h1) = continue-eq-ok _ (api.execute clone w) h in
      inl (Sends-to log (logged.logs clone w) (state-eq h1))
  recreate_managed-log from_name to_name true w {w'} h =
      let clone = clone_sql from_name to_name in
      let (a, e, h1) = continue-eq-ok _ (api.execute clone w) h in
      let w1 = (api.execute clone w).1 in
      let check = row_check_sql from_name to_name in
      let (row_check, f, h2) = continue-eq-ok _ (api.fetch_first check w1) h1 in
      let w2 = (api.fetch_first check w1).1 in
      let drop = drop_sql "TABLE" from_name in
      let cloned = Sends-trans log (logged.logs clone w) (logged.keeps check w1) in
      elim (Bool-cases (lower row_check == "false")) [
        | inl b ↦ inl (Sends-to log cloned (state-eq (rw b at h2)))
        | inr b ↦ inr (record {
          asked = refl;
          row_check = row_check;
          cloned = e;
          checked = f;
          not_different =
              λ same. ground (b, (String_eq.beq_iff (lower row_check) "false").1 same, arith);
          sent =
              Sends-trans log cloned (Sends-to log (logged.logs drop w2) (state-eq (rw b at h2)));
        })
      ]
