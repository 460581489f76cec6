-- ===== src/HiveMetastore/TableMigrate/Trace/Refines.antt =====
-- hive_metastore/table_migrate.py: a migration that returns True has sent the statements of its
-- class.
use databricks_ucx.Prelude.{
  ◌∙◌, ap, String, String_eq, ◌==◌, Bool, true, false, List, [], ◌∷◌, Option, none, some, ◌≡◌, refl,
  arith, inl, inr, Bool-cases,
}
use databricks_ucx.Dict.{Dict, has}
use databricks_ucx.Exec.{ok, continue-eq-ok, Result-cases}
use databricks_ucx.Text.{is_empty}
use databricks_ucx.HiveMetastore.Tables.{
  Table, What, external_sync, external_hiveserde, external_no_sync, dbfs_root_delta,
  dbfs_root_non_delta, view, db_dataset, unknown, what, on_format,
}
use databricks_ucx.HiveMetastore.Tables.Serde.{HiveSerdeType, hiveserde_type}
use databricks_ucx.HiveMetastore.Tables.Sql.{sql_alter_from, sql_migrate_external, sql_migrate_dbfs}
use databricks_ucx.HiveMetastore.Mapping.{Rule, TableToMigrate, as_uc_table_key}
use databricks_ucx.HiveMetastore.Grants.{Grant}
use databricks_ucx.HiveMetastore.Grants.Cluster.{Mount}
use databricks_ucx.HiveMetastore.TableMigrate.{MigrateApi}
use databricks_ucx.HiveMetastore.TableMigrate.Acl.{acl_statements, migrate_acl}
use databricks_ucx.HiveMetastore.TableMigrate.Migrate.{
  ctas_statement, is_in_place, migrate_dbfs_root_table, migrate_table_create_ctas, synced,
  migrate_external_table, with_ddl, in_place_sql, migrate_in_place, migrate_hiveserde_in_place,
  migrate_as, migrate_table, in_place_location, described_rows,
}
use databricks_ucx.HiveMetastore.TableMigrate.Trace.Statements.{Executes}
use databricks_ucx.HiveMetastore.TableMigrate.Trace.{
  Sends, Sends-trans, Sends-to, Sends-nil, state-eq, IsLogged, marked, migrate_marked-log,
  execute_each-log,
}

module _ {W : Type 0} (api : MigrateApi W) (log : W → List String) (logged : IsLogged api log) where
  migrate_dbfs_root_table-log :
      (t : Table) (rule : Rule) (grants : List Grant) (w : W) {w' : W}
      → migrate_dbfs_root_table api t rule grants w ≡ (ok true, w')
      → (sql : String) × (ws_id : String) × (sql_migrate_dbfs t (as_uc_table_key rule) ≡ ok sql)
        × Sends log w w' (marked t rule grants sql ws_id)
  unfolding migrate_dbfs_root_table
  migrate_dbfs_root_table-log t rule grants w h =
      elim (Result-cases (sql_migrate_dbfs t (as_uc_table_key rule))) [
        | inl (sql, e) ↦
            let (ws_id, sends) =
              migrate_marked-log api log logged sql t rule grants w (rw e at h) in
            (sql, ws_id, e, sends)
        | inr (error, e) ↦ absurd (ground (rw e at h, arith))
      ]

  migrate_table_create_ctas-log :
      (v : What) (t : Table) (rule : Rule) (grants : List Grant) (mounts : List Mount) (w : W)
      {w' : W}
      → what t ≡ ok v
      → migrate_table_create_ctas api t rule grants mounts w ≡ (ok true, w')
      → (ws_id : String) × Sends log w w'
          (marked t rule grants (ctas_statement api.replace v t rule mounts) ws_id)
  unfolding migrate_table_create_ctas
  migrate_table_create_ctas-log v t rule grants mounts w e h =
      migrate_marked-log api log logged (ctas_statement api.replace v t rule mounts) t rule grants w
        (rw e at h)

  synced-log :
      (t : Table) (rule : Rule) (grants : List Grant) (status : String) (w : W) {w' : W}
      → synced api t rule grants status w ≡ (ok true, w')
      → (ws_id : String) × Sends log w w'
          (sql_alter_from t (as_uc_table_key rule) ws_id ∷ acl_statements t rule grants)
  unfolding migrate_acl
  synced-log t rule grants status w h = elim (Bool-cases (status == "SUCCESS")) [
    | inl b ↦
        let (ws_id, e, h1) = continue-eq-ok _ (api.workspace_id w) (rw b at h) in
        let w1 = (api.workspace_id w).1 in
        let alter_from = sql_alter_from t (as_uc_table_key rule) ws_id in
        let (a, f, h2) = continue-eq-ok _ (api.execute alter_from w1) h1 in
        (
          ws_id,
          Sends-trans log (logged.keeps_workspace_id w) (
              Sends-trans log (logged.logs_execute alter_from w1)
                (execute_each-log api log logged _ _ h2)),
        )
    | inr b ↦ absurd (ground (rw b at h, arith))
  ]

  migrate_external_table-log :
      (t : Table) (rule : Rule) (grants : List Grant) (w : W) {w' : W}
      → migrate_external_table api t rule grants w ≡ (ok true, w')
      → (ws_id : String) × Sends log w w' (
          sql_migrate_external t (as_uc_table_key rule)
          ∷ sql_alter_from t (as_uc_table_key rule) ws_id
          ∷ acl_statements t rule grants)
  unfolding migrate_external_table
  migrate_external_table-log t rule grants w h =
      let sql = sql_migrate_external t (as_uc_table_key rule) in
      let (status, e, h1) = continue-eq-ok _ (api.fetch_sync sql w) h in
      let (ws_id, sends) = synced-log t rule grants status (api.fetch_sync sql w).1 h1 in
      (ws_id, Sends-trans log (logged.logs_sync sql w) sends)

  with_ddl-log :
      (t : Table) (rule : Rule) (grants : List Grant) (ddl : Option String) (w : W) {w' : W}
      → with_ddl api t rule grants ddl w ≡ (ok true, w')
      → (sql : String) × (ws_id : String) × (ddl ≡ some sql)
        × Sends log w w' (marked t rule grants sql ws_id)
  with_ddl-log t rule grants none w h = absurd (ground (h, arith))
  with_ddl-log t rule grants (some sql) w h = elim (Bool-cases (is_empty sql)) [
    | inl b ↦ absurd (ground (rw b at h, arith))
    | inr b ↦
        let (ws_id, sends) = migrate_marked-log api log logged sql t rule grants w (rw b at h) in
        (sql, ws_id, refl, sends)
  ]

  -- The statement is a DDL that the backend showed for the location.
  abbrev InPlace : Table → Rule → List Grant → List Mount → W → W → Type 0
  InPlace t rule grants mounts w w' =
      (sql : String) × (ws_id : String) × (v : W) × ((api.show_create t rule
          (in_place_location api.replace t mounts) v).0
        ≡ ok (some sql))
      × Sends log w w' (marked t rule grants sql ws_id)

  migrate_in_place-log :
      (serde : HiveSerdeType) (t : Table) (rule : Rule) (grants : List Grant) (mounts : List Mount)
      (w : W) {w' : W}
      → migrate_in_place api serde t rule grants mounts w ≡ (ok true, w')
      → InPlace t rule grants mounts w w'
  unfolding migrate_in_place in_place_sql
  migrate_in_place-log serde t rule grants mounts w h = elim (Bool-cases (is_in_place serde)) [
    | inl b ↦
        let location = in_place_location api.replace t mounts in
        let (ddl, e, h1) =
          continue-eq-ok (with_ddl api t rule grants) (api.show_create t rule location w)
            (rw b at h) in
        let (sql, ws_id, same, sends) = with_ddl-log t rule grants ddl _ h1 in
        (
          sql,
          ws_id,
          w,
          e ∙ ap ok same,
          Sends-trans log (logged.keeps_show_create t rule location w) sends,
        )
    | inr b ↦ absurd (ground (rw b at h, arith))
  ]

  described_rows-log : (t : Table) (w : W) → Sends log w (described_rows api t w).1 []
  described_rows-log t w = elim (Bool-cases (on_format t.table_format (λ f. f == "HIVE"))) [
    | inl e ↦ rw e (logged.keeps_describe t w)
    | inr e ↦ rw e (Sends-nil log refl)
  ]

  migrate_hiveserde_in_place-log :
      (t : Table) (rule : Rule) (grants : List Grant) (mounts : List Mount) (w : W) {w' : W}
      → migrate_hiveserde_in_place api t rule grants mounts w ≡ (ok true, w')
      → InPlace t rule grants mounts w w'
  unfolding migrate_hiveserde_in_place
  migrate_hiveserde_in_place-log t rule grants mounts w h =
      let (rows, e, h1) = continue-eq-ok _ (described_rows api t w) h in
      let (sql, ws_id, v, shown, sends) =
        migrate_in_place-log (hiveserde_type t rows) t rule grants mounts _ h1 in
      (sql, ws_id, v, shown, Sends-trans log (described_rows-log t w) sends)

  migrate_as-log :
      (v : What) (t : Table) (rule : Rule) (grants : List Grant) (mounts : List Mount)
      (in_place : Bool) (w : W) {w' : W}
      → what t ≡ ok v
      → migrate_as api v t rule grants mounts in_place w ≡ (ok true, w')
      → (statements : List String) × Executes api t rule grants mounts v in_place statements
        × Sends log w w' statements
  unfolding migrate_as ctas_statement
  migrate_as-log dbfs_root_delta t rule grants mounts in_place w e h =
      let (sql, ws_id, f, sends) = migrate_dbfs_root_table-log t rule grants w h in
      (marked t rule grants sql ws_id, Executes.deep_clone in_place ws_id f, sends)
  migrate_as-log dbfs_root_non_delta t rule grants mounts in_place w e h =
      let (ws_id, sends) = migrate_table_create_ctas-log _ t rule grants mounts w e h in
      (_, Executes.managed_copy in_place ws_id, sends)
  migrate_as-log external_no_sync t rule grants mounts in_place w e h =
      let (ws_id, sends) = migrate_table_create_ctas-log _ t rule grants mounts w e h in
      (_, Executes.external_copy in_place ws_id, sends)
  migrate_as-log external_hiveserde t rule grants mounts false w e h =
      let (ws_id, sends) = migrate_table_create_ctas-log _ t rule grants mounts w e h in
      (_, Executes.hive_copy ws_id, sends)
  migrate_as-log external_hiveserde t rule grants mounts true w e h =
      let (sql, ws_id, v, shown, sends) = migrate_hiveserde_in_place-log t rule grants mounts w h in
      (_, Executes.hive_in_place ws_id v shown, sends)
  migrate_as-log external_sync t rule grants mounts in_place w e h =
      let (ws_id, sends) = migrate_external_table-log t rule grants w h in
      (_, Executes.sync in_place ws_id, sends)
  migrate_as-log view t rule grants mounts in_place w e h =
      ([], Executes.skips_view in_place, Sends-to log (Sends-nil log refl) (state-eq h))
  migrate_as-log db_dataset t rule grants mounts in_place w e h =
      ([], Executes.skips_dataset in_place, Sends-to log (Sends-nil log refl) (state-eq h))
  migrate_as-log unknown t rule grants mounts in_place w e h =
      ([], Executes.skips_unknown in_place, Sends-to log (Sends-nil log refl) (state-eq h))

  -- A migration that returns True for a table whose target has not been seen has sent exactly the
  -- statements of the table's class, in their order: the copy, the clone or the SYNC, the marks and
  -- the grants; for a Hive table that is migrated in place the statement is a DDL that was shown for
  -- it.
  pub migrate_table-Executes :
      (seen : Dict String String) (t : TableToMigrate) (grants : List Grant) (mounts : List Mount)
      (in_place : Bool) (w : W) {w' : W}
      → has (as_uc_table_key t.rule) seen ≡ false
      → migrate_table api seen t grants mounts in_place w ≡ (ok true, w')
      → (v : What) × (statements : List String) × (what t.src ≡ ok v)
        × Executes api t.src t.rule grants mounts v in_place statements
        × Sends log w w' statements
  unfolding migrate_table
  migrate_table-Executes seen t grants mounts in_place w unseen h =
      elim (Result-cases (what t.src)) [
        | inl (v, e) ↦
            let (statements, executes, sends) =
              migrate_as-log v t.src t.rule grants mounts in_place w e (rw (unseen, e) at h) in
            (v, statements, e, executes, sends)
        | inr (error, e) ↦ absurd (ground (rw (unseen, e) at h, arith))
      ]
