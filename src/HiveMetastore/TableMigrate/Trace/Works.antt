-- ===== src/HiveMetastore/TableMigrate/Trace/Works.antt =====
-- hive_metastore/table_migrate.py: that a table is migrated where the backend executes every
-- statement.
use databricks_ucx.Prelude.{
  subst, String, String_eq, Bool, true, false, List, [], ◌∷◌, ◌≡◌, refl, ap, ◌∙◌, arith, inl, inr,
}
use databricks_ucx.Dict.{Dict, has}
use databricks_ucx.Exec.{
  Result, ok, err, is_databricks_error, Exec, pure, try_except, continue, handled, Result-cases,
  is_ok,
}
use databricks_ucx.HiveMetastore.Tables.{
  Table, What, external_sync, external_hiveserde, external_no_sync, dbfs_root_delta,
  dbfs_root_non_delta, view, db_dataset, unknown, what,
}
use databricks_ucx.HiveMetastore.Tables.Laws.{dbfs_root_delta-sql_migrate_dbfs}
use databricks_ucx.HiveMetastore.Tables.Sql.{
  sql_alter_to, sql_alter_from, sql_migrate_dbfs, sql_migrate_external,
}
use databricks_ucx.HiveMetastore.Mapping.{Rule, TableToMigrate, as_uc_table_key}
use databricks_ucx.HiveMetastore.Grants.{Grant}
use databricks_ucx.HiveMetastore.Grants.Cluster.{Mount}
use databricks_ucx.HiveMetastore.TableMigrate.{MigrateApi, mark_statements, try_marked}
use databricks_ucx.HiveMetastore.TableMigrate.Acl.{acl_statements, execute_each, migrate_acl}
use databricks_ucx.HiveMetastore.TableMigrate.Migrate.{
  ctas_statement, migrate_marked, then_acl, migrate_dbfs_root_table, migrate_table_create_ctas,
  synced, migrate_external_table, migrate_as, migrate_table,
}
use databricks_ucx.HiveMetastore.TableMigrate.Trace.{Sends, IsLogged}
use databricks_ucx.HiveMetastore.TableMigrate.Trace.Statements.{Executes}
use databricks_ucx.HiveMetastore.TableMigrate.Trace.Refines.{migrate_table-Executes}

-- Every statement succeeds, and the workspace is known.
pub record IsWorking {W : Type 0} (api : MigrateApi W) : Type 0 where
  pub executes : (sql : String) (w : W) → (api.execute sql w).0 ≡ ok tt
  pub synchronizes : (sql : String) (w : W) → (api.fetch_sync sql w).0 ≡ ok "SUCCESS"
  pub ws_id : String
  pub answers : (w : W) → (api.workspace_id w).0 ≡ ok ws_id

continue-ok {ℓ κ μ} :
    {W : Type ℓ} {A : Type κ} {B : Type μ} (f : A → Exec W B) (p : Result A × W) {a : A}
    → p.0 ≡ ok a
    → continue f p ≡ f a p.1
continue-ok f (ok b, w) h = ap (λ x. f x w) (ground (h, arith))
continue-ok f (err e, w) h = absurd (ground (h, arith))

handled-ok {ℓ} :
    {W : Type ℓ} {A : Type 0} (handler : Exec W A) (p : Result A × W) {a : A}
    → p.0 ≡ ok a
    → (handled is_databricks_error handler p).0 ≡ ok a
handled-ok handler (ok b, w) h = h
handled-ok handler (err e, w) h = absurd (ground (h, arith))

module _ {W : Type 0} (api : MigrateApi W) (working : IsWorking api) where
  mark_statements-ok :
      (sql : String) (t : Table) (rule : Rule) (w : W)
      → (mark_statements api sql t rule w).0 ≡ ok true
  unfolding mark_statements
  mark_statements-ok sql t rule w =
      let alter_to = sql_alter_to t (as_uc_table_key rule) in
      let alter_from = sql_alter_from t (as_uc_table_key rule) working.ws_id in
      let w1 = (api.execute sql w).1 in
      let w2 = (api.execute alter_to w1).1 in
      let w3 = (api.workspace_id w2).1 in
      ap (λ (p : Result Bool × W). p.0)
        (continue-ok _ (api.execute sql w) (working.executes sql w)
          ∙ continue-ok _ (api.execute alter_to w1) (working.executes alter_to w1)
          ∙ continue-ok _ (api.workspace_id w2) (working.answers w2)
          ∙ continue-ok _ (api.execute alter_from w3) (working.executes alter_from w3))

  execute_each-ok : (statements : List String) (w : W) → (execute_each api statements w).0 ≡ ok true
  unfolding execute_each
  execute_each-ok [] w = refl
  execute_each-ok (sql ∷ statements) w =
      let p = try_except is_databricks_error (pure tt) (api.execute sql) w in
      ap (λ (p : Result Bool × W). p.0)
        (continue-ok (λ done. execute_each api statements) p
          (handled-ok (pure tt) (api.execute sql w) (working.executes sql w)))
      ∙ execute_each-ok statements p.1

  migrate_marked-ok :
      (sql : String) (t : Table) (rule : Rule) (grants : List Grant) (w : W)
      → (migrate_marked api sql t rule grants w).0 ≡ ok true
  unfolding migrate_marked try_marked migrate_acl
  migrate_marked-ok sql t rule grants w =
      let p = try_marked api sql t rule w in
      ap (λ (p : Result Bool × W). p.0)
        (continue-ok (then_acl api t rule grants) p (
          handled-ok (pure false) (mark_statements api sql t rule w)
            (mark_statements-ok sql t rule w)))
      ∙ execute_each-ok (acl_statements t rule grants) p.1

  migrate_dbfs_root_table-ok :
      (t : Table) (rule : Rule) (grants : List Grant) (w : W)
      → what t ≡ ok dbfs_root_delta
      → (migrate_dbfs_root_table api t rule grants w).0 ≡ ok true
  unfolding migrate_dbfs_root_table
  migrate_dbfs_root_table-ok t rule grants w e =
      let target = as_uc_table_key rule in
      let built : is_ok (sql_migrate_dbfs t target) ≡ true =
        dbfs_root_delta-sql_migrate_dbfs t target e in
      elim (Result-cases (sql_migrate_dbfs t target)) [
        | inl (sql, f) ↦ rw f (migrate_marked-ok sql t rule grants w)
        | inr (error, f) ↦ absurd (cc (rw f at built))
      ]

  migrate_table_create_ctas-ok :
      (v : What) (t : Table) (rule : Rule) (grants : List Grant) (mounts : List Mount) (w : W)
      → what t ≡ ok v
      → (migrate_table_create_ctas api t rule grants mounts w).0 ≡ ok true
  unfolding migrate_table_create_ctas
  migrate_table_create_ctas-ok v t rule grants mounts w e =
      rw e (migrate_marked-ok (ctas_statement api.replace v t rule mounts) t rule grants w)

  migrate_external_table-ok :
      (t : Table) (rule : Rule) (grants : List Grant) (w : W)
      → (migrate_external_table api t rule grants w).0 ≡ ok true
  unfolding migrate_external_table migrate_acl
  migrate_external_table-ok t rule grants w =
      let sql = sql_migrate_external t (as_uc_table_key rule) in
      let w1 = (api.fetch_sync sql w).1 in
      let w2 = (api.workspace_id w1).1 in
      let alter_from = sql_alter_from t (as_uc_table_key rule) working.ws_id in
      ap (λ (p : Result Bool × W). p.0)
        (continue-ok (synced api t rule grants) (api.fetch_sync sql w) (working.synchronizes sql w)
          ∙ continue-ok _ (api.workspace_id w1) (working.answers w1)
          ∙ continue-ok _ (api.execute alter_from w2) (working.executes alter_from w2))
      ∙ execute_each-ok (acl_statements t rule grants) _

  migrate_as-ok :
      (v : What) (t : Table) (rule : Rule) (grants : List Grant) (mounts : List Mount) (w : W)
      → what t ≡ ok v
      → (migrate_as api v t rule grants mounts false w).0 ≡ ok true
  unfolding migrate_as
  migrate_as-ok dbfs_root_delta t rule grants mounts w e =
      migrate_dbfs_root_table-ok t rule grants w e
  migrate_as-ok dbfs_root_non_delta t rule grants mounts w e =
      migrate_table_create_ctas-ok _ t rule grants mounts w e
  migrate_as-ok external_sync t rule grants mounts w e = migrate_external_table-ok t rule grants w
  migrate_as-ok external_hiveserde t rule grants mounts w e =
      migrate_table_create_ctas-ok _ t rule grants mounts w e
  migrate_as-ok external_no_sync t rule grants mounts w e =
      migrate_table_create_ctas-ok _ t rule grants mounts w e
  migrate_as-ok view t rule grants mounts w e = refl
  migrate_as-ok db_dataset t rule grants mounts w e = refl
  migrate_as-ok unknown t rule grants mounts w e = refl

  migrate_table-ok :
      (seen : Dict String String) (t : TableToMigrate) (grants : List Grant) (mounts : List Mount)
      (w : W) {v : What}
      → what t.src ≡ ok v
      → has (as_uc_table_key t.rule) seen ≡ false
      → (migrate_table api seen t grants mounts false w).0 ≡ ok true
  unfolding migrate_table
  migrate_table-ok seen t grants mounts w {v} e unseen =
      rw (unseen, e) (migrate_as-ok v t.src t.rule grants mounts w e)

-- The classes of which a table is sent a statement.
abbrev pub is_migratable : What → Bool
is_migratable view = false
is_migratable db_dataset = false
is_migratable unknown = false
is_migratable v = true

module _ {W : Type 0} (api : MigrateApi W) (log : W → List String) (mounts : List Mount) where
  -- The statements of the class were sent, at least one, and the migration has returned True.
  pub record IsMigrated (t : TableToMigrate) (grants : List Grant) (v : What) (w : W)
      (p : Result Bool × W) : Type 0 where
    pub returned : p.0 ≡ ok true
    pub first : String
    pub later : List String
    pub executes : Executes api t.src t.rule grants mounts v false (first ∷ later)
    pub sent : Sends log w p.1 (first ∷ later)

  abbrev IsSome : List String → Type 0
  IsSome statements = (first : String) × (later : List String) × (statements ≡ first ∷ later)

  -- The statements of a class that is migrated are not the empty list.
  Executes-IsSome :
      (t : Table) (rule : Rule) (grants : List Grant) {v : What} {statements : List String}
      → Executes api t rule grants mounts v false statements
      → is_migratable v ≡ true
      → IsSome statements
  Executes-IsSome t rule grants (Executes.deep_clone in_place ws_id e) h = (_, _, refl)
  Executes-IsSome t rule grants (Executes.managed_copy in_place ws_id) h = (_, _, refl)
  Executes-IsSome t rule grants (Executes.external_copy in_place ws_id) h = (_, _, refl)
  Executes-IsSome t rule grants (Executes.hive_copy ws_id) h = (_, _, refl)
  Executes-IsSome t rule grants (Executes.sync in_place ws_id) h = (_, _, refl)
  Executes-IsSome t rule grants (Executes.skips_view in_place) h = absurd (ground (h, arith))
  Executes-IsSome t rule grants (Executes.skips_dataset in_place) h = absurd (ground (h, arith))
  Executes-IsSome t rule grants (Executes.skips_unknown in_place) h = absurd (ground (h, arith))

  -- Where the backend executes every statement, every SYNC succeeds and the workspace answers, a
  -- table whose target has not been seen and that is no view, no dataset and not UNKNOWN is migrated
  -- without in-place DDL: the migration returns True and has sent the statements of its class, of
  -- which there is at least one.
  pub migrate_table-IsMigrated :
      IsWorking api
      → IsLogged api log
      → (seen : Dict String String) (t : TableToMigrate) (grants : List Grant) (w : W) {v : What}
      → what t.src ≡ ok v
      → is_migratable v ≡ true
      → has (as_uc_table_key t.rule) seen ≡ false
      → IsMigrated t grants v w (migrate_table api seen t grants mounts false w)
  migrate_table-IsMigrated working logged seen t grants w {v} e migratable unseen =
      let p = migrate_table api seen t grants mounts false w in
      let returned = migrate_table-ok api working seen t grants mounts w e unseen in
      let (u, statements, f, executes, sends) =
        migrate_table-Executes api log logged seen t grants mounts false w unseen
          (ap (λ (r : Result Bool). (r, p.1)) returned) in
      let same : u ≡ v = ground (e, f, arith) in
      let executes' =
        subst (λ x. Executes api t.src t.rule grants mounts x false statements) same executes in
      let (first, later, g) = Executes-IsSome t.src t.rule grants executes' migratable in
      record {
        returned = returned;
        first = first;
        later = later;
        executes = subst (Executes api t.src t.rule grants mounts v false) g executes';
        sent = subst (Sends log w p.1) g sends;
      }
