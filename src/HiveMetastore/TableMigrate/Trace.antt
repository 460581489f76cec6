-- ===== src/HiveMetastore/TableMigrate/Trace.antt =====
-- hive_metastore/table_migrate.py: the statements that a migration leaves in the log of the backend.
pub mod Statements
pub mod Refines
pub mod Works
pub mod Caught
use databricks_ucx.Prelude.{
  String, Bool, true, false, List, [], ◌∷◌, ◌++◌, ◌≡◌, refl, subst, sym, ap, ◌∙◌, arith, inl, inr,
  Option, Bool-cases,
}
use databricks_ucx.Exec.{
  Result, ok, err, is_databricks_error, Exec, pure, try_except, continue-eq-ok, handled,
}
use databricks_ucx.HiveMetastore.Tables.{Table}
use databricks_ucx.HiveMetastore.Tables.Sql.{sql_alter_to, sql_alter_from}
use databricks_ucx.HiveMetastore.Mapping.{Rule, as_uc_table_key}
use databricks_ucx.HiveMetastore.Grants.{Grant}
use databricks_ucx.HiveMetastore.TableMigrate.{MigrateApi, mark_statements, try_marked}
use databricks_ucx.HiveMetastore.TableMigrate.Acl.{acl_statements, execute_each, migrate_acl}
use databricks_ucx.HiveMetastore.TableMigrate.Migrate.{migrate_marked, then_acl}

-- The statement of the migration, both marks and the grants.
abbrev pub marked : Table → Rule → List Grant → String → String → List String
marked t rule grants sql ws_id =
    sql
    ∷ sql_alter_to t (as_uc_table_key rule)
    ∷ sql_alter_from t (as_uc_table_key rule) ws_id
    ∷ acl_statements t rule grants

pub append_assoc {ℓ} : {A : Type ℓ} (xs ys zs : List A) → (xs ++ ys) ++ zs ≡ xs ++ (ys ++ zs)
append_assoc [] ys zs = refl
append_assoc (x ∷ xs) ys zs = ap (λ l. x ∷ l) (append_assoc xs ys zs)

pub append_nil {ℓ} : {A : Type ℓ} (xs : List A) → xs ++ [] ≡ xs
append_nil [] = refl
append_nil (x ∷ xs) = ap (λ l. x ∷ l) (append_nil xs)

-- A handler that only logs leaves the world as the block left it.
pub handled-state {ℓ} :
    {W : Type ℓ} {A : Type 0} (a : A) (p : Result A × W)
    → (handled is_databricks_error (pure a) p).1 ≡ p.1
handled-state a (ok b, w) = refl
handled-state a (err e, w) = ground arith

-- A block that returned True did not go through its handler.
handled-true {ℓ} :
    {W : Type ℓ} (p : Result Bool × W)
    → (handled is_databricks_error (pure false) p).0 ≡ ok true
    → p ≡ (ok true, (handled is_databricks_error (pure false) p).1)
handled-true (ok b, w) h = ground arith
handled-true (err e, w) h = ground arith

module _ {W : Type 0} (log : W → List String) where
  -- From the first world to the second the statements are sent.
  pub record Sends (w w' : W) (statements : List String) : Type 0 where
    pub sends : log w' ≡ log w ++ statements

  pub Sends-trans :
      {w w1 w2 : W} {first second : List String}
      → Sends w w1 first
      → Sends w1 w2 second
      → Sends w w2 (first ++ second)
  Sends-trans {w} {w1} {w2} {first} {second} e f = record {
    sends = f.sends ∙ ap (λ l. l ++ second) e.sends ∙ append_assoc (log w) first second;
  }

  pub Sends-nil : {w w' : W} → log w' ≡ log w → Sends w w' []
  Sends-nil {w} e = record { sends = e ∙ sym (append_nil (log w)) }

  pub Sends-to : {w w' v : W} {l : List String} → Sends w v l → v ≡ w' → Sends w w' l
  Sends-to {w} {l = l} e p = subst (λ x. Sends w x l) p e

-- A log of the statements that are sent to the backend, whether they fail or not. What only reads
-- leaves the log.
pub record IsLogged {W : Type 0} (api : MigrateApi W) (log : W → List String) : Type 0 where
  pub logs_execute : (sql : String) (w : W) → Sends log w (api.execute sql w).1 (sql ∷ [])
  pub logs_sync : (sql : String) (w : W) → Sends log w (api.fetch_sync sql w).1 (sql ∷ [])
  pub keeps_workspace_id : (w : W) → Sends log w (api.workspace_id w).1 []
  pub keeps_describe : (t : Table) (w : W) → Sends log w (api.describe t w).1 []
  pub keeps_show_create :
      (t : Table) (rule : Rule) (location : Option String) (w : W)
      → Sends log w (api.show_create t rule location w).1 []

-- The world of an action that has ended in a known pair.
pub state-eq {ℓ} :
    {W : Type ℓ} {A : Type 0} {p : Result A × W} {r : Result A} {w : W} → p ≡ (r, w) → p.1 ≡ w
state-eq = ap (λ (q : _ × _). q.1)

module _ {W : Type 0} (api : MigrateApi W) (log : W → List String) (logged : IsLogged api log) where
  mark_statements-log :
      (sql : String) (t : Table) (rule : Rule) (w : W) {b : Bool} {w' : W}
      → mark_statements api sql t rule w ≡ (ok b, w')
      → (ws_id : String) × Sends log w w' (
          sql
          ∷ sql_alter_to t (as_uc_table_key rule)
          ∷ sql_alter_from t (as_uc_table_key rule) ws_id
          ∷ [])
  unfolding mark_statements
  mark_statements-log sql t rule w h =
      let (a, e, h1) = continue-eq-ok _ (api.execute sql w) h in
      let w1 = (api.execute sql w).1 in
      let alter_to = sql_alter_to t (as_uc_table_key rule) in
      let (b, f, h2) = continue-eq-ok _ (api.execute alter_to w1) h1 in
      let w2 = (api.execute alter_to w1).1 in
      let (ws_id, g, h3) = continue-eq-ok _ (api.workspace_id w2) h2 in
      let w3 = (api.workspace_id w2).1 in
      let alter_from = sql_alter_from t (as_uc_table_key rule) ws_id in
      let (c, i, h4) = continue-eq-ok _ (api.execute alter_from w3) h3 in
      (
        ws_id,
        Sends-to log
            (Sends-trans log (logged.logs_execute sql w) (
              Sends-trans log (logged.logs_execute alter_to w1) (
                Sends-trans log (logged.keeps_workspace_id w2)
                  (logged.logs_execute alter_from w3))))
            (state-eq h4),
      )

  pub execute_each-log :
      (statements : List String) (w : W) {b : Bool} {w' : W}
      → execute_each api statements w ≡ (ok b, w')
      → Sends log w w' statements
  unfolding execute_each
  execute_each-log [] w h = Sends-to log (Sends-nil log refl) (state-eq h)
  execute_each-log (sql ∷ statements) w h =
      let (a, e, h1) =
        continue-eq-ok _ (try_except is_databricks_error (pure tt) (api.execute sql) w) h in
      Sends-trans log
        (Sends-to log (logged.logs_execute sql w) (sym (handled-state tt (api.execute sql w))))
        (execute_each-log statements _ h1)

  -- A migration that returns True has sent the statement, both marks and the grants.
  pub migrate_marked-log :
      (sql : String) (t : Table) (rule : Rule) (grants : List Grant) (w : W) {w' : W}
      → migrate_marked api sql t rule grants w ≡ (ok true, w')
      → (ws_id : String) × Sends log w w' (marked t rule grants sql ws_id)
  unfolding migrate_marked try_marked migrate_acl
  migrate_marked-log sql t rule grants w h =
      let (done, e, h1) = continue-eq-ok _ (try_marked api sql t rule w) h in
      elim (Bool-cases done) [
        | inl b ↦
            let (ws_id, marks) =
              mark_statements-log sql t rule w
                (handled-true (mark_statements api sql t rule w) (e ∙ ap ok b)) in
            (ws_id, Sends-trans log marks (execute_each-log _ _ (rw b at h1)))
        | inr b ↦ absurd (ground (rw b at h1, arith))
      ]
