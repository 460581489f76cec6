-- ===== src/HiveMetastore/TableMigrate/Trace/Caught.antt =====
-- hive_metastore/table_migrate.py: what may escape a migration as an exception.
use databricks_ucx.Prelude.{
  String, String_eq, Bool, true, false, List, [], ◌∷◌, ◌≡◌, ◌≢◌, refl, subst, ap, ◌∙◌, arith, inl,
  inr, Bool-cases,
}
use databricks_ucx.Dict.{Dict, has}
use databricks_ucx.Exec.{
  Error, Result, ok, err, is_databricks_error, Exec, pure, try_except, continue, handled,
  Result-cases,
}
use databricks_ucx.HiveMetastore.Tables.{
  Table, What, external_sync, external_hiveserde, external_no_sync, dbfs_root_delta,
  dbfs_root_non_delta, view, db_dataset, unknown, what, what_external,
}
use databricks_ucx.HiveMetastore.Tables.Sql.{sql_migrate_dbfs}
use databricks_ucx.HiveMetastore.Mapping.{Rule, TableToMigrate, as_uc_table_key}
use databricks_ucx.HiveMetastore.Grants.{Grant}
use databricks_ucx.HiveMetastore.Grants.Cluster.{Mount}
use databricks_ucx.HiveMetastore.TableMigrate.{MigrateApi, of_result, mark_statements, try_marked}
use databricks_ucx.HiveMetastore.TableMigrate.Acl.{acl_statements, execute_each, migrate_acl}
use databricks_ucx.HiveMetastore.TableMigrate.Migrate.{
  ctas_statement, migrate_marked, then_acl, migrate_dbfs_root_table, migrate_table_create_ctas,
  migrate_as, migrate_table,
}

-- An action that ends without a DatabricksError, in any world.
pub record IsCaught {W : Type 0} {A : Type 0} (m : Exec W A) : Type 0 where
  pub not_raised : (w : W) (e : Error) → (m w).0 ≡ err e → is_databricks_error e ≡ false

handled-caught {ℓ} :
    {W : Type ℓ} {A : Type 0} (a : A) (p : Result A × W) (e : Error)
    → (handled is_databricks_error (pure a) p).0 ≡ err e
    → is_databricks_error e ≡ false
handled-caught a (ok b, w) e h = absurd (ground (h, arith))
handled-caught a (err d, w) e h = ground (h, arith)

continue-caught :
    {W : Type 0} {A B : Type 0} (f : A → Exec W B) (p : Result A × W) (e : Error)
    → ((d : Error) → p.0 ≡ err d → is_databricks_error d ≡ false)
    → ((a : A) → IsCaught (f a))
    → (continue f p).0 ≡ err e
    → is_databricks_error e ≡ false
continue-caught f (ok a, w) e g k h = (k a).not_raised w e h
continue-caught f (err d, w) e g k h = g e (ground (h, arith))

module _ {W : Type 0} where
  pub try_except-IsCaught :
      {A : Type 0} (a : A) (m : Exec W A) → IsCaught (try_except is_databricks_error (pure a) m)
  try_except-IsCaught a m = record { not_raised = λ w e h. handled-caught a (m w) e h }

  pub pure-IsCaught : {A : Type 0} (a : A) → IsCaught (pure {W = W} a)
  pure-IsCaught a = record { not_raised = λ w e h. absurd (ground (h, arith)) }

  -- A sequence of actions of which each ends without a DatabricksError.
  pub sequence-IsCaught :
      {A B : Type 0} (m : Exec W A) (f : A → Exec W B)
      → IsCaught m
      → ((a : A) → IsCaught (f a))
      → IsCaught {W = W} (λ w. continue f (m w))
  sequence-IsCaught m f g k = record {
    not_raised = λ w e h. continue-caught f (m w) e (g.not_raised w) k h;
  }

  module _ (api : MigrateApi W) where
    execute_each-IsCaught : (statements : List String) → IsCaught (execute_each api statements)
    unfolding execute_each
    execute_each-IsCaught [] = pure-IsCaught true
    execute_each-IsCaught (sql ∷ statements) =
        sequence-IsCaught (try_except is_databricks_error (pure tt) (api.execute sql))
          (λ done. execute_each api statements) (try_except-IsCaught tt (api.execute sql))
          (λ done. execute_each-IsCaught statements)

    then_acl-IsCaught :
        (t : Table) (rule : Rule) (grants : List Grant) (done : Bool)
        → IsCaught (then_acl api t rule grants done)
    unfolding migrate_acl
    then_acl-IsCaught t rule grants true = execute_each-IsCaught (acl_statements t rule grants)
    then_acl-IsCaught t rule grants false = pure-IsCaught false

    migrate_marked-IsCaught :
        (sql : String) (t : Table) (rule : Rule) (grants : List Grant)
        → IsCaught (migrate_marked api sql t rule grants)
    unfolding migrate_marked try_marked
    migrate_marked-IsCaught sql t rule grants =
        sequence-IsCaught (try_marked api sql t rule) (then_acl api t rule grants)
          (try_except-IsCaught false (mark_statements api sql t rule))
          (then_acl-IsCaught t rule grants)

    of_result-IsCaught :
        {A : Type 0} (r : Result A)
        → ((e : Error) → r ≡ err e → is_databricks_error e ≡ false)
        → IsCaught (of_result {W = W} r)
    of_result-IsCaught (ok a) h = pure-IsCaught a
    of_result-IsCaught (err d) h = record { not_raised = λ w e k. h e k }

    sql_migrate_dbfs-caught :
        (t : Table) (target : String) (e : Error)
        → sql_migrate_dbfs t target ≡ err e
        → is_databricks_error e ≡ false
    unfolding sql_migrate_dbfs
    sql_migrate_dbfs-caught t target e h = ground arith

    what-caught : (t : Table) (e : Error) → what t ≡ err e → is_databricks_error e ≡ false
    unfolding what what_external
    what-caught t e h = ground arith

    migrate_table_create_ctas-IsCaught :
        (t : Table) (rule : Rule) (grants : List Grant) (mounts : List Mount)
        → IsCaught (migrate_table_create_ctas api t rule grants mounts)
    unfolding migrate_table_create_ctas
    migrate_table_create_ctas-IsCaught t rule grants mounts =
        sequence-IsCaught (of_result (what t))
          (λ v. migrate_marked api (ctas_statement api.replace v t rule mounts) t rule grants)
          (of_result-IsCaught (what t) (what-caught t))
          (λ v. migrate_marked-IsCaught _ t rule grants)

    migrate_dbfs_root_table-IsCaught :
        (t : Table) (rule : Rule) (grants : List Grant)
        → IsCaught (migrate_dbfs_root_table api t rule grants)
    unfolding migrate_dbfs_root_table
    migrate_dbfs_root_table-IsCaught t rule grants =
        sequence-IsCaught (of_result (sql_migrate_dbfs t (as_uc_table_key rule)))
          (λ sql. migrate_marked api sql t rule grants)
          (of_result-IsCaught _ (sql_migrate_dbfs-caught t (as_uc_table_key rule)))
          (λ sql. migrate_marked-IsCaught sql t rule grants)

    migrate_as-IsCaught :
        (v : What) (t : Table) (rule : Rule) (grants : List Grant) (mounts : List Mount)
        → v ≢ external_sync
        → IsCaught (migrate_as api v t rule grants mounts false)
    unfolding migrate_as
    migrate_as-IsCaught dbfs_root_delta t rule grants mounts n =
        migrate_dbfs_root_table-IsCaught t rule grants
    migrate_as-IsCaught dbfs_root_non_delta t rule grants mounts n =
        migrate_table_create_ctas-IsCaught t rule grants mounts
    migrate_as-IsCaught external_sync t rule grants mounts n = absurd (n refl)
    migrate_as-IsCaught external_hiveserde t rule grants mounts n =
        migrate_table_create_ctas-IsCaught t rule grants mounts
    migrate_as-IsCaught external_no_sync t rule grants mounts n =
        migrate_table_create_ctas-IsCaught t rule grants mounts
    migrate_as-IsCaught view t rule grants mounts n = pure-IsCaught true
    migrate_as-IsCaught db_dataset t rule grants mounts n = pure-IsCaught true
    migrate_as-IsCaught unknown t rule grants mounts n = pure-IsCaught true

    pub migrate_table-IsCaught :
        (seen : Dict String String) (t : TableToMigrate) (grants : List Grant) (mounts : List Mount)
        → what t.src ≢ ok external_sync
        → IsCaught (migrate_table api seen t grants mounts false)
    unfolding migrate_table
    migrate_table-IsCaught seen t grants mounts n =
        elim (Bool-cases (has (as_uc_table_key t.rule) seen)) [
          | inl b ↦ rw b (pure-IsCaught true)
          | inr b ↦ elim (Result-cases (what t.src)) [
            | inl (v, e) ↦
                rw (b, e) (migrate_as-IsCaught v t.src t.rule grants mounts (λ p. n (e ∙ ap ok p)))
            | inr (d, e) ↦
                rw (b, e)
                  (record {
                    not_raised = λ w c k.
                        subst (λ x. is_databricks_error x ≡ false) (ground (k, arith))
                          (what-caught t.src d e);
                  })
          ]
        ]
