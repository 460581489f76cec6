-- ===== src/HiveMetastore/TableMigrate/Acl.antt =====
-- hive_metastore/table_migrate.py: which grants a table keeps, and their statements.
pub mod Laws
use mathlib.Core.List.{filter_map}
use databricks_ucx.Prelude.{
  String, String_eq, ◌==◌, Bool, true, false, not, ◌||◌, List, [], ◌∷◌, ◌++◌, map, Option, none,
  some, if◌then◌else◌, filter,
}
use databricks_ucx.Exec.{is_databricks_error, Exec, pure, try_except, ◌>>=◌}
use databricks_ucx.HiveMetastore.Tables.{Table, AclMigrationWhat, legacy_tacl, principal, kind}
use databricks_ucx.HiveMetastore.Mapping.{Rule, as_uc_table_key}
use databricks_ucx.HiveMetastore.Grants.{Grant, uc_grant_sql_on}
use databricks_ucx.HiveMetastore.TableMigrate.{MigrateApi}
use databricks_ucx.WorkspaceAccess.Groups.{MigratedGroup}

-- A field that is None equals no text.
abbrev pub is_text : Option String → String → Bool
is_text none s = false
is_text (some t) s = t == s

-- The two tests of the loop of _match_grants.
unfoldable pub is_grant_on : Table → Grant → Bool
is_grant_on t g =
    if not (is_text g.keys.database t.database)
    then false
    else is_text g.keys.table t.name || is_text g.keys.view t.name

-- The account name of the first migrated group with the principal's name, or the principal.
unfoldable pub account_principal : List MigratedGroup → String → String
account_principal [] p = p
account_principal (g ∷ groups) p =
    if g.name_in_workspace == p then g.name_in_account else account_principal groups p

-- _match_grants
unfoldable pub match_grants : Table → List Grant → List MigratedGroup → List Grant
unfolding is_grant_on account_principal
match_grants t grants groups =
    map (λ (g : Grant). record g { principal = account_principal groups g.principal })
      (filter (is_grant_on t) grants)

abbrev pub has_strategy : AclMigrationWhat → List AclMigrationWhat → Bool
has_strategy a [] = false
has_strategy legacy_tacl (legacy_tacl ∷ rest) = true
has_strategy principal (principal ∷ rest) = true
has_strategy a (b ∷ rest) = has_strategy a rest

-- _compute_grants; no strategy is the empty list
unfoldable pub compute_grants :
    Table → List AclMigrationWhat → List Grant → List Grant → List MigratedGroup → List Grant
unfolding match_grants
compute_grants t strategy all_grants principal_grants groups =
    (if has_strategy legacy_tacl strategy then match_grants t all_grants groups else [])
    ++ (if has_strategy principal strategy then match_grants t principal_grants groups else [])

-- The statements that _migrate_acl executes; a grant without one is skipped.
unfoldable pub acl_statements : Table → Rule → List Grant → List String
acl_statements t rule =
    filter_map (λ (g : Grant). uc_grant_sql_on g (kind t) (as_uc_table_key rule))

module _ {W : Type 0} (api : MigrateApi W) where
  -- The loop over the statements: a DatabricksError is logged.
  unfoldable pub execute_each : List String → Exec W Bool
  execute_each [] = pure true
  execute_each (sql ∷ statements) =
      try_except is_databricks_error (pure tt) (api.execute sql) >>= λ done. execute_each statements

  -- _migrate_acl
  unfoldable pub migrate_acl : Table → Rule → List Grant → Exec W Bool
  unfolding acl_statements execute_each
  migrate_acl t rule grants = execute_each (acl_statements t rule grants)
