-- ===== src/HiveMetastore/TableMigrate/Acl/Laws.antt =====
-- hive_metastore/table_migrate.py: which statements carry the grants of a table over.
use mathlib.Core.List.{Memᴰ}
use mathlib.Core.List.Memᴰ as M
use databricks_ucx.Prelude.{
  String, Bool, true, false, List, [], some, ◌≡◌, ◌↔◌, ◌⊎◌, refl, inl, inr, subst, sym,
  if◌then◌else◌, Memᴰ-filter, filter-Memᴰ, Memᴰ-filter_map, filter_map-Memᴰ, arith,
}
use databricks_ucx.HiveMetastore.Tables.{Table, AclMigrationWhat, legacy_tacl, principal, kind}
use databricks_ucx.HiveMetastore.Mapping.{Rule, as_uc_table_key}
use databricks_ucx.HiveMetastore.Grants.{Grant, uc_grant_sql_on}
use databricks_ucx.WorkspaceAccess.Groups.{MigratedGroup}
use databricks_ucx.HiveMetastore.TableMigrate.Acl.{
  is_grant_on, account_principal, match_grants, has_strategy, compute_grants, acl_statements,
  filter,
}

-- The grant with the account name of its principal.
abbrev pub renamed : List MigratedGroup → Grant → Grant
renamed groups g = record g { principal = account_principal groups g.principal }

-- A grant that a strategy takes from the grants of its source.
abbrev pub IsTaken : Bool → Grant → List Grant → Type 0
IsTaken applies g grants = (applies ≡ true) × Memᴰ g grants

-- A grant on the table that one of the strategies takes.
abbrev pub IsCarried : Table → List AclMigrationWhat → List Grant → List Grant → Grant → Type 0
IsCarried t strategy all_grants principal_grants g =
    (IsTaken (has_strategy legacy_tacl strategy) g all_grants
      ⊎ IsTaken (has_strategy principal strategy) g principal_grants)
    × (is_grant_on t g ≡ true)

module _ (t : Table) (groups : List MigratedGroup) where
  Memᴰ-match_grants :
      (grants : List Grant) {h : Grant}
      → Memᴰ h (match_grants t grants groups)
      → (g : Grant) × Memᴰ g grants × (is_grant_on t g ≡ true) × (renamed groups g ≡ h)
  unfolding match_grants
  Memᴰ-match_grants grants m =
      let (g, n, e) = M.of_map (renamed groups) (filter (is_grant_on t) grants) m in
      let (i, on) = Memᴰ-filter (is_grant_on t) grants n in (g, i, on, e)

  match_grants-Memᴰ :
      {g : Grant} {grants : List Grant}
      → Memᴰ g grants
      → is_grant_on t g ≡ true
      → Memᴰ (renamed groups g) (match_grants t grants groups)
  unfolding match_grants
  match_grants-Memᴰ m on = M.map (renamed groups) (filter-Memᴰ (is_grant_on t) m on)

  Memᴰ-IsTaken :
      (applies : Bool) (grants : List Grant) {h : Grant}
      → Memᴰ h (if applies then match_grants t grants groups else [])
      → (g : Grant) × IsTaken applies g grants × (is_grant_on t g ≡ true) × (renamed groups g ≡ h)
  Memᴰ-IsTaken true grants m =
      let (g, n, on, e) = Memᴰ-match_grants grants m in (g, (refl, n), on, e)
  Memᴰ-IsTaken false grants m = elim m [ ]

  IsTaken-Memᴰ :
      (applies : Bool) (grants : List Grant) {g : Grant}
      → IsTaken applies g grants
      → is_grant_on t g ≡ true
      → Memᴰ (renamed groups g) (if applies then match_grants t grants groups else [])
  IsTaken-Memᴰ true grants (e, m) on = match_grants-Memᴰ m on
  IsTaken-Memᴰ false grants (e, m) on = absurd (ground (e, arith))

  module _ (strategy : List AclMigrationWhat) (all_grants principal_grants : List Grant) where
    pub Memᴰ-compute_grants :
        {h : Grant}
        → Memᴰ h (compute_grants t strategy all_grants principal_grants groups)
        → (g : Grant) × IsCarried t strategy all_grants principal_grants g × (renamed groups g ≡ h)
    unfolding compute_grants
    Memᴰ-compute_grants m = elim (M.append_cases _ m) [
      | inl n ↦ let (g, i, on, e) = Memᴰ-IsTaken _ all_grants n in (g, (inl i, on), e)
      | inr n ↦ let (g, i, on, e) = Memᴰ-IsTaken _ principal_grants n in (g, (inr i, on), e)
    ]

    pub compute_grants-Memᴰ :
        {g : Grant}
        → IsCarried t strategy all_grants principal_grants g
        → Memᴰ (renamed groups g) (compute_grants t strategy all_grants principal_grants groups)
    unfolding compute_grants
    compute_grants-Memᴰ (inl i, on) = M.append_left _ (IsTaken-Memᴰ _ all_grants i on)
    compute_grants-Memᴰ (inr i, on) = M.append_right _ (IsTaken-Memᴰ _ principal_grants i on)

    pub acl_statements_iff :
        (rule : Rule) (sql : String)
        → Memᴰ sql
            (acl_statements t rule (compute_grants t strategy all_grants principal_grants groups))
          ↔ ((g : Grant) × IsCarried t strategy all_grants principal_grants g
              × (uc_grant_sql_on (renamed groups g) (kind t) (as_uc_table_key rule) ≡ some sql))
    unfolding acl_statements
    acl_statements_iff rule sql = (
      λ m.
          let (h, n, e) = Memᴰ-filter_map _ _ m in
          let (g, carried, same) = Memᴰ-compute_grants n in
          (
            g,
            carried,
            subst (λ x. uc_grant_sql_on x (kind t) (as_uc_table_key rule) ≡ some sql) (sym same) e,
          ),
      λ (g, carried, e). filter_map-Memᴰ _ (compute_grants-Memᴰ carried) e,
    )
