-- ===== src/HiveMetastore/Grants/Laws.antt =====
-- What the users of an interactive cluster are granted, and what becomes of it in Unity Catalog.
use mathlib.Core.List.{Memᴰ, flat_map}
use mathlib.Core.List.Memᴰ as M
use databricks_ucx.Prelude.{
  String, String_eq, pair_eq, true, false, List, [], ◌∷◌, none, some, ◌≡◌, refl, subst, arith, inl,
  inr, ◌⊎◌, Bool-cases, Option-cases, is_some,
}
use databricks_ucx.Dict.{Dict, get}
use databricks_ucx.Exec.{ok}
use databricks_ucx.HiveMetastore.Tables.{Table}
use databricks_ucx.HiveMetastore.Grants.{
  Grant, type_and_key, hive_to_uc, uc_grant_sql, uc_grant_sql_on,
}
use databricks_ucx.HiveMetastore.Grants.Cluster.{
  Mount, get_privilege, on_table, on_view, on_database, table_grants, granted_databases,
  database_grants, get_grants, privilege_is,
}

Memᴰ-flat_map {ℓ κ} :
    {A : Type ℓ} {B : Type κ} (f : A → List B) {b : B} (xs : List A)
    → Memᴰ b (flat_map f xs)
    → (a : A) × Memᴰ a xs × Memᴰ b (f a)
unfolding flat_map
Memᴰ-flat_map f [] m = elim m [ ]
Memᴰ-flat_map f (x ∷ xs) m = elim (M.append_cases (f x) m) [
  | inl n ↦ (x, Memᴰ.head refl, n)
  | inr n ↦ let (a, k, h) = Memᴰ-flat_map f xs n in (a, Memᴰ.tail k, h)
]

-- How a grant of a cluster looks.
pub data IsClusterGrant (principals : List String) : Grant → Type 0 where
  reads :
      (p : String) (t : Table)
      → Memᴰ p principals
      → IsClusterGrant principals
          (record { principal = p; action_type = "SELECT"; keys = on_table t })
  writes :
      (p : String) (t : Table)
      → Memᴰ p principals
      → IsClusterGrant principals
          (record { principal = p; action_type = "ALL PRIVILEGES"; keys = on_table t })
  views :
      (p : String) (t : Table)
      → Memᴰ p principals
      → is_some t.view_text ≡ true
      → IsClusterGrant principals
          (record { principal = p; action_type = "ALL PRIVILEGES"; keys = on_view t })
  uses :
      (p : String) (d : String)
      → Memᴰ p principals
      → IsClusterGrant principals
          (record { principal = p; action_type = "USAGE"; keys = on_database d })

grant_uc :
    (principals : List String) (g : Grant)
    → IsClusterGrant principals g
    → ((is_some g.keys.view ≡ false) × ((sql : String) × (uc_grant_sql g ≡ ok (some sql))))
      ⊎ ((is_some g.keys.view ≡ true) × (uc_grant_sql g ≡ ok none))
unfolding uc_grant_sql uc_grant_sql_on type_and_key hive_to_uc get
grant_uc principals g (reads p t m) = inl (refl, (_, refl))
grant_uc principals g (writes p t m) = inl (refl, (_, refl))
grant_uc principals g (views p t m e) = inr (refl, refl)
grant_uc principals g (uses p d m) = inl (refl, (_, refl))

module _ (replace : String → String → String → String) (locations : Dict String String)
    (mounts : List Mount) where
  Memᴰ-table_grants :
      (principals : List String) (t : Table) {g : Grant}
      → Memᴰ g (table_grants replace locations mounts principals t).0
      → IsClusterGrant principals g
  unfolding table_grants
  Memᴰ-table_grants principals t m =
      elim (Bool-cases (privilege_is (get_privilege replace locations mounts t) "READ_FILES")) [
        | inl e ↦
            let (p, n, same) = M.of_map _ principals (rw e at m) in
            subst (IsClusterGrant principals) same (reads p t n)
        | inr e ↦
            elim (Bool-cases
              (privilege_is (get_privilege replace locations mounts t) "WRITE_FILES")) [
                | inl e₂ ↦
                    let (p, n, same) = M.of_map _ principals (rw e₂ at (rw e at m)) in
                    subst (IsClusterGrant principals) same (writes p t n)
                | inr e₂ ↦ elim (Option-cases t.view_text) [
                  | inl e₃ ↦ elim (rw e₃ at (rw e₂ at (rw e at m))) [ ]
                  | inr (text, e₃) ↦
                      let (p, n, same) = M.of_map _ principals (rw e₃ at (rw e₂ at (rw e at m))) in
                      subst (IsClusterGrant principals) same (views p t n (ground arith))
                ]
              ]
      ]

  -- Every grant that the principals of a cluster get is for one of them: on a table to read it or
  -- with all privileges, on a table that is a view with all privileges, or the usage of a database.
  pub get_grants-IsClusterGrant :
      (principals : List String) (tables : List Table) (g : Grant)
      → Memᴰ g (get_grants replace locations mounts principals tables)
      → IsClusterGrant principals g
  unfolding get_grants database_grants
  get_grants-IsClusterGrant principals tables g m =
      elim (M.append_cases
        (flat_map (λ t. (table_grants replace locations mounts principals t).0) tables) m) [
          | inl n ↦ let (t, _, k) = Memᴰ-flat_map _ tables n in Memᴰ-table_grants principals t k
          | inr n ↦
              let (d, _, k) =
                Memᴰ-flat_map _ (granted_databases replace locations mounts principals tables) n in
              let (p, there, same) = M.of_map _ principals k in
              subst (IsClusterGrant principals) same (uses p d there)
        ]

  -- Of the grants that the principals of a cluster get, each grant on a view has no statement in
  -- Unity Catalog, and every other grant has one.
  pub get_grants-uc_grant_sql :
      (principals : List String) (tables : List Table) (g : Grant)
      → Memᴰ g (get_grants replace locations mounts principals tables)
      → ((is_some g.keys.view ≡ false) × ((sql : String) × (uc_grant_sql g ≡ ok (some sql))))
        ⊎ ((is_some g.keys.view ≡ true) × (uc_grant_sql g ≡ ok none))
  get_grants-uc_grant_sql principals tables g m =
      grant_uc principals g (get_grants-IsClusterGrant principals tables g m)
