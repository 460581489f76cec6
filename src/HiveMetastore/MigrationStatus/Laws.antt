-- ===== src/HiveMetastore/MigrationStatus/Laws.antt =====
-- What the migration index and the refreshed migration status guarantee.
use mathlib.Core.List.{Memᴰ}
use mathlib.Core.List.Memᴰ as M
use databricks_ucx.Prelude.{
  String, String_eq, pair_eq, true, List, [], ◌∷◌, map, Option, none, some, ◌≡◌, refl, sym, ap, ◌∙◌,
  arith, Bool-cases, inl, inr, Option-cases, subst,
}
use databricks_ucx.Text.{lower, join_dot, split_dots, join_dot-split_dots}
use databricks_ucx.Dict.{Dict, get}
use databricks_ucx.Dict.Laws.{get→Memᴰ, Memᴰ-of_pairs}
use databricks_ucx.HiveMetastore.Tables.{Table, key}
use databricks_ucx.HiveMetastore.MigrationStatus.{
  MigrationStatus, index_of, is_set, if_has_target, get_status, destination,
}
use databricks_ucx.HiveMetastore.MigrationStatus.Refresher.{
  any_property, with_target, status_of, unmigrated,
}

if_has_target-eq-some :
    (o : Option MigrationStatus) {ms : MigrationStatus}
    → if_has_target o ≡ some ms
    → (o ≡ some ms) × (is_set ms.dst_table ≡ true)
if_has_target-eq-some none h = cc
if_has_target-eq-some (some m) {ms} h = ground arith

-- What the index of a list of statuses finds for a schema and a table is one of the statuses, it
-- names that schema and table in lower case, and its target table is set.
pub get_status_sound :
    (tables : List MigrationStatus) (schema table : String) {ms : MigrationStatus}
    → get_status (index_of tables) schema table ≡ some ms
    → Memᴰ ms tables
      × (ms.src_schema ≡ lower schema)
      × (ms.src_table ≡ lower table)
      × (is_set ms.dst_table ≡ true)
unfolding get_status index_of
get_status_sound tables schema table {ms} h =
    let (found, target) =
      if_has_target-eq-some (get (lower schema, lower table) (index_of tables)) h in
    let m =
      Memᴰ-of_pairs (map (λ ms. ((ms.src_schema, ms.src_table), ms)) tables)
        (get→Memᴰ _ _ _ found) in
    let (ms', n, e) = M.of_map (λ ms. ((ms.src_schema, ms.src_table), ms)) tables m in
    let same : ms' ≡ ms = ap (λ (p : (String × String) × MigrationStatus). p.1) e in
    let keys : (ms'.src_schema, ms'.src_table) ≡ (lower schema, lower table) =
      ap (λ (p : (String × String) × MigrationStatus). p.0) e in
    (
      subst (λ x. Memᴰ x tables) same n,
      ap (λ (x : MigrationStatus). x.src_schema) (sym same)
          ∙ ap (λ (p : String × String). p.0) keys,
      ap (λ (x : MigrationStatus). x.src_table) (sym same) ∙ ap (λ (p : String × String). p.1) keys,
      target,
    )

destination-with_target :
    (ms : MigrationStatus) (parts : List String) (c : String)
    → ms.dst_catalog ≡ none
    → (with_target ms parts).dst_catalog ≡ some c
    → destination (with_target ms parts) ≡ lower (join_dot parts)
unfolding destination with_target
destination-with_target ms [] c n h = absurd (ground arith)
destination-with_target ms (a ∷ []) c n h = absurd (ground arith)
destination-with_target ms (a ∷ b ∷ []) c n h = absurd (ground arith)
destination-with_target ms (a ∷ b ∷ d ∷ []) c n h = refl
destination-with_target ms (a ∷ b ∷ d ∷ e ∷ r) c n h = absurd (ground arith)

module _ (reverse : Dict String String) (show_properties : String → String → List String)
    (timestamp : String) where
  status_of_migrated :
      (t : Table) (target : String)
      → get (key t) reverse ≡ some target
      → any_property (show_properties (lower t.database) (lower t.name)) ≡ true
      → status_of reverse show_properties timestamp t
        ≡ with_target (unmigrated (lower t.database) (lower t.name) timestamp) (split_dots target)
  unfolding status_of
  status_of_migrated t target e b = rw (e, status_of) (rw b)

  -- A status that has a target catalog has as its destination the table that was seen as upgraded
  -- from the source, in lower case, and the source's own property is set.
  pub destination-status_of :
      (t : Table) (c : String)
      → (status_of reverse show_properties timestamp t).dst_catalog ≡ some c
      → (target : String) × (get (key t) reverse ≡ some target)
        × (any_property (show_properties (lower t.database) (lower t.name)) ≡ true)
        × (destination (status_of reverse show_properties timestamp t) ≡ lower target)
  unfolding status_of
  destination-status_of t c h = elim (Option-cases (get (key t) reverse)) [
    | inl e ↦ absurd (ground arith)
    | inr (target, e) ↦
        elim (Bool-cases (any_property (show_properties (lower t.database) (lower t.name)))) [
          | inl b ↦ (
            target,
            e,
            b,
            ap destination (status_of_migrated t target e b)
                ∙ destination-with_target (unmigrated (lower t.database) (lower t.name) timestamp)
                    (split_dots target) c refl
                    (ap (λ (m : MigrationStatus). m.dst_catalog)
                        (sym (status_of_migrated t target e b))
                      ∙ h)
                ∙ ap lower (join_dot-split_dots target),
          )
          | inr b ↦ absurd (ground arith)
        ]
  ]
