-- ===== src/HiveMetastore/Mapping/Select/Laws.antt =====
-- Which tables `get_tables_to_migrate` returns.
use mathlib.Core.List.{Memᴰ, filter_map}
use mathlib.Core.List.Memᴰ as M
use databricks_ucx.Prelude.{
  String, String_eq, true, false, List, [], ◌∷◌, map, Option, some, mem, ◌≡◌, ◌≢◌, sym, ap, ◌∙◌,
  arith, inl, inr, subst, Memᴰ-filter_map, eq_iff,
}
use databricks_ucx.Dict.{Dict, get}
use databricks_ucx.Exec.{Result, ok, Result-cases, and_then-eq-ok}
use databricks_ucx.HiveMetastore.Tables.{Table, is_databricks_dataset}
use databricks_ucx.HiveMetastore.Mapping.{
  Rule, TableToMigrate, as_hms_table_key, as_uc_table_key, ucx_skip_property,
}
use databricks_ucx.HiveMetastore.Mapping.Scope.{exists_in_uc, check_properties, table_in_scope}
use databricks_ucx.HiveMetastore.Mapping.Select.{
  Strict, tables_by_key, candidate, databases_in_scope, candidates, get_tables_to_migrate,
}

candidate-eq-some :
    (crawled : Dict String Table) (databases : List String) (rule : Rule) {t : TableToMigrate}
    → candidate crawled databases rule ≡ some t
    → (t.rule ≡ rule)
      × (get (as_hms_table_key rule) crawled ≡ some t.src)
      × (mem rule.src_schema databases ≡ true)
      × (is_databricks_dataset t.src ≡ false)
unfolding candidate
candidate-eq-some crawled databases rule h = ground arith

module _ (get_table : String → Result (Dict String String)) where
  -- A table that passes the check has no skip property, and no target that it says it was upgraded
  -- to exists in Unity Catalog.
  abbrev pub AllowsMigration : Table → List (String × String) → Type 0
  AllowsMigration t [] = Unit
  AllowsMigration t ((k, v) ∷ properties) =
      (k ≢ ucx_skip_property)
      × (k ≡ "upgraded_to" → exists_in_uc get_table t v ≡ ok false)
      × AllowsMigration t properties

module _ (get_table : String → Result (Dict String String))
    (execute : String → Result (Unit {0})) where
  check_properties_sound :
      (t : TableToMigrate) (properties : List (String × String)) (u : TableToMigrate)
      → (check_properties get_table execute t properties).0 ≡ ok (some u)
      → (u ≡ t) × AllowsMigration get_table t.src properties
  unfolding check_properties
  check_properties_sound t [] u h = (ground arith, tt)
  check_properties_sound t ((k, v) ∷ properties) u h = ground (
    arith,
    check_properties_sound t properties u,
    eq_iff k ucx_skip_property,
    eq_iff k "upgraded_to",
  )

  table_in_scope_sound :
      (show_properties : Table → Result (List (String × String))) (t : TableToMigrate)
      {u : TableToMigrate}
      → (table_in_scope get_table execute show_properties t).0 ≡ ok (some u)
      → (properties : List (String × String)) × (u ≡ t)
        × (exists_in_uc get_table t.src (as_uc_table_key t.rule) ≡ ok false)
        × (show_properties t.src ≡ ok properties)
        × AllowsMigration get_table t.src properties
  unfolding table_in_scope
  table_in_scope_sound show_properties t {u} h = elim (Result-cases (show_properties t.src)) [
    | inl (properties, e) ↦
        let checked : (check_properties get_table execute t properties).0 ≡ ok (some u) =
          ground arith in
        let (same, allowed) = check_properties_sound t properties u checked in
        (properties, same, ground arith, e, allowed)
    | inr (error, e) ↦ absurd (ground arith)
  ]

-- What the program relies on of `Threads.strict`: it returns only if no task raised, and then the
-- results other than None, in any order.
pub record StrictLaws (strict : Strict) : Type 1 where
  pub results :
      (A : Type 0) (tasks : List (Result (Option A))) (rs : List A)
      → strict A tasks ≡ ok rs
      → (a : A) → Memᴰ a rs
      → Memᴰ (ok (some a)) tasks
  pub complete :
      (A : Type 0) (tasks : List (Result (Option A))) (rs : List A)
      → strict A tasks ≡ ok rs
      → (a : A) → Memᴰ (ok (some a)) tasks
      → Memᴰ a rs

-- Why a table is migrated.
pub record IsSelected (get_table : String → Result (Dict String String))
    (show_properties : Table → Result (List (String × String))) (rules : List Rule)
    (snapshot : List Table) (databases : List String) (t : TableToMigrate) : Type 0 where
  pub by_rule : Memᴰ t.rule rules
  pub crawled : get (as_hms_table_key t.rule) (tables_by_key snapshot) ≡ some t.src
  pub in_database : mem t.rule.src_schema databases ≡ true
  pub no_dataset : is_databricks_dataset t.src ≡ false
  pub no_target : exists_in_uc get_table t.src (as_uc_table_key t.rule) ≡ ok false
  pub properties : List (String × String)
  pub shown : show_properties t.src ≡ ok properties
  pub allowed : AllowsMigration get_table t.src properties

module _ (strict : Strict) (laws : StrictLaws strict)
    (get_table : String → Result (Dict String String)) (execute : String → Result (Unit {0}))
    (show_properties : Table → Result (List (String × String)))
    (describe : String → Result (List (String × String)))
    (property_keys : String → List String) where
  -- Where the rules could be loaded, `Threads.strict` returns the results of its tasks and the
  -- method returns, every table of the result comes from a rule whose source was crawled and is no
  -- Databricks dataset and whose schema is in scope; its target does not exist in Unity Catalog,
  -- and none of its properties marks it as skipped or as upgraded to a table that exists there.
  pub get_tables_to_migrate_sound :
      (rules : List Rule) (snapshot : List Table) (ts : List TableToMigrate) (t : TableToMigrate)
      → get_tables_to_migrate strict get_table execute show_properties describe property_keys
          (ok rules)
          snapshot
        ≡ ok ts
      → Memᴰ t ts
      → (databases : List String) × (databases_in_scope strict get_table execute show_properties
            describe property_keys rules
          ≡ ok databases)
        × IsSelected get_table show_properties rules snapshot databases t
  unfolding get_tables_to_migrate candidates
  get_tables_to_migrate_sound rules snapshot ts t h m =
      let (databases, scoped, ran) =
        and_then-eq-ok
          (databases_in_scope strict get_table execute show_properties describe property_keys rules)
          (λ (databases : List String). strict TableToMigrate (
            map (λ t. (table_in_scope get_table execute show_properties t).0)
              (filter_map (candidate (tables_by_key snapshot) databases) rules)))
          h in
      let (u, listed, task) =
        M.of_map (λ t. (table_in_scope get_table execute show_properties t).0)
          (filter_map (candidate (tables_by_key snapshot) databases) rules)
          (laws.results TableToMigrate _ ts ran t m) in
      let (properties, same, no_target, shown, allowed) =
        table_in_scope_sound get_table execute show_properties u {u = t} task in
      let (rule, by_rule, chosen) =
        Memᴰ-filter_map (candidate (tables_by_key snapshot) databases) rules listed in
      let (named, crawled, in_database, no_dataset) = candidate-eq-some _ databases rule chosen in
      let selected : IsSelected get_table show_properties rules snapshot databases u = record {
        by_rule = subst (λ r. Memᴰ r rules) (sym named) by_rule;
        crawled =
            ap (λ (r : Rule). get (as_hms_table_key r) (tables_by_key snapshot)) named ∙ crawled;
        in_database = ap (λ (r : Rule). mem r.src_schema databases) named ∙ in_database;
        no_dataset = no_dataset;
        no_target = no_target;
        properties = properties;
        shown = shown;
        allowed = allowed;
      } in
      (
        databases,
        scoped,
        subst (IsSelected get_table show_properties rules snapshot databases) (sym same) selected,
      )
