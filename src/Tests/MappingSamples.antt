-- ===== src/Tests/MappingSamples.antt =====
-- Samples for hive_metastore/mapping.py.
use mathlib.Core.List.{Memᴰ, filter_map}
use mathlib.Core.List.Memᴰ as M
use databricks_ucx.Prelude.{
  String, String_eq, List, [], ◌∷◌, Option, none, some, ◌≡◌, refl, arith, any, mem, inl, inr, sym,
  subst, ap, ◌∙◌,
}
use databricks_ucx.Text.{is_dot, lower, join_dot, is_empty}
use databricks_ucx.Exec.{Result, ok, err, not_found, and_then, and_then-eq-ok}
use databricks_ucx.Dict.{Dict, get, of_pairs, update, put}
use databricks_ucx.HiveMetastore.Tables.{Table, key, is_databricks_dataset}
use databricks_ucx.HiveMetastore.Mapping.{Rule, TableToMigrate, as_hms_table_key}
use databricks_ucx.HiveMetastore.Mapping.Scope.{
  exists_in_uc, check_properties, table_in_scope, database_in_scope,
}
use databricks_ucx.HiveMetastore.Mapping.Select.{
  Strict, tables_by_key, candidate, source_schemas, databases_in_scope, candidates,
  get_tables_to_migrate,
}
use databricks_ucx.HiveMetastore.Mapping.Select.Laws.{
  StrictLaws, IsSelected, get_tables_to_migrate_sound,
}
use databricks_ucx.Tests.TableSamples.{root_table}

-- One task after the other.
abbrev keep : {A : Type 0} → Option A → List A → List A
keep none rs = rs
keep (some a) rs = a ∷ rs

unfoldable in_turn : Strict
in_turn A [] = ok []
in_turn A (task ∷ tasks) =
    let rest = in_turn A tasks in and_then task (λ o. and_then rest (λ rs. ok (keep o rs)))

module _ {A : Type 0} where
  Memᴰ-keep : (o : Option A) {a : A} {rs : List A} → Memᴰ a rs → Memᴰ a (keep o rs)
  Memᴰ-keep none m = m
  Memᴰ-keep (some b) m = Memᴰ.tail m

  kept-results :
      (tasks : List (Result (Option A))) (o : Option A) (later : List A) {task : Result (Option A)}
      {a : A}
      → task ≡ ok o
      → Memᴰ a (keep o later)
      → (Memᴰ a later → Memᴰ (ok (some a)) tasks)
      → Memᴰ (ok (some a)) (task ∷ tasks)
  kept-results tasks none later done m h = Memᴰ.tail (h m)
  kept-results tasks (some b) later done m h = elim (M.cases_cons m) [
    | inl e ↦ Memᴰ.head (ap (λ x. ok (some x)) e ∙ sym done)
    | inr n ↦ Memᴰ.tail (h n)
  ]

  no_member : (a : A) (rs : List A) → rs ≡ [] → ¬ Memᴰ a rs
  no_member a [] e m = elim m [ ]
  no_member a (r ∷ rs) e m = absurd (ground arith)

module _ (A : Type 0) where
  in_turn-results :
      (tasks : List (Result (Option A))) (rs : List A)
      → in_turn A tasks ≡ ok rs
      → (a : A) → Memᴰ a rs
      → Memᴰ (ok (some a)) tasks
  unfolding in_turn
  in_turn-results [] rs h a m = absurd (no_member a rs (ground arith) m)
  in_turn-results (task ∷ tasks) rs h a m =
      let (o, done, h₁) = and_then-eq-ok task _ h in
      let (later, rest, h₂) = and_then-eq-ok (in_turn A tasks) _ h₁ in
      let shape : keep o later ≡ rs = ground arith in
      kept-results tasks o later done (subst (Memᴰ a) (sym shape) m)
        (in_turn-results tasks later rest a)

  in_turn-complete :
      (tasks : List (Result (Option A))) (rs : List A)
      → in_turn A tasks ≡ ok rs
      → (a : A) → Memᴰ (ok (some a)) tasks
      → Memᴰ a rs
  unfolding in_turn
  in_turn-complete [] rs h a m = elim m [ ]
  in_turn-complete (task ∷ tasks) rs h a m =
      let (o, done, h₁) = and_then-eq-ok task _ h in
      let (later, rest, h₂) = and_then-eq-ok (in_turn A tasks) _ h₁ in
      let shape : keep o later ≡ rs = ground arith in
      subst (Memᴰ a) shape (elim (M.cases_cons m) [
        | inl e ↦ let it : o ≡ some a = ground arith in rw it (Memᴰ.head refl)
        | inr n ↦ Memᴰ-keep o (in_turn-complete tasks later rest a n)
      ])

abbrev in_turn_laws : StrictLaws in_turn
in_turn_laws = record { results = in_turn-results; complete = in_turn-complete }

abbrev no_target : String → Result (Dict String String)
no_target full_name = err not_found

abbrev run : String → Result (Unit {0})
run sql = ok tt

abbrev no_properties : Table → Result (List (String × String))
no_properties t = ok []

abbrev described : String → Result (List (String × String))
described database = ok []

abbrev no_keys : String → List String
no_keys properties = []

abbrev root_rule : Rule
root_rule = record {
  workspace_name = "ws";
  catalog_name = "main";
  src_schema = "db";
  dst_schema = "db";
  src_table = "t";
  dst_table = "t";
}

abbrev root_migration : TableToMigrate
root_migration = record { src = root_table; rule = root_rule }

root_selected :
    get_tables_to_migrate in_turn no_target run no_properties described no_keys
      (ok (root_rule ∷ []))
      (root_table ∷ [])
    ≡ ok (root_migration ∷ [])
unfolding get_tables_to_migrate databases_in_scope in_turn source_schemas database_in_scope get
    of_pairs update put candidates candidate tables_by_key key lower join_dot as_hms_table_key mem
    is_databricks_dataset any is_empty is_dot table_in_scope exists_in_uc check_properties
    filter_map
root_selected = refl

get_tables_to_migrate_sound_example :
    (databases : List String) × (databases_in_scope in_turn no_target run no_properties described
        no_keys
        (root_rule ∷ [])
      ≡ ok databases)
    × IsSelected no_target no_properties (root_rule ∷ []) (root_table ∷ []) databases root_migration
get_tables_to_migrate_sound_example =
    get_tables_to_migrate_sound in_turn in_turn_laws no_target run no_properties described no_keys
      (root_rule ∷ []) (root_table ∷ []) (root_migration ∷ []) root_migration root_selected
      (Memᴰ.head refl)
