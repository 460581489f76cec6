-- ===== src/Tests/ViewSamples.antt =====
-- Samples for hive_metastore/view_migrate.py: `b` refers to `a`; and `c` and `d` refer to each other
-- while `e` refers to `c`.
use mathlib.Core.List.{Memᴰ, Perm, flatten}
use mathlib.Core.List.Memᴰ as M
use databricks_ucx.Prelude.{
  Option, eq_iff, ℕ, ◌≤◌, ◌+◌, String, String_eq, ◌==◌, true, false, List, [], ◌∷◌, none, some, ◌≡◌,
  ◌≢◌, refl, sym, ap, ◌∙◌, subst, arith, inl, inr, ◌⊎◌, if◌then◌else◌, All, any, mem, filter,
}
use databricks_ucx.Dict.{get}
use databricks_ucx.Text.{lower, join_dot, is_dot, is_empty}
use databricks_ucx.Exec.{Result, ok}
use databricks_ucx.HiveMetastore.Tables.{key, table_eq}
use databricks_ucx.HiveMetastore.MigrationStatus.{
  TableView, view_key, MigrationIndex, is_migrated, get_status,
}
use databricks_ucx.HiveMetastore.Views.{ViewToMigrate, TableRef, view_dependencies, dependency}
use mathlib.Core.List.{filter_map}
use databricks_ucx.HiveMetastore.Views.Sequencer.{
  returns, out_of_fuel, sequence_batches, sequence_loop, next_batch, next_of, check_circular,
  get_view_instance, is_ready, as_table_view, difference,
}
use databricks_ucx.HiveMetastore.Views.Search.{total, IsAcyclic}
use databricks_ucx.HiveMetastore.Views.Termination.{Affordable, sequence_batches_ends}
use databricks_ucx.HiveMetastore.Views.Order.{sequence_batches-IsOrdered, IsOrdered}
use databricks_ucx.HiveMetastore.Views.Partition.{IsKeyed, sequence_batches-Perm}
use databricks_ucx.HiveMetastore.Views.Divergence.{IsCircleBeside, check_circular_diverges}

abbrev view_named : String → ViewToMigrate
view_named n = record {
  src = record {
    catalog = "hive_metastore";
    database = "db";
    name = n;
    object_type = "VIEW";
    table_format = none;
    location = none;
    view_text = some "SELECT 1";
    upgraded_to = none;
    storage_properties = none;
    is_partitioned = false;
  };
  rule = record {
    workspace_name = "ws";
    catalog_name = "main";
    src_schema = "db";
    dst_schema = "db";
    src_table = n;
    dst_table = n;
  };
}

abbrev ref_to : String → TableView
ref_to n = record { catalog = "hive_metastore"; schema = "db"; name = n }

abbrev refs : ViewToMigrate → Result (List TableView)
refs v = if key v.src == "hive_metastore.db.b" then ok (ref_to "a" ∷ []) else ok []

abbrev index : MigrationIndex
index = []

abbrev two_views : List ViewToMigrate
two_views = view_named "b" ∷ view_named "a" ∷ []

abbrev two_batches : List (List ViewToMigrate)
two_batches = (view_named "a" ∷ []) ∷ (view_named "b" ∷ []) ∷ []

two_views-batches : sequence_batches refs 3 index two_views ≡ returns two_batches
unfolding sequence_batches sequence_loop next_batch next_of check_circular get_view_instance
    is_ready as_table_view difference key table_eq view_key lower join_dot is_dot filter any mem
    is_migrated get_status get
two_views-batches = refl

two_apart : table_eq (view_named "a").src (view_named "b").src ≡ false
unfolding table_eq key lower join_dot is_dot
two_apart = refl

two_apart_again : table_eq (view_named "b").src (view_named "a").src ≡ false
unfolding table_eq key lower join_dot is_dot
two_apart_again = refl

abbrev IsOneOfTwo : ViewToMigrate → Type 0
IsOneOfTwo v = (v ≡ view_named "b") ⊎ (v ≡ view_named "a")

one_of_two : (v : ViewToMigrate) → Memᴰ v two_views → IsOneOfTwo v
one_of_two v m = elim (M.cases_cons m) [
  | inl e ↦ inl e
  | inr n ↦ elim (M.cases_cons n) [ inl e ↦ inr e | inr l ↦ elim l [ ] ]
]

two_alike :
    (u v : ViewToMigrate) → IsOneOfTwo u → IsOneOfTwo v → table_eq u.src v.src ≡ true → u ≡ v
two_alike u v (inl d) (inl e) h = d ∙ sym e
two_alike u v (inr d) (inr e) h = d ∙ sym e
two_alike u v (inl d) (inr e) h = absurd (
    ground (
      arith,
      two_apart_again,
      ap (λ (x : ViewToMigrate). table_eq x.src v.src) d,
      ap (λ (x : ViewToMigrate). table_eq (view_named "b").src x.src) e,
    ))
two_alike u v (inr d) (inl e) h = absurd (
    ground (
      arith,
      two_apart,
      ap (λ (x : ViewToMigrate). table_eq x.src v.src) d,
      ap (λ (x : ViewToMigrate). table_eq (view_named "a").src x.src) e,
    ))

two_views-IsKeyed : IsKeyed two_views
two_views-IsKeyed u v m n h = two_alike u v (one_of_two u m) (one_of_two v n) h

sequence_batches-Perm_example : Perm (flatten two_batches) two_views
sequence_batches-Perm_example =
    sequence_batches-Perm refs 3 index two_views two_batches two_views-IsKeyed two_views-batches

sequence_batches-IsOrdered_example : IsOrdered refs index [] two_batches
sequence_batches-IsOrdered_example =
    sequence_batches-IsOrdered refs index 3 two_views two_batches two_views-batches

-- What the parser finds in the two texts.
abbrev parse : String → Result (List (Option (List TableRef)))
parse text =
    if text == "SELECT * FROM a"
    then ok (some (record { ref_catalog = ""; ref_db = ""; ref_name = "a" } ∷ []) ∷ [])
    else ok (some [] ∷ [])

abbrev view_b : ViewToMigrate
view_b = record (view_named "b") {
  src = record (view_named "b").src { view_text = some "SELECT * FROM a" };
}

abbrev linked : List ViewToMigrate
linked = view_b ∷ view_named "a" ∷ []

b_refers : view_dependencies parse view_b ≡ ok (ref_to "a" ∷ [])
unfolding view_dependencies dependency filter_map is_empty
b_refers = refl

a_refers : view_dependencies parse (view_named "a") ≡ ok []
unfolding view_dependencies dependency filter_map is_empty
a_refers = refl

abbrev height : TableView → ℕ
height d = if view_key d == "hive_metastore.db.b" then 2 else 1

height-a : height (ref_to "a") ≡ 1
unfolding view_key lower join_dot
height-a = refl

key_of_b : key view_b.src ≡ "hive_metastore.db.b"
unfolding key lower join_dot is_dot
key_of_b = refl

linked_falls :
    (d : TableView) (v : ViewToMigrate) (more : List TableView)
    → Memᴰ v linked
    → key v.src ≡ view_key d
    → view_dependencies parse v ≡ ok more
    → 1 + total height more ≤ height d
unfolding total
linked_falls d v more m same h = elim (M.cases_cons m) [
  | inl e ↦
      let listed : (ref_to "a" ∷ []) ≡ more =
        ground (b_refers, h, ap (view_dependencies parse) e, arith) in
      let found : view_key d ≡ "hive_metastore.db.b" =
        sym same ∙ ap (λ (u : ViewToMigrate). key u.src) e ∙ key_of_b in
      subst (λ ms. 1 + total height ms ≤ height d) listed
        (ground (arith, height-a, eq_iff (view_key d) "hive_metastore.db.b", found))
  | inr n ↦ elim (M.cases_cons n) [
    | inl e ↦
        let listed : [] ≡ more = ground (a_refers, h, ap (view_dependencies parse) e, arith) in
        subst (λ ms. 1 + total height ms ≤ height d) listed (ground arith)
    | inr l ↦ elim l [ ]
  ]
]

linked-IsAcyclic : IsAcyclic (view_dependencies parse) height linked
linked-IsAcyclic = record { positive = λ d. ground arith; falls = linked_falls }

b_cost : (ds : List TableView) → view_dependencies parse view_b ≡ ok ds → total height ds ≤ 3
unfolding total
b_cost ds h =
    let listed : (ref_to "a" ∷ []) ≡ ds = ground (b_refers, h, arith) in
    subst (λ ms. total height ms ≤ 3) listed (ground (arith, height-a))

a_cost :
    (ds : List TableView) → view_dependencies parse (view_named "a") ≡ ok ds → total height ds ≤ 3
unfolding total
a_cost ds h =
    let listed : [] ≡ ds = ground (a_refers, h, arith) in
    subst (λ ms. total height ms ≤ 3) listed (ground arith)

linked-Affordable : Affordable (view_dependencies parse) height 3 linked
linked-Affordable = (b_cost, (a_cost, tt))

sequence_batches_ends_example :
    sequence_batches (view_dependencies parse) 3 index linked ≢ out_of_fuel
sequence_batches_ends_example =
    sequence_batches_ends (view_dependencies parse) height 3 index linked linked-IsAcyclic
      linked-Affordable

-- `e` refers to `c`, and `c` and `d` to each other.
abbrev around : ViewToMigrate → Result (List TableView)
around v = if key v.src == "hive_metastore.db.d" then ok (ref_to "c" ∷ []) else ok (ref_to "d" ∷ [])

abbrev three_views : List ViewToMigrate
three_views = view_named "e" ∷ view_named "c" ∷ view_named "d" ∷ []

abbrev InCircle : TableView → Type 0
InCircle d = (d ≡ ref_to "c") ⊎ (d ≡ ref_to "d")

find_c : get_view_instance (view_key (ref_to "c")) three_views ≡ some (view_named "c")
unfolding get_view_instance view_key key lower join_dot is_dot
find_c = refl

find_d : get_view_instance (view_key (ref_to "d")) three_views ≡ some (view_named "d")
unfolding get_view_instance view_key key lower join_dot is_dot
find_d = refl

around_c : around (view_named "c") ≡ ok (ref_to "d" ∷ [])
unfolding key lower join_dot is_dot
around_c = refl

around_d : around (view_named "d") ≡ ok (ref_to "c" ∷ [])
unfolding key lower join_dot is_dot
around_d = refl

not_e :
    (table_eq (view_named "c").src (view_named "e").src ≡ false)
    × (table_eq (view_named "d").src (view_named "e").src ≡ false)
unfolding table_eq key lower join_dot is_dot
not_e = (refl, refl)

abbrev Read : ViewToMigrate → Type 0
Read v =
    (table_eq v.src (view_named "e").src ≡ false)
    × ((more : List TableView) × (around v ≡ ok more) × All InCircle more)

reads_circle :
    (d : TableView) (v : ViewToMigrate)
    → InCircle d
    → get_view_instance (view_key d) three_views ≡ some v
    → Read v
reads_circle d v (inl e) h =
    let same : view_named "c" ≡ v =
      ground (arith, find_c, ap (λ x. get_view_instance (view_key x) three_views) e) in
    subst Read same (not_e.0, (ref_to "d" ∷ [], around_c, (inr refl, tt)))
reads_circle d v (inr e) h =
    let same : view_named "d" ≡ v =
      ground (arith, find_d, ap (λ x. get_view_instance (view_key x) three_views) e) in
    subst Read same (not_e.1, (ref_to "c" ∷ [], around_d, (inl refl, tt)))

goes_round :
    (d : TableView)
    → InCircle d
    → (v : ViewToMigrate) × (more : List TableView) × (next : TableView) × (get_view_instance
          (view_key d)
          three_views
        ≡ some v)
      × (around v ≡ ok more)
      × Memᴰ next more
      × InCircle next
goes_round d (inl e) = (
  view_named "c",
  ref_to "d" ∷ [],
  ref_to "d",
  ap (λ x. get_view_instance (view_key x) three_views) e ∙ find_c,
  around_c,
  Memᴰ.head refl,
  inr refl,
)
goes_round d (inr e) = (
  view_named "d",
  ref_to "c" ∷ [],
  ref_to "c",
  ap (λ x. get_view_instance (view_key x) three_views) e ∙ find_d,
  around_d,
  Memᴰ.head refl,
  inl refl,
)

circle_beside : IsCircleBeside around (view_named "e") three_views InCircle InCircle
circle_beside = record { reads = reads_circle; goes_on = goes_round }

check_circular_diverges_example :
    check_circular around 1000 (view_named "e") three_views (ref_to "c" ∷ []) ≡ out_of_fuel
check_circular_diverges_example =
    check_circular_diverges around (view_named "e") three_views InCircle InCircle circle_beside 1000
      (ref_to "c" ∷ []) (ref_to "c") (inl refl, tt) (Memᴰ.head refl) (inl refl)
