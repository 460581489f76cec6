-- ===== src/HiveMetastore/Views/Search.antt =====
-- hive_metastore/view_migrate.py: the search of _check_circular_dependency ends where a cost falls
-- along every reference of a view of the set.
use mathlib.Core.List.{Memᴰ}
use mathlib.Core.List.Memᴰ as M
use databricks_ucx.Prelude.{
  ap, sym, ◌∙◌, ℕ, zero, suc, ◌+◌, ◌≤◌, String, String_eq, ◌==◌, List, [], ◌∷◌, ◌++◌, some, ◌≡◌,
  ◌≢◌, arith, Bool-cases, Option-cases, inl, inr, eq_iff,
}
use databricks_ucx.Exec.{Result, ok, Result-cases}
use databricks_ucx.HiveMetastore.Tables.{key, table_eq}
use databricks_ucx.HiveMetastore.MigrationStatus.{TableView, view_key}
use databricks_ucx.HiveMetastore.Views.{ViewToMigrate}
use databricks_ucx.HiveMetastore.Views.Sequencer.{out_of_fuel, get_view_instance, check_circular}

unfoldable pub total : (TableView → ℕ) → List TableView → ℕ
total cost [] = 0
total cost (d ∷ ds) = cost d + total cost ds

total-append :
    (cost : TableView → ℕ) (ds es : List TableView)
    → total cost (ds ++ es) ≡ total cost ds + total cost es
unfolding total
total-append cost [] es = omega arith
total-append cost (d ∷ ds) es = omega (arith, total-append cost ds es)

-- The cost of a reference is more than that of all that a view of the set with its key refers to.
pub record IsAcyclic (dependencies : ViewToMigrate → Result (List TableView)) (cost : TableView → ℕ)
    (set : List ViewToMigrate) : Type 0 where
  pub positive : (d : TableView) → 1 ≤ cost d
  pub falls :
      (d : TableView) (v : ViewToMigrate) (more : List TableView)
      → Memᴰ v set
      → key v.src ≡ view_key d
      → dependencies v ≡ ok more
      → 1 + total cost more ≤ cost d

-- The view that is found has the key and is one of the views.
get_view_instance-Memᴰ :
    (k : String) (views : List ViewToMigrate) {v : ViewToMigrate}
    → get_view_instance k views ≡ some v
    → (key v.src ≡ k) × Memᴰ v views
unfolding get_view_instance
get_view_instance-Memᴰ k [] h = absurd (ground arith)
get_view_instance-Memᴰ k (view ∷ views) {v} h = elim (Bool-cases (key view.src == k)) [
  | inl e ↦
      let same : view ≡ v = ground (rw e at h, arith) in
      (
        ap (λ (u : ViewToMigrate). key u.src) (sym same) ∙ (eq_iff (key view.src) k).0 e,
        Memᴰ.head (sym same),
      )
  | inr e ↦ let (same, m) = get_view_instance-Memᴰ k views (rw e at h) in (same, Memᴰ.tail m)
]

abbrev pub Within : List ViewToMigrate → List ViewToMigrate → Type 0
Within set views = (v : ViewToMigrate) → Memᴰ v views → Memᴰ v set

pub Within-append :
    {set : List ViewToMigrate} (xs ys : List ViewToMigrate)
    → Within set xs
    → Within set ys
    → Within set (xs ++ ys)
Within-append [] ys f g v m = g v m
Within-append (x ∷ xs) ys f g v m = elim (M.cases_cons m) [
  | inl e ↦ f v (Memᴰ.head e)
  | inr n ↦ Within-append xs ys (λ u k. f u (Memᴰ.tail k)) g v n
]

module _ (dependencies : ViewToMigrate → Result (List TableView)) (cost : TableView → ℕ)
    (set : List ViewToMigrate) (acyclic : IsAcyclic dependencies cost set) where
  open acyclic use {positive, falls}

  -- The search for a circle ends within as many steps as its queue costs.
  pub check_circular_ends :
      (fuel : ℕ) (initial_view : ViewToMigrate) (all_views : List ViewToMigrate)
      (queue : List TableView)
      → Within set all_views
      → total cost queue ≤ fuel
      → check_circular dependencies fuel initial_view all_views queue ≢ out_of_fuel
  unfolding check_circular total
  check_circular_ends zero i all [] within h e = ground arith
  check_circular_ends (suc fuel) i all [] within h e = ground arith
  check_circular_ends zero i all (d ∷ queue) within h e = absurd (omega (arith, positive d))
  check_circular_ends (suc fuel) i all (d ∷ queue) within h e =
      elim (Option-cases (get_view_instance (view_key d) all)) [
        | inl missing ↦
            check_circular_ends fuel i all queue within (omega (arith, positive d)) (ground arith)
        | inr (v, found) ↦ elim (Bool-cases (table_eq v.src i.src)) [
          | inl circle ↦ ground arith
          | inr other ↦ elim (Result-cases (dependencies v)) [
            | inr (error, failed) ↦ ground arith
            | inl (more, listed) ↦
                let (same, m) = get_view_instance-Memᴰ (view_key d) all found in
                check_circular_ends fuel i all (queue ++ more) within
                  (omega
                    (arith, total-append cost queue more, falls d v more (within v m) same listed))
                  (ground arith)
          ]
        ]
      ]
