-- ===== src/HiveMetastore/Views/Divergence.antt =====
-- `_check_circular_dependency` where a circle of views does not lead through the first one.
use mathlib.Core.List.{Memᴰ}
use mathlib.Core.List.Memᴰ as M
use databricks_ucx.Prelude.{
  ℕ, zero, suc, String_eq, false, List, [], ◌∷◌, ◌++◌, none, some, ◌≡◌, refl, arith, Option-cases,
  inl, inr, subst, All, ◌∙◌,
}
use databricks_ucx.Exec.{Result, ok}
use databricks_ucx.HiveMetastore.Tables.{table_eq}
use databricks_ucx.HiveMetastore.MigrationStatus.{TableView, view_key}
use databricks_ucx.HiveMetastore.Views.{ViewToMigrate}
use databricks_ucx.HiveMetastore.Views.Sequencer.{out_of_fuel, get_view_instance, check_circular}

-- What a search of `initial_view` may visit: from a reference of `reached` it gets to views that can
-- be read, are not `initial_view` and refer to `reached` only, and from one of `circle` it gets to
-- `circle` again.
pub record IsCircleBeside (dependencies : ViewToMigrate → Result (List TableView))
    (initial_view : ViewToMigrate) (all_views : List ViewToMigrate)
    (reached circle : TableView → Type 0) : Type 0 where
  pub reads :
      (d : TableView) (v : ViewToMigrate)
      → reached d
      → get_view_instance (view_key d) all_views ≡ some v
      → (table_eq v.src initial_view.src ≡ false)
        × ((more : List TableView) × (dependencies v ≡ ok more) × All reached more)
  pub goes_on :
      (d : TableView)
      → circle d
      → (v : ViewToMigrate) × (more : List TableView) × (next : TableView) × (get_view_instance
            (view_key d)
            all_views
          ≡ some v)
        × (dependencies v ≡ ok more)
        × Memᴰ next more
        × circle next

All-append :
    (P : TableView → Type 0) (xs ys : List TableView) → All P xs → All P ys → All P (xs ++ ys)
All-append P [] ys h k = k
All-append P (x ∷ xs) ys h k = (h.0, All-append P xs ys h.1 k)

module _ (dependencies : ViewToMigrate → Result (List TableView)) (initial_view : ViewToMigrate)
    (all_views : List ViewToMigrate) where
  check_circular-step :
      (fuel : ℕ) (x : TableView) (queue : List TableView) {v : ViewToMigrate}
      {more : List TableView}
      → get_view_instance (view_key x) all_views ≡ some v
      → table_eq v.src initial_view.src ≡ false
      → dependencies v ≡ ok more
      → check_circular dependencies (suc fuel) initial_view all_views (x ∷ queue)
        ≡ check_circular dependencies fuel initial_view all_views (queue ++ more)
  unfolding check_circular
  check_circular-step fuel x queue found other listed = ground arith

  check_circular-skip :
      (fuel : ℕ) (x : TableView) (queue : List TableView)
      → get_view_instance (view_key x) all_views ≡ none
      → check_circular dependencies (suc fuel) initial_view all_views (x ∷ queue)
        ≡ check_circular dependencies fuel initial_view all_views queue
  unfolding check_circular
  check_circular-skip fuel x queue missing = ground arith

  module _ (reached circle : TableView → Type 0)
      (beside : IsCircleBeside dependencies initial_view all_views reached circle) where
    open beside use {reads, goes_on}

    head_goes_on :
        (x : TableView) (v : ViewToMigrate) (more : List TableView)
        → circle x
        → get_view_instance (view_key x) all_views ≡ some v
        → dependencies v ≡ ok more
        → (next : TableView) × Memᴰ next more × circle next
    head_goes_on x v more c found listed =
        let (v', more', next, found', listed', m, c') = goes_on x c in
        let same : v ≡ v' = ground arith in
        let same_deps : more' ≡ more = ground arith in (next, subst (Memᴰ next) same_deps m, c')

    -- A search whose queue has a reference of the circle, and otherwise only references that it may
    -- visit, never ends: it runs out of any fuel.
    pub check_circular_diverges :
        (fuel : ℕ) (queue : List TableView) (d : TableView)
        → All reached queue
        → Memᴰ d queue
        → circle d
        → check_circular dependencies fuel initial_view all_views queue ≡ out_of_fuel
    unfolding check_circular
    check_circular_diverges fuel [] d r m c = elim m [ ]
    check_circular_diverges zero (x ∷ queue) d r m c = refl
    check_circular_diverges (suc fuel) (x ∷ queue) d r m c =
        elim (Option-cases (get_view_instance (view_key x) all_views)) [
          | inl missing ↦ elim (M.cases_cons m) [
            | inl here ↦
                let (v, _, _, found, _, _, _) = goes_on d c in
                let found' : get_view_instance (view_key x) all_views ≡ some v =
                  rw (← here) found in
                absurd (ground arith)
            | inr later ↦
                check_circular-skip fuel x queue missing
                ∙ check_circular_diverges fuel queue d r.1 later c
          ]
          | inr (v, found) ↦
              let (other, (more, listed, all)) = reads x v r.0 found in
              check_circular-step fuel x queue found other listed ∙ elim (M.cases_cons m) [
                | inl here ↦
                    let (next, k, c') = head_goes_on x v more (subst circle here c) found listed in
                    check_circular_diverges fuel (queue ++ more) next
                      (All-append reached queue more r.1 all) (M.append_right queue k) c'
                | inr later ↦
                    check_circular_diverges fuel (queue ++ more) d
                      (All-append reached queue more r.1 all) (M.append_left more later) c
              ]
        ]
