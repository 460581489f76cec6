-- ===== src/HiveMetastore/Views/Order.antt =====
-- The batches of a run that returns: every view once, each behind what it depends on.
use databricks_ucx.Prelude.{
  ℕ, zero, suc, String_eq, Bool, true, not, List, [], ◌∷◌, ◌++◌, map, ◌≡◌, refl, sym, subst, arith,
  Bool-cases, inl, inr, ◌⊎◌, filter, mem, All, length,
}
use databricks_ucx.Exec.{Result, ok}
use databricks_ucx.HiveMetastore.MigrationStatus.{TableView, MigrationIndex, is_migrated}
use databricks_ucx.HiveMetastore.Views.{ViewToMigrate, TableView_eq}
use databricks_ucx.HiveMetastore.Views.Sequencer.{
  returns, next_batch, difference, sequence_loop, sequence_batches, is_nil, is_ready, as_table_view,
}
use databricks_ucx.HiveMetastore.Views.Batch.{
  >>=-eq-returns, next_batch-eq-filter, ready_view, ready_with-true,
}

-- A dependency is among the views of earlier batches or has been migrated before.
abbrev pub IsDone : MigrationIndex → List ViewToMigrate → TableView → Type 0
IsDone index earlier d =
    (mem d (map as_table_view earlier) ≡ true) ⊎ (is_migrated index d.schema d.name ≡ true)

either_way :
    (p q : TableView → Bool) (ds : List TableView)
    → is_nil (filter (λ d. not (q d)) (filter (λ d. not (p d)) ds)) ≡ true
    → All (λ d. (p d ≡ true) ⊎ (q d ≡ true)) ds
unfolding filter
either_way p q [] h = tt
either_way p q (d ∷ ds) h = elim (Bool-cases (p d)) [
  | inl e ↦ (inl e, either_way p q ds (rw e at h))
  | inr e ↦ elim (Bool-cases (q d)) [
    | inl e₂ ↦ (inr e₂, either_way p q ds (rw e₂ at (rw e at h)))
    | inr e₂ ↦ absurd (ground arith)
  ]
]

is_nil-filter :
    (p : TableView → Bool) (ds : List TableView) → is_nil ds ≡ true → is_nil (filter p ds) ≡ true
unfolding filter
is_nil-filter p [] h = refl
is_nil-filter p (d ∷ ds) h = absurd (ground arith)

is_ready-nil :
    (index : MigrationIndex) (processed : List ViewToMigrate) (ds : List TableView)
    → is_ready index processed ds ≡ true
    → is_nil (
        filter
          (λ d. not (is_migrated index d.schema d.name))
          (filter (λ d. not (mem d (map as_table_view processed))) ds))
      ≡ true
unfolding is_ready
is_ready-nil index processed ds h = ground (
  arith,
  h,
  is_nil-filter (λ d. not (mem d (map as_table_view processed))) ds,
  is_nil-filter (λ d. not (is_migrated index d.schema d.name))
      (filter (λ d. not (mem d (map as_table_view processed))) ds),
)

is_ready-IsDone :
    (index : MigrationIndex) (processed : List ViewToMigrate) (ds : List TableView)
    → is_ready index processed ds ≡ true
    → All (IsDone index processed) ds
is_ready-IsDone index processed ds h = either_way _ _ ds (is_ready-nil index processed ds h)

module _ (dependencies : ViewToMigrate → Result (List TableView)) (index : MigrationIndex) where
  -- Every view of a batch could be read, and all that it depends on is done.
  abbrev pub IsServed : List ViewToMigrate → ViewToMigrate → Type 0
  IsServed earlier v =
      (ds : List TableView) × (dependencies v ≡ ok ds) × All (IsDone index earlier) ds

  abbrev pub IsOrdered : List ViewToMigrate → List (List ViewToMigrate) → Type 0
  IsOrdered earlier [] = Unit
  IsOrdered earlier (batch ∷ batches) =
      All (IsServed earlier) batch × IsOrdered (earlier ++ batch) batches

  filter-IsServed :
      (earlier views : List ViewToMigrate)
      → All (IsServed earlier) (filter (ready_view dependencies index earlier) views)
  unfolding filter
  filter-IsServed earlier [] = tt
  filter-IsServed earlier (v ∷ views) =
      elim (Bool-cases (ready_view dependencies index earlier v)) [
        | inl e ↦
            let (ds, read, ready) = ready_with-true (is_ready index earlier) (dependencies v) e in
            rw e
              (((ds, read, is_ready-IsDone index earlier ds ready), filter-IsServed earlier views))
        | inr e ↦ rw e (filter-IsServed earlier views)
      ]

  module _ (fuel : ℕ) where
    sequence_loop-IsOrdered :
        (rounds : ℕ) (views processed : List ViewToMigrate) (batches : List (List ViewToMigrate))
        → sequence_loop dependencies fuel index rounds views processed ≡ returns batches
        → IsOrdered processed batches
    unfolding sequence_loop
    sequence_loop-IsOrdered rounds views processed [] h = tt
    sequence_loop-IsOrdered zero [] processed (b ∷ bs) h = absurd (ground arith)
    sequence_loop-IsOrdered (suc rounds) [] processed (b ∷ bs) h = absurd (ground arith)
    sequence_loop-IsOrdered zero (v ∷ views) processed (b ∷ bs) h = absurd (ground arith)
    sequence_loop-IsOrdered (suc rounds) (v ∷ views) processed (b ∷ bs) h =
        let (batch, made, h₁) =
          >>=-eq-returns (next_batch dependencies fuel index (v ∷ views) processed) _ h in
        let (later, left, h₂) =
          >>=-eq-returns
            (sequence_loop dependencies fuel index rounds (difference (v ∷ views) batch)
              (processed ++ batch))
            _ h₁ in
        let (same, _) =
          next_batch-eq-filter dependencies fuel index (v ∷ views) processed batch made in
        let here =
          subst (All (IsServed processed)) (sym same) (filter-IsServed processed (v ∷ views)) in
        let rest =
          sequence_loop-IsOrdered rounds (difference (v ∷ views) batch) (processed ++ batch) later
            left in
        let shape : (batch ∷ later) ≡ (b ∷ bs) = ground arith in
        subst (IsOrdered processed) shape (here, rest)

    -- Where the run returns, the dependencies of each view could be read, and each of them is among
    -- the views of an earlier batch or is migrated by the index.
    pub sequence_batches-IsOrdered :
        (views : List ViewToMigrate) (batches : List (List ViewToMigrate))
        → sequence_batches dependencies fuel index views ≡ returns batches
        → IsOrdered [] batches
    unfolding sequence_batches
    sequence_batches-IsOrdered views batches h =
        sequence_loop-IsOrdered (length views) views [] batches h
