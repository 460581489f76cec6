-- ===== src/HiveMetastore/Views/Partition.antt =====
-- The batches of a run that returns hold each view of the set exactly once.
use mathlib.Core.List.{Memᴰ, Perm, flatten, perm_middle}
use mathlib.Core.List.Perm
use databricks_ucx.Prelude.{
  ℕ, zero, suc, String_eq, Bool, true, not, List, [], ◌∷◌, ◌++◌, ◌≡◌, refl, sym, ap, ◌∙◌, subst,
  arith, Bool-cases, inl, inr, filter, any, eq_iff, Memᴰ-filter, filter-Memᴰ, length,
}
use databricks_ucx.Exec.{Result}
use databricks_ucx.HiveMetastore.Tables.{key, table_eq}
use databricks_ucx.HiveMetastore.MigrationStatus.{TableView, MigrationIndex}
use databricks_ucx.HiveMetastore.Views.{ViewToMigrate}
use databricks_ucx.HiveMetastore.Views.Sequencer.{
  returns, next_batch, difference, sequence_loop, sequence_batches,
}
use databricks_ucx.HiveMetastore.Views.Batch.{>>=-eq-returns, next_batch-eq-filter, ready_view}

-- A set of views: views with the same key are the same view.
abbrev pub IsKeyed : List ViewToMigrate → Type 0
IsKeyed views =
    (a b : ViewToMigrate) → Memᴰ a views → Memᴰ b views → table_eq a.src b.src ≡ true → a ≡ b

any-Memᴰ :
    (p : ViewToMigrate → Bool) {a : ViewToMigrate} {xs : List ViewToMigrate}
    → Memᴰ a xs
    → p a ≡ true
    → any p xs ≡ true
unfolding any
any-Memᴰ p (Memᴰ.head {x = x} e) h =
    let k : p x ≡ true = subst (λ y. p y ≡ true) e h in ground arith
any-Memᴰ p (Memᴰ.tail {x = x} m) h = ground (arith, any-Memᴰ p m h)

any-witness :
    (p : ViewToMigrate → Bool) (xs : List ViewToMigrate)
    → any p xs ≡ true
    → (a : ViewToMigrate) × Memᴰ a xs × (p a ≡ true)
unfolding any
any-witness p [] h = absurd (ground arith)
any-witness p (x ∷ xs) h = elim (Bool-cases (p x)) [
  | inl e ↦ (x, Memᴰ.head refl, e)
  | inr e ↦ let (a, m, k) = any-witness p xs (ground arith) in (a, Memᴰ.tail m, k)
]

filter-congr :
    (p q : ViewToMigrate → Bool) (xs : List ViewToMigrate)
    → ((a : ViewToMigrate) → Memᴰ a xs → p a ≡ q a)
    → filter p xs ≡ filter q xs
unfolding filter
filter-congr p q [] h = refl
filter-congr p q (x ∷ xs) h =
    ground (arith, h x (Memᴰ.head refl), filter-congr p q xs (λ a m. h a (Memᴰ.tail m)))

filter-partition :
    (p : ViewToMigrate → Bool) (xs : List ViewToMigrate)
    → Perm (filter p xs ++ filter (λ a. not (p a)) xs) xs
unfolding filter
filter-partition p [] = Perm.refl []
filter-partition p (x ∷ xs) = elim (Bool-cases (p x)) [
  | inl e ↦ rw e (Perm.cons x (filter-partition p xs))
  | inr e ↦ rw e (
      Perm.trans (perm_middle (filter p xs) (filter (λ a. not (p a)) xs))
        (Perm.cons x (filter-partition p xs)))
]

same_key : (v : ViewToMigrate) → table_eq v.src v.src ≡ true
unfolding table_eq
same_key v = ground (arith, eq_iff (key v.src) (key v.src))

module _ (p : ViewToMigrate → Bool) (views : List ViewToMigrate) (keyed : IsKeyed views) where
  taken-eq :
      (v : ViewToMigrate)
      → Memᴰ v views
      → any (λ (b : ViewToMigrate). table_eq b.src v.src) (filter p views) ≡ p v
  taken-eq v m = elim (Bool-cases (p v)) [
    | inl e ↦ any-Memᴰ _ (filter-Memᴰ p m e) (same_key v) ∙ sym e
    | inr e ↦
        elim (Bool-cases (any (λ (b : ViewToMigrate). table_eq b.src v.src) (filter p views))) [
          | inr k ↦ k ∙ sym e
          | inl k ↦
              let (b, n, same) = any-witness _ (filter p views) k in
              let (n', chosen) = Memᴰ-filter p views n in
              let clash : p v ≡ true = subst (λ u. p u ≡ true) (keyed b v n' m same) chosen in
              absurd (ground arith)
        ]
  ]

  difference-filter : difference views (filter p views) ≡ filter (λ v. not (p v)) views
  unfolding difference
  difference-filter = filter-congr _ _ views (λ v m. ap not (taken-eq v m))

  difference-IsKeyed : (batch : List ViewToMigrate) → IsKeyed (difference views batch)
  unfolding difference
  difference-IsKeyed batch a b m n e =
      keyed a b (Memᴰ-filter _ views m).0 (Memᴰ-filter _ views n).0 e

returns-nil-Perm :
    {batches : List (List ViewToMigrate)} → returns [] ≡ returns batches → Perm (flatten batches) []
unfolding flatten
returns-nil-Perm {batches} h =
    let same : [] ≡ batches = ground arith in
    subst (λ (bs : List (List ViewToMigrate)). Perm (flatten bs) []) same (Perm.refl [])

module _ (dependencies : ViewToMigrate → Result (List TableView)) (fuel : ℕ)
    (index : MigrationIndex) where
  sequence_loop-Perm :
      (rounds : ℕ) (views processed : List ViewToMigrate) (batches : List (List ViewToMigrate))
      → IsKeyed views
      → sequence_loop dependencies fuel index rounds views processed ≡ returns batches
      → Perm (flatten batches) views
  unfolding sequence_loop flatten
  sequence_loop-Perm zero [] processed batches keyed h = returns-nil-Perm h
  sequence_loop-Perm (suc rounds) [] processed batches keyed h = returns-nil-Perm h
  sequence_loop-Perm zero (v ∷ views) processed batches keyed h = absurd (ground arith)
  sequence_loop-Perm (suc rounds) (v ∷ views) processed batches keyed h =
      let (batch, made, h₁) =
        >>=-eq-returns (next_batch dependencies fuel index (v ∷ views) processed) _ h in
      let (later, left, h₂) =
        >>=-eq-returns
          (sequence_loop dependencies fuel index rounds (difference (v ∷ views) batch)
            (processed ++ batch))
          _ h₁ in
      let (same, _) =
        next_batch-eq-filter dependencies fuel index (v ∷ views) processed batch made in
      let ready = ready_view dependencies index processed in
      let rest : Perm (flatten later) (difference (v ∷ views) batch) =
        sequence_loop-Perm rounds (difference (v ∷ views) batch) (processed ++ batch) later
          (difference-IsKeyed ready (v ∷ views) keyed batch) left in
      let shape : (batch ∷ later) ≡ batches = ground arith in
      let rest' : Perm (flatten later) (filter (λ u. not (ready u)) (v ∷ views)) =
        subst (λ b. Perm (flatten later) b)
          (ap (difference (v ∷ views)) same ∙ difference-filter ready (v ∷ views) keyed) rest in
      subst (λ bs. Perm (flatten bs) (v ∷ views)) shape
        (subst (λ b. Perm (b ++ flatten later) (v ∷ views)) (sym same)
          (Perm.trans (Perm.append_left (filter ready (v ∷ views)) rest')
            (filter-partition ready (v ∷ views))))

  -- Where views with the same key are the same view and the run returns, its batches together hold
  -- exactly the views of the set, each view once.
  pub sequence_batches-Perm :
      (views : List ViewToMigrate) (batches : List (List ViewToMigrate))
      → IsKeyed views
      → sequence_batches dependencies fuel index views ≡ returns batches
      → Perm (flatten batches) views
  unfolding sequence_batches
  sequence_batches-Perm views batches keyed h =
      sequence_loop-Perm (length views) views [] batches keyed h
