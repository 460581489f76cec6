-- ===== src/HiveMetastore/Views/Termination.antt =====
-- Where no view depends on itself, however indirectly, the sequencer ends: a potential that falls
-- along every dependency bounds the search for circles, and every round migrates a view.
use mathlib.Core.List.{Memᴰ}
use databricks_ucx.Prelude.{
  ℕ, zero, suc, ◌≤◌, ◌<◌, String_eq, Bool, false, List, [], ◌∷◌, ◌++◌, ◌≡◌, ◌≢◌, subst, arith,
  Bool-cases, inl, inr, eq_iff, length, filter, length-filter-le, any, refl,
}
use databricks_ucx.HiveMetastore.Views.Batch.{>>=-eq-out_of_fuel, next_batch-eq-filter, ready_view}
use databricks_ucx.Prelude.{Memᴰ-filter}
use databricks_ucx.Exec.{Result, ok, Result-cases}
use databricks_ucx.HiveMetastore.Tables.{key, table_eq}
use databricks_ucx.HiveMetastore.MigrationStatus.{TableView, MigrationIndex}
use databricks_ucx.HiveMetastore.Views.{ViewToMigrate, not}
use databricks_ucx.HiveMetastore.Views.Sequencer.{
  out_of_fuel, next_batch, sequence_loop, difference, next_of, sequence_batches, returns,
}
use databricks_ucx.HiveMetastore.Views.Search.{
  total, IsAcyclic, Within, Within-append, check_circular_ends,
}

-- Every view of the list costs no more than the fuel.
abbrev pub Affordable :
    (ViewToMigrate → Result (List TableView)) → (TableView → ℕ) → ℕ → List ViewToMigrate → Type 0
Affordable dependencies cost fuel [] = Unit
Affordable dependencies cost fuel (v ∷ views) =
    ((ds : List TableView) → dependencies v ≡ ok ds → total cost ds ≤ fuel)
    × Affordable dependencies cost fuel views

filter-Affordable :
    (dependencies : ViewToMigrate → Result (List TableView)) (cost : TableView → ℕ) (fuel : ℕ)
    (p : ViewToMigrate → Bool) (views : List ViewToMigrate)
    → Affordable dependencies cost fuel views
    → Affordable dependencies cost fuel (filter p views)
unfolding filter
filter-Affordable dependencies cost fuel p [] h = tt
filter-Affordable dependencies cost fuel p (v ∷ views) h = elim (Bool-cases (p v)) [
  | inl e ↦ rw e ((h.0, filter-Affordable dependencies cost fuel p views h.1))
  | inr e ↦ rw e (filter-Affordable dependencies cost fuel p views h.1)
]

-- A batch that is not empty takes a view away.
length-filter-lt :
    (p : ViewToMigrate → Bool) {b : ViewToMigrate} {views : List ViewToMigrate}
    → Memᴰ b views
    → p b ≡ false
    → length (filter p views) < length views
unfolding filter
length-filter-lt p {b} (Memᴰ.head {x = x} {xs = xs} e) h =
    let h' : p x ≡ false = subst (λ y. p y ≡ false) e h in ground (arith, length-filter-le p xs)
length-filter-lt p (Memᴰ.tail {x = x} {xs = xs} m) h = ground (arith, length-filter-lt p m h)

difference-Affordable :
    (dependencies : ViewToMigrate → Result (List TableView)) (cost : TableView → ℕ) (fuel : ℕ)
    (batch views : List ViewToMigrate)
    → Affordable dependencies cost fuel views
    → Affordable dependencies cost fuel (difference views batch)
unfolding difference
difference-Affordable dependencies cost fuel batch views =
    filter-Affordable dependencies cost fuel _ views

taken_by_itself :
    (b : ViewToMigrate) (batch : List ViewToMigrate)
    → not (any (λ (c : ViewToMigrate). table_eq c.src b.src) (b ∷ batch)) ≡ false
unfolding any table_eq
taken_by_itself b batch = ground (arith, eq_iff (key b.src) (key b.src))

-- A round takes at least one view away.
length-difference-lt :
    (dependencies : ViewToMigrate → Result (List TableView)) (fuel : ℕ) (index : MigrationIndex)
    (v : ViewToMigrate) (views processed batch : List ViewToMigrate)
    → next_batch dependencies fuel index (v ∷ views) processed ≡ returns batch
    → length (difference (v ∷ views) batch) ≤ length views
unfolding difference
length-difference-lt dependencies fuel index v views processed [] h =
    absurd
      (ground (arith, (next_batch-eq-filter dependencies fuel index (v ∷ views) processed [] h).1))
length-difference-lt dependencies fuel index v views processed (b ∷ batch) h =
    let (same, _) =
      next_batch-eq-filter dependencies fuel index (v ∷ views) processed (b ∷ batch) h in
    let (m, _) =
      Memᴰ-filter (ready_view dependencies index processed) (v ∷ views)
        (subst (Memᴰ b) same (Memᴰ.head refl)) in
    omega (
      arith,
      length-filter-lt (λ u. not (any (λ c. table_eq c.src u.src) (b ∷ batch))) m
          (taken_by_itself b batch),
    )

-- What a round leaves and what it takes are views that it had.
difference-Within :
    {set : List ViewToMigrate} (batch views : List ViewToMigrate)
    → Within set views
    → Within set (difference views batch)
unfolding difference
difference-Within batch views within v m =
    within v (Memᴰ-filter (λ u. not (any (λ c. table_eq c.src u.src) batch)) views m).0

next_batch-Within :
    (dependencies : ViewToMigrate → Result (List TableView)) (fuel : ℕ) (index : MigrationIndex)
    {set : List ViewToMigrate} (views processed batch : List ViewToMigrate)
    → next_batch dependencies fuel index views processed ≡ returns batch
    → Within set views
    → Within set batch
next_batch-Within dependencies fuel index views processed batch h within v m =
    let (same, _) = next_batch-eq-filter dependencies fuel index views processed batch h in
    within v (Memᴰ-filter (ready_view dependencies index processed) views (subst (Memᴰ v) same m)).0

module _ (dependencies : ViewToMigrate → Result (List TableView)) (cost : TableView → ℕ)
    (set : List ViewToMigrate) (acyclic : IsAcyclic dependencies cost set) (fuel : ℕ)
    (index : MigrationIndex) where
  next_of_ends :
      (views processed rest : List ViewToMigrate)
      → Within set (views ++ processed)
      → Affordable dependencies cost fuel rest
      → next_of dependencies fuel index views processed rest ≢ out_of_fuel
  unfolding next_of
  next_of_ends views processed [] within h e = ground arith
  next_of_ends views processed (v ∷ rest) within h e = elim (Result-cases (dependencies v)) [
    | inr (error, failed) ↦ ground arith
    | inl (ds, read) ↦ ground (
      arith,
      check_circular_ends dependencies cost set acyclic fuel v (views ++ processed) ds within
          (h.0 ds read),
      next_of_ends views processed rest within h.1,
    )
  ]

  next_batch_ends :
      (views processed : List ViewToMigrate)
      → Within set (views ++ processed)
      → Affordable dependencies cost fuel views
      → next_batch dependencies fuel index views processed ≢ out_of_fuel
  unfolding next_batch
  next_batch_ends views processed within h e =
      ground (arith, next_of_ends views processed views within h)

  sequence_loop_ends :
      (rounds : ℕ) (views processed : List ViewToMigrate)
      → length views ≤ rounds
      → Within set views
      → Within set processed
      → Affordable dependencies cost fuel views
      → sequence_loop dependencies fuel index rounds views processed ≢ out_of_fuel
  unfolding sequence_loop
  sequence_loop_ends zero [] processed h f g a e = ground arith
  sequence_loop_ends (suc rounds) [] processed h f g a e = ground arith
  sequence_loop_ends zero (v ∷ views) processed h f g a e = absurd (omega arith)
  sequence_loop_ends (suc rounds) (v ∷ views) processed h f g a e =
      elim (>>=-eq-out_of_fuel (next_batch dependencies fuel index (v ∷ views) processed) _ e) [
        | inl stuck ↦
            next_batch_ends (v ∷ views) processed (Within-append (v ∷ views) processed f g) a stuck
        | inr (batch, made, e₁) ↦
            let left = difference (v ∷ views) batch in
            let taken =
              next_batch-Within dependencies fuel index (v ∷ views) processed batch made f in
            elim (>>=-eq-out_of_fuel
              (sequence_loop dependencies fuel index rounds left (processed ++ batch)) _ e₁) [
                | inl stuck ↦
                    sequence_loop_ends rounds left (processed ++ batch)
                      (omega (
                        arith,
                        length-difference-lt dependencies fuel index v views processed batch made,
                      ))
                      (difference-Within batch (v ∷ views) f)
                      (Within-append processed batch g taken)
                      (difference-Affordable dependencies cost fuel batch (v ∷ views) a) stuck
                | inr (later, _, e₂) ↦ ground arith
              ]
      ]

-- Where every reference has a cost of at least one, a reference to a view of the set costs more than
-- all that the view refers to together, so that no view depends on itself, and the fuel is as much as
-- the references of each view cost, the run does not run out of fuel: it returns batches or raises.
pub sequence_batches_ends :
    (dependencies : ViewToMigrate → Result (List TableView)) (cost : TableView → ℕ) (fuel : ℕ)
    (index : MigrationIndex) (views : List ViewToMigrate)
    → IsAcyclic dependencies cost views
    → Affordable dependencies cost fuel views
    → sequence_batches dependencies fuel index views ≢ out_of_fuel
unfolding sequence_batches
sequence_batches_ends dependencies cost fuel index views acyclic a =
    sequence_loop_ends dependencies cost views acyclic fuel index (length views) views []
      (omega arith) (λ v m. m) (λ v m. elim m [ ]) a
