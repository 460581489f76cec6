-- ===== src/HiveMetastore/TableMigrate/Revert/Counts.antt =====
-- What the revert report counts.
use databricks_ucx.Prelude.{
  ℕ, suc, ◌+◌, ◌≤◌, String, String_eq, List, [], ◌∷◌, ◌++◌, Option, none, some, ◌≡◌, refl, arith,
  inl, inr, filter, length, length-filter-le, is_some, Option-cases,
}
use databricks_ucx.Dict.{Dict, get, put}
use databricks_ucx.Dict.Totals.{total, total-put, measured, itself, or_zero, measured-itself}
use databricks_ucx.Exec.{ok, and_then-eq-ok, Result-cases}
use databricks_ucx.HiveMetastore.Tables.{Table, What, what, What_eq}
use databricks_ucx.HiveMetastore.TableMigrate.Revert.{
  lowered, is_to_revert, MigrationCount, get_tables_to_revert, count_table, what_counts,
  by_database, count_groups, get_revert_count, or_empty, Bool,
}

-- The property is set: the table is count_table.
abbrev pub is_upgraded : Table → Bool
is_upgraded t = is_some t.upgraded_to

unfoldable pub count_upgraded : List Table → ℕ
unfolding filter
count_upgraded tables = length (filter is_upgraded tables)

measured-count_upgraded :
    (o : Option (List Table)) → measured count_upgraded o ≡ count_upgraded (or_empty o)
unfolding count_upgraded filter
measured-count_upgraded none = refl
measured-count_upgraded (some tables) = refl

unfoldable pub table_count : MigrationCount → ℕ
unfolding total
table_count c = total itself c.what_count

-- The sum of a report's counts.
unfoldable pub report_total : List MigrationCount → ℕ
unfolding table_count
report_total [] = 0
report_total (c ∷ counts) = table_count c + report_total counts

count_upgraded-append :
    (ts us : List Table) → count_upgraded (ts ++ us) ≡ count_upgraded ts + count_upgraded us
unfolding count_upgraded filter
count_upgraded-append [] us = omega arith
count_upgraded-append (t ∷ ts) us = ground (arith, count_upgraded-append ts us)

total-count_table :
    (counts : Dict What ℕ) (t : Table) {counts' : Dict What ℕ}
    → count_table counts t ≡ ok counts'
    → total itself counts' ≡ total itself counts + count_upgraded (t ∷ [])
unfolding count_table count_upgraded filter
total-count_table counts t h = elim (Option-cases t.upgraded_to) [
  | inl e ↦ ground arith
  | inr (u, e) ↦ elim (Result-cases (what t)) [
    | inl (w, f) ↦ ground (
      arith,
      total-put itself w (suc (or_zero (get w counts))) counts,
      measured-itself (get w counts),
    )
    | inr (error, f) ↦ ground arith
  ]
]

total-what_counts :
    (counts : Dict What ℕ) (tables : List Table) {counts' : Dict What ℕ}
    → what_counts counts tables ≡ ok counts'
    → total itself counts' ≡ total itself counts + count_upgraded tables
unfolding what_counts count_upgraded filter
total-what_counts counts [] h = ground arith
total-what_counts counts (t ∷ tables) h = elim (Result-cases (count_table counts t)) [
  | inl (counts', e) ↦ omega (
    arith,
    total-what_counts counts' tables (rw (what_counts, e) at h),
    total-count_table counts t e,
    count_upgraded-append (t ∷ []) tables,
  )
  | inr (error, e) ↦ ground arith
]

total-by_database :
    (groups : Dict String (List Table)) (tables : List Table)
    → total count_upgraded (by_database groups tables)
      ≡ total count_upgraded groups + count_upgraded tables
unfolding by_database total count_upgraded filter
total-by_database groups [] = omega arith
total-by_database groups (t ∷ tables) =
    let here = or_empty (get t.database groups) in
    omega (
      arith,
      total-by_database (put t.database (here ++ t ∷ []) groups) tables,
      total-put count_upgraded t.database (here ++ t ∷ []) groups,
      count_upgraded-append here (t ∷ []),
      count_upgraded-append (t ∷ []) tables,
      measured-count_upgraded (get t.database groups),
    )

report_total-count_groups :
    (groups : Dict String (List Table)) {counts : List MigrationCount}
    → count_groups groups ≡ ok counts
    → report_total counts ≡ total count_upgraded groups
unfolding count_groups report_total total
report_total-count_groups [] h = ground arith
report_total-count_groups ((d, tables) ∷ groups) h =
    let (counts, e, k) = and_then-eq-ok (what_counts [] tables) _ h in
    let (later, f, l) = and_then-eq-ok (count_groups groups) _ k in
    ground (arith, total-what_counts [] tables e, report_total-count_groups groups f)

-- The report that is made of the tables to revert counts each of them whose property upgraded_to is
-- set once, under one database and one class: its counts add up to their number.
pub report_total-get_revert_count :
    (seen : Dict String String) (tables : List Table) (schema table : Option String)
    {counts : List MigrationCount}
    → get_revert_count seen tables schema table ≡ ok counts
    → report_total counts ≡ count_upgraded (get_tables_to_revert seen tables schema table)
unfolding get_revert_count total
report_total-get_revert_count seen tables schema table h =
    let chosen = get_tables_to_revert seen tables schema table in
    omega (arith, report_total-count_groups (by_database [] chosen) h, total-by_database [] chosen)

-- The counts of a report add up to no more than the number of tables in the snapshot.
pub report_total-le :
    (seen : Dict String String) (tables : List Table) (schema table : Option String)
    {counts : List MigrationCount}
    → get_revert_count seen tables schema table ≡ ok counts
    → report_total counts ≤ length tables
unfolding count_upgraded get_tables_to_revert
report_total-le seen tables schema table h =
    let chosen = get_tables_to_revert seen tables schema table in
    omega (
      arith,
      report_total-get_revert_count seen tables schema table h,
      length-filter-le is_upgraded chosen,
      length-filter-le (is_to_revert (lowered schema) (lowered table) seen) tables,
    )
