-- ===== src/HiveMetastore/Tables/Laws.antt =====
-- Which kind of migration `Table.what` chooses, and what the choice guarantees.
use databricks_ucx.Prelude.{
  if◌then◌else◌, String, String_eq, ◌==◌, true, false, Option, none, some, ◌≡◌, ◌≢◌, ◌↔◌, arith,
  eq_iff, inl, ◌⊎◌, inr, Option-cases, refl,
}
use databricks_ucx.Text.{upper}
use databricks_ucx.Exec.{ok, err, attribute_error, is_ok}
use databricks_ucx.HiveMetastore.Tables.{
  external_sync, dbfs_root_delta, dbfs_root_non_delta, view, db_dataset, unknown, Table, is_delta,
  is_view, is_dbfs_root, is_dbfs_mnt, is_databricks_dataset, is_format_supported_for_sync, what,
  what_external, on_format, external_hiveserde, external_no_sync,
}
use databricks_ucx.HiveMetastore.Tables.Sql.{sql_migrate_dbfs}

-- A location under the DBFS root is neither a mounted one nor a dataset's.
pub is_dbfs_root-excludes :
    (t : Table)
    → is_dbfs_root t ≡ true
    → (is_dbfs_mnt t ≡ false) × (is_databricks_dataset t ≡ false)
unfolding is_dbfs_root is_dbfs_mnt is_databricks_dataset
is_dbfs_root-excludes t h = ground arith

-- Where the location decides nothing.
abbrev pub IsElsewhere : Table → Type 0
IsElsewhere t = (is_databricks_dataset t ≡ false) × (is_dbfs_root t ≡ false)

is_exactly-delta :
    (o : Option String) → (on_format o (λ f. f == "DELTA") ≡ true) ↔ (o ≡ some "DELTA")
is_exactly-delta none = ground arith
is_exactly-delta (some f) = ground (arith, eq_iff f "DELTA")

module _ (t : Table) where
  -- `what` raises exactly for a table, not a view, with no format, outside of the datasets and of
  -- the DBFS root; and it never returns UNKNOWN.
  pub what_total :
      what t ≢ ok unknown
      × ((what t ≡ err attribute_error)
          ↔ (IsElsewhere t × (is_view t ≡ false) × (t.table_format ≡ none)))
  unfolding what what_external is_format_supported_for_sync
  what_total = ground arith

  what-db_dataset : (what t ≡ ok db_dataset) ↔ (is_databricks_dataset t ≡ true)
  unfolding what what_external
  what-db_dataset = ground arith

  what-dbfs_root_delta :
      (what t ≡ ok dbfs_root_delta) ↔ ((is_dbfs_root t ≡ true) × (t.table_format ≡ some "DELTA"))
  unfolding what what_external
  what-dbfs_root_delta = ground (arith, is_exactly-delta t.table_format, is_dbfs_root-excludes t)

  what-dbfs_root_non_delta :
      (what t ≡ ok dbfs_root_non_delta)
      ↔ ((is_dbfs_root t ≡ true) × (t.table_format ≢ some "DELTA"))
  unfolding what what_external
  what-dbfs_root_non_delta =
      ground (arith, is_exactly-delta t.table_format, is_dbfs_root-excludes t)

  what-view : (what t ≡ ok view) ↔ (IsElsewhere t × (is_view t ≡ true))
  unfolding what what_external
  what-view = ground arith

  what-external_sync :
      (what t ≡ ok external_sync)
      ↔ (IsElsewhere t × (is_view t ≡ false) × (is_format_supported_for_sync t ≡ true))
  unfolding what what_external
  what-external_sync = ground arith

-- A table, not a view, that SYNC does not support and that has a format.
abbrev pub IsUnsupported : Table → String → Type 0
IsUnsupported t f =
    (is_view t ≡ false) × (is_format_supported_for_sync t ≡ false) × (t.table_format ≡ some f)

module _ (t : Table) where
  what_of_format :
      (f : String)
      → IsElsewhere t
      → IsUnsupported t f
      → what t ≡ (if upper f == "HIVE" then ok external_hiveserde else ok external_no_sync)
  unfolding what what_external
  what_of_format f (no_dataset, no_root) (no_view, unsupported, e) =
      rw (no_dataset, no_root, no_view, unsupported, e) refl

  -- A class that is neither of a location nor of a view nor SYNC's is decided by the format.
  what-formatted :
      what t ≡ ok external_hiveserde ⊎ what t ≡ ok external_no_sync
      → IsElsewhere t × ((f : String) × IsUnsupported t f)
  unfolding what what_external
  what-formatted h = elim (Option-cases t.table_format) [
    | inl e ↦ absurd (ground (e, h, arith))
    | inr (f, e) ↦ (ground (e, arith), (f, ground (e, arith)))
  ]

  what-external_hiveserde :
      (what t ≡ ok external_hiveserde)
      ↔ (IsElsewhere t × ((f : String) × IsUnsupported t f × ((upper f == "HIVE") ≡ true)))
  what-external_hiveserde = (
    λ h.
        let (elsewhere, (f, unsupported)) = what-formatted (inl h) in
        (elsewhere, (f, unsupported, ground (arith, what_of_format f elsewhere unsupported))),
    λ (elsewhere, (f, unsupported, hive)). ground (arith, what_of_format f elsewhere unsupported),
  )

  what-external_no_sync :
      (what t ≡ ok external_no_sync)
      ↔ (IsElsewhere t × ((f : String) × IsUnsupported t f × ((upper f == "HIVE") ≡ false)))
  what-external_no_sync = (
    λ h.
        let (elsewhere, (f, unsupported)) = what-formatted (inr h) in
        (elsewhere, (f, unsupported, ground (arith, what_of_format f elsewhere unsupported))),
    λ (elsewhere, (f, unsupported, other)). ground (arith, what_of_format f elsewhere unsupported),
  )

is_delta_of_format :
    (o : Option String) → o ≡ some "DELTA" → on_format o (λ f. upper f == "DELTA") ≡ true
unfolding upper
is_delta_of_format o h = rw h

-- For a table that is classed as Delta under the DBFS root, the statement of a deep clone can be
-- built.
pub dbfs_root_delta-sql_migrate_dbfs :
    (t : Table) (target : String)
    → what t ≡ ok dbfs_root_delta
    → is_ok (sql_migrate_dbfs t target) ≡ true
unfolding sql_migrate_dbfs is_delta
dbfs_root_delta-sql_migrate_dbfs t target h =
    let (root, format) = (what-dbfs_root_delta t).0 h in
    ground (arith, is_delta_of_format t.table_format format)

-- `what`, every class that it returns: the location decides first, then the kind, then the format. An
-- exact "DELTA" separates the two classes of the DBFS root. Elsewhere a view is VIEW, a table in a
-- format that SYNC supports is EXTERNAL_SYNC, and any other table with a format is
-- EXTERNAL_HIVESERDE where the format is "HIVE" in any case of its letters and EXTERNAL_NO_SYNC
-- where it is not.
pub what_iff :
    (t : Table)
    → ((what t ≡ ok db_dataset) ↔ (is_databricks_dataset t ≡ true))
      × ((what t ≡ ok dbfs_root_delta)
          ↔ ((is_dbfs_root t ≡ true) × (t.table_format ≡ some "DELTA")))
      × ((what t ≡ ok dbfs_root_non_delta)
          ↔ ((is_dbfs_root t ≡ true) × (t.table_format ≢ some "DELTA")))
      × ((what t ≡ ok view) ↔ (IsElsewhere t × (is_view t ≡ true)))
      × ((what t ≡ ok external_sync)
          ↔ (IsElsewhere t × (is_view t ≡ false) × (is_format_supported_for_sync t ≡ true)))
      × ((what t ≡ ok external_hiveserde)
          ↔ (IsElsewhere t × ((f : String) × IsUnsupported t f × ((upper f == "HIVE") ≡ true))))
      × ((what t ≡ ok external_no_sync)
          ↔ (IsElsewhere t × ((f : String) × IsUnsupported t f × ((upper f == "HIVE") ≡ false))))
what_iff t = (
  what-db_dataset t,
  what-dbfs_root_delta t,
  what-dbfs_root_non_delta t,
  what-view t,
  what-external_sync t,
  what-external_hiveserde t,
  what-external_no_sync t,
)
