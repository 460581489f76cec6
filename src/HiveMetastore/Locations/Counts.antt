-- ===== src/HiveMetastore/Locations/Counts.antt =====
-- hive_metastore/locations.py: what the counts of the external locations add up to.
use databricks_ucx.Prelude.{
  ℕ, suc, ◌+◌, String, String_eq, Bool, true, false, ◌||◌, List, [], ◌∷◌, Option, none, some,
  if◌then◌else◌, ltb, filter, length, ◌≡◌, refl, arith, inl, inr, Bool-cases, Option-cases,
}
use databricks_ucx.Text.{is_empty, starts_with, count_char, is_slash}
use databricks_ucx.Exec.{ok, and_then-eq-ok, Result-cases}
use databricks_ucx.Dict.{of_pairs}
use databricks_ucx.HiveMetastore.Grants.Cluster.{Mount}
use databricks_ucx.HiveMetastore.Locations.{
  ExternalLocation, TableRow, PathApi, is_cloud_location, add_equal, common_location, add_cloud,
  add_jdbc, add_resolved, resolved, add_row, add_rows, external_locations, jdbc_location,
}

unfoldable pub location_total : List ExternalLocation → ℕ
location_total [] = 0
location_total (l ∷ locations) = l.table_count + location_total locations

add_equal-total :
    (wanted : String) (locations : List ExternalLocation)
    → location_total (add_equal wanted locations) ≡ suc (location_total locations)
unfolding add_equal location_total
add_equal-total wanted [] = refl
add_equal-total wanted (l ∷ locations) = ground (arith, add_equal-total wanted locations)

module _ (paths : PathApi) where
  -- A row whose location is set and, once it is resolved, in a cloud storage or read through JDBC.
  unfoldable pub is_counted : List Mount → TableRow → Bool
  is_counted mounts row = elim row.row_location [
    | none ↦ false
    | some location ↦
        if is_empty location
        then false
        else is_cloud_location (resolved paths mounts location)
          || starts_with (resolved paths mounts location) "jdbc"
  ]

  abbrev one_if : Bool → ℕ
  one_if true = 1
  one_if false = 0

  add_cloud-total :
      (location : String) (locations : List ExternalLocation) {more : List ExternalLocation}
      → add_cloud paths location locations ≡ ok more
      → location_total more ≡ suc (location_total locations)
  unfolding add_cloud location_total
  add_cloud-total location [] h = ground arith
  add_cloud-total location (l ∷ locations) h =
      let (common, e, k) = and_then-eq-ok (common_location paths l.location location) _ h in
      elim (Bool-cases (ltb 2 (count_char is_slash common))) [
        | inl b ↦ ground (rw b at k, arith)
        | inr b ↦
            let (rest, f, g) = and_then-eq-ok (add_cloud paths location locations) _ (rw b at k) in
            ground (add_cloud-total location locations f, g, arith)
      ]

  add_jdbc-total :
      (location : String) (properties : Option String) (locations : List ExternalLocation)
      {more : List ExternalLocation}
      → add_jdbc paths location properties locations ≡ ok more
      → location_total more ≡ suc (location_total locations)
  unfolding add_jdbc
  add_jdbc-total location none locations h = absurd (ground (h, arith))
  add_jdbc-total location (some properties) locations h = ground (
    arith,
    add_equal-total (jdbc_location location (of_pairs (paths.find_pairs properties))) locations,
    h,
  )

  cloud-not_jdbc :
      (location : String) → is_cloud_location location ≡ true → starts_with location "jdbc" ≡ false
  unfolding is_cloud_location
  cloud-not_jdbc location h = ground (h, arith)

  add_resolved-total :
      (location : String) (properties : Option String) (locations : List ExternalLocation)
      {more : List ExternalLocation}
      → add_resolved paths location properties locations ≡ ok more
      → location_total more
        ≡ one_if (is_cloud_location location || starts_with location "jdbc")
          + location_total locations
  unfolding add_resolved
  add_resolved-total location properties locations h =
      elim (Bool-cases (is_cloud_location location)) [
        | inl b ↦
            let n = cloud-not_jdbc location b in
            let (more', e, k) = and_then-eq-ok (add_cloud paths location locations) _ (rw b at h) in
            ground (b, add_cloud-total location locations e, rw n at k, arith)
        | inr b ↦ elim (Bool-cases (starts_with location "jdbc")) [
          | inl j ↦
              ground (b, j, add_jdbc-total location properties locations (rw (b, j) at h), arith)
          | inr j ↦ ground (b, j, rw (b, j) at h, arith)
        ]
      ]

  add_row-total :
      (mounts : List Mount) (row : TableRow) (locations : List ExternalLocation)
      {more : List ExternalLocation}
      → add_row paths mounts row locations ≡ ok more
      → location_total more ≡ one_if (is_counted mounts row) + location_total locations
  unfolding add_row is_counted
  add_row-total mounts row locations h = elim (Option-cases row.row_location) [
    | inl e ↦ ground (e, rw (add_row, e) at h, arith)
    | inr (location, e) ↦ elim (Bool-cases (is_empty location)) [
      | inl b ↦ ground (e, b, rw (add_row, e, b) at h, arith)
      | inr b ↦ ground (
        e,
        b,
        add_resolved-total (resolved paths mounts location) row.storage_properties locations
            (rw (add_row, e, b) at h),
        arith,
      )
    ]
  ]

  add_rows-total :
      (mounts : List Mount) (rows : List TableRow) (locations : List ExternalLocation)
      {more : List ExternalLocation}
      → add_rows paths mounts rows locations ≡ ok more
      → location_total more ≡ length (filter (is_counted mounts) rows) + location_total locations
  unfolding add_rows filter
  add_rows-total mounts [] locations h = ground (h, arith)
  add_rows-total mounts (row ∷ rows) locations h =
      elim (Result-cases (add_row paths mounts row locations)) [
        | inl (more, e) ↦ ground (
          arith,
          add_row-total mounts row locations e,
          add_rows-total mounts rows more (rw (add_rows, e) at h),
        )
        | inr (error, e) ↦ absurd (ground (rw (add_rows, e) at h, arith))
      ]

  -- When the external locations of the tables are computed, every table that lies in a cloud storage
  -- or is read through JDBC is counted at exactly one of them: the counts add up to the number of
  -- those tables.
  pub external_locations-total :
      (mounts : List Mount) (tables : List TableRow) {locations : List ExternalLocation}
      → external_locations paths tables mounts ≡ ok locations
      → location_total locations ≡ length (filter (is_counted mounts) tables)
  unfolding external_locations location_total
  external_locations-total mounts tables h = ground (arith, add_rows-total mounts tables [] h)
