-- ===== src/Tests/LocationSamples.antt =====
-- Samples for hive_metastore/locations.py.
use mathlib.Core.List.{Memᴰ}
use mathlib.Core.List.Memᴰ as M
use databricks_ucx.Prelude.{
  ℕ, ◌+◌, String, String_eq, ◌==◌, true, false, List, [], ◌∷◌, map, none, some, ◌≡◌, ◌≢◌, ◌⊎◌, refl,
  Bool-cases, filter, length, arith, if◌then◌else◌, subst, inl, inr,
}
use databricks_ucx.Text.{is_empty}
use databricks_ucx.Dict.Totals.{total, itself}
use databricks_ucx.Exec.{Result, ok}
use databricks_ucx.HiveMetastore.Tables.{Table}
use databricks_ucx.HiveMetastore.Grants.Cluster.{Mount}
use databricks_ucx.HiveMetastore.Views.Sequencer.{returns, out_of_fuel}
use databricks_ucx.HiveMetastore.Locations.{
  ExternalLocation, TableRow, PathApi, external_locations, add_rows, add_row, add_resolved,
  add_cloud, is_cloud_location, resolved,
}
use databricks_ucx.HiveMetastore.Locations.Counts.{
  location_total, is_counted, external_locations-total,
}
use databricks_ucx.HiveMetastore.Locations.InMounts.{
  FileInfo, MountApi, find_delta_log_folders, find_partition_file_format, is_partition, assess_path,
  snapshot_records, crawl,
}
use databricks_ucx.HiveMetastore.Locations.InMounts.Laws.{
  IsTree, find_delta_log_folders_ends, find_partition_file_format_diverges,
}
use databricks_ucx.HiveMetastore.Locations.InMounts.Registered.{snapshot_records-IsUnregistered}
use databricks_ucx.HiveMetastore.Locations.Matching.{
  ExternalLocationInfo, match_table_external_locations, match_table_external_locations-total,
}
use databricks_ucx.HiveMetastore.Locations.Mounts.{
  deduplicate_mounts, comparable, IsDistinct, deduplicate_mounts_sound,
}
use databricks_ucx.Tests.TableSamples.{root_table}

abbrev fixed_paths : PathApi
fixed_paths = record {
  commonpath = λ a b. ok "s3:/bucket";
  dirname = λ s. "s3://bucket/data";
  replace = λ s old new. s;
  find_pairs = λ s. [];
}

abbrev row_at : String → TableRow
row_at location = record { row_location = some location; storage_properties = none }

abbrev two_rows : List TableRow
two_rows = row_at "s3://bucket/data/t" ∷ row_at "" ∷ []

abbrev bucket : ExternalLocation
bucket = record { location = "s3://bucket/data/"; table_count = 1 }

located : external_locations fixed_paths two_rows [] ≡ ok (bucket ∷ [])
unfolding external_locations add_rows add_row add_resolved add_cloud is_cloud_location resolved
    is_empty
located = refl

external_locations-total_example :
    location_total (bucket ∷ []) ≡ length (filter (is_counted fixed_paths []) two_rows)
external_locations-total_example = external_locations-total fixed_paths [] two_rows located

abbrev existing_bucket : ExternalLocationInfo
existing_bucket = record { name = some "bucket"; url = some "s3://bucket/data" }

match_table_external_locations-total_example :
    total itself (match_table_external_locations (existing_bucket ∷ []) (bucket ∷ [])).0
      + location_total (match_table_external_locations (existing_bucket ∷ []) (bucket ∷ [])).1
    ≡ location_total (bucket ∷ [])
match_table_external_locations-total_example =
    match_table_external_locations-total (existing_bucket ∷ []) (bucket ∷ [])

abbrev mnt : Mount
mnt = record { name = "/mnt/a"; source = "s3://bucket" }

deduplicate_mounts_sound_example :
    IsDistinct [] (deduplicate_mounts (mnt ∷ mnt ∷ []))
    × ((m : Mount) → Memᴰ m (deduplicate_mounts (mnt ∷ mnt ∷ [])) → Memᴰ m (mnt ∷ mnt ∷ []))
    × ((m : Mount)
        → Memᴰ m (mnt ∷ mnt ∷ [])
        → Memᴰ (comparable m) (map comparable (deduplicate_mounts (mnt ∷ mnt ∷ []))))
deduplicate_mounts_sound_example = deduplicate_mounts_sound (mnt ∷ mnt ∷ [])

-- One Delta table below the mount point.
abbrev log_dir : FileInfo
log_dir = record { path = "/mnt/a/_delta_log/"; name = "_delta_log/" }

abbrev list_mount : String → Result (List FileInfo)
list_mount dir = if dir == "/mnt/a" then ok (log_dir ∷ []) else ok []

abbrev small_mount : MountApi
small_mount = record {
  ls = list_mount;
  dirname = λ s. s;
  basename = λ s. s;
  replace = λ s old new. s;
}

abbrev depth : String → ℕ
depth dir = if dir == "/mnt/a" then 1 else 0

only_log :
    (dir : String) (files : List FileInfo) (f : FileInfo)
    → list_mount dir ≡ ok files
    → Memᴰ f files
    → (f ≡ log_dir) × (dir ≡ "/mnt/a")
only_log dir files f h m = elim (Bool-cases (dir == "/mnt/a")) [
  | inl b ↦
      let one : files ≡ log_dir ∷ [] = ground (rw (list_mount, b) at h, arith) in
      (M.eq_of_singleton (subst (Memᴰ f) one m), (String_eq.beq_iff dir "/mnt/a").0 b)
  | inr b ↦
      let nothing : files ≡ [] = ground (rw (list_mount, b) at h, arith) in
      let absent : Memᴰ f [] = subst (Memᴰ f) nothing m in elim absent [ ]
]

small_mount-IsTree : IsTree small_mount depth
small_mount-IsTree = record {
  falls = λ dir files f h m n. let (e, d) = only_log dir files f h m in rw (e, d) (omega arith);
  not_itself = λ dir files f h m p. let (e, d) = only_log dir files f h m in rw (e, d) refl;
}

find_delta_log_folders_ends_example :
    find_delta_log_folders small_mount [] 2 "/mnt/a" [] ≢ out_of_fuel
find_delta_log_folders_ends_example =
    find_delta_log_folders_ends small_mount [] depth small_mount-IsTree 2 "/mnt/a" [] (omega arith)

-- A file with a "=" in its name.
abbrev odd_file : FileInfo
odd_file = record { path = "/mnt/a/part=1"; name = "part=1" }

abbrev odd_mount : MountApi
odd_mount = record {
  ls = λ dir. ok (odd_file ∷ []);
  dirname = λ s. s;
  basename = λ s. s;
  replace = λ s old new. s;
}

odd_file-is_partition : is_partition "part=1" ≡ true
unfolding is_partition
odd_file-is_partition = refl

odd_file-assess_path : assess_path odd_file ≡ none
unfolding assess_path
odd_file-assess_path = refl

find_partition_file_format_diverges_example :
    find_partition_file_format odd_mount [] 5 "/mnt/a/part=1" ≡ out_of_fuel
find_partition_file_format_diverges_example =
    find_partition_file_format_diverges odd_mount [] odd_file refl odd_file-is_partition
      odd_file-assess_path 5

no_mounts : snapshot_records small_mount [] 2 [] [] (root_table ∷ []) [] ≡ returns (root_table ∷ [])
unfolding snapshot_records crawl
no_mounts = refl

snapshot_records-IsUnregistered_example :
    Memᴰ root_table (root_table ∷ [])
    ⊎ ((c : Table)
        → Memᴰ c (root_table ∷ [])
        → (l : String) → is_empty l ≡ false
        → c.location ≡ some l
        → root_table.location ≢ some l)
snapshot_records-IsUnregistered_example =
    snapshot_records-IsUnregistered small_mount [] 2 [] [] (root_table ∷ []) [] root_table no_mounts
      (Memᴰ.head refl)
