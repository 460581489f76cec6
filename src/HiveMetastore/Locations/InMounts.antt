-- ===== src/HiveMetastore/Locations/InMounts.antt =====
-- hive_metastore/locations.py: TablesInMounts, which guesses the tables below the mount points from
-- the files there. The listing of a directory, os.path and str.replace are parameters. The search
-- goes down the tree of directories on fuel.
pub mod Laws
pub mod Registered
use Prim.Native.String.{◌++◌}
use mathlib.Core.List.{filter_map}
use databricks_ucx.Prelude.{
  ℕ, zero, suc, String, String_eq, ◌==◌, Bool, true, false, not, ◌&&◌, ◌||◌, List, [], ◌∷◌, Option,
  none, some, if◌then◌else◌, any, mem, is_some,
}
use databricks_ucx.Prelude.{◌++◌ as append}
use databricks_ucx.Text.{is_empty, contains, last_is, is_slash}
use databricks_ucx.Dict.{Dict, get, put, has, update}
use databricks_ucx.HiveMetastore.Tables.{Table, key}
use databricks_ucx.HiveMetastore.Views.Sequencer.{
  Outcome, returns, raises, out_of_fuel, of_result, ◌>>=◌,
}
use databricks_ucx.Exec.{Result, ok, err, and_then}
use databricks_ucx.HiveMetastore.Grants.Cluster.{Mount}

pub record FileInfo : Type 0 where
  pub path : String
  pub name : String

pub record TableInMount : Type 0 where
  pub format : String
  pub is_partitioned : Bool

-- _is_partitioned
unfoldable pub is_partition : String → Bool
is_partition file_name = contains file_name "="

abbrev pub found_as : String → Option TableInMount
found_as format = some (record { format = format; is_partitioned = false })

-- _assess_path
unfoldable pub assess_path : FileInfo → Option TableInMount
assess_path file =
    if file.name == "_delta_log/"
    then found_as "DELTA"
    else if contains file.name ".csv"
    then found_as "CSV"
    else if contains file.name ".json"
    then found_as "JSON"
    else if contains file.name ".parquet"
    then found_as "PARQUET"
    else none

abbrev pub irrelevant_patterns : List String
irrelevant_patterns = "_SUCCESS" ∷ "_committed_" ∷ "_started_" ∷ []

-- _is_irrelevant, with the excluded paths
unfoldable pub is_irrelevant : List String → String → Bool
unfolding any
is_irrelevant excluded file_name = any (contains file_name) (append irrelevant_patterns excluded)

-- The two updates for a directory that has an entry already.
unfoldable pub updated_entry : TableInMount → FileInfo → Option TableInMount → TableInMount
unfolding is_partition
updated_entry previous file found = elim found [
  | some t ↦
      if previous.is_partitioned && (t.format == "DELTA")
      then record { format = t.format; is_partitioned = true }
      else if (previous.format == "DELTA") && is_partition file.name
      then record { format = previous.format; is_partitioned = true }
      else previous
  | none ↦
      if (previous.format == "DELTA") && is_partition file.name
      then record { format = previous.format; is_partitioned = true }
      else previous
]

pub record MountApi : Type 0 where
  -- dbutils.fs.ls
  pub ls : String → Result (List FileInfo)
  pub dirname : String → String
  pub basename : String → String
  pub replace : String → String → String → String

abbrev pub Folders : Type 0
Folders = Dict String TableInMount

abbrev pub put_found : String → Option TableInMount → Folders → Folders
put_found root none folders = folders
put_found root (some t) folders = put root t folders

abbrev pub as_partitioned : TableInMount → TableInMount
as_partitioned t = record { format = t.format; is_partitioned = true }

-- The loop of _find_partition_file_format, with what the call on a directory returns.
unfoldable pub scan_partition :
    (String → Outcome (Option TableInMount)) → List FileInfo → Outcome (Option TableInMount)
unfolding assess_path is_partition
scan_partition inner [] = returns none
scan_partition inner (file ∷ files) =
    let rest = scan_partition inner files in
    elim (assess_path file) [
      | some t ↦ returns (some (as_partitioned t))
      | none ↦ if is_partition file.name then inner file.path else rest
    ]

-- The test on include_mounts, where no mounts are the empty list.
abbrev pub is_included : List String → Mount → Bool
is_included [] mount = true
is_included (name ∷ names) mount = mem mount.name (name ∷ names)

module _ (api : MountApi) (excluded : List String) where
  -- _find_partition_file_format
  unfoldable pub find_partition_file_format : ℕ → String → Outcome (Option TableInMount)
  unfolding scan_partition
  find_partition_file_format zero root_dir = out_of_fuel
  find_partition_file_format (suc fuel) root_dir =
      of_result (api.ls root_dir) >>= scan_partition (find_partition_file_format fuel)

  module _ (partition_of : String → Outcome (Option TableInMount))
      (inner : String → Folders → Outcome Folders) (root_dir : String) where
    -- The body of the loop of _find_delta_log_folders, for a file that is relevant.
    unfoldable pub visit_file : FileInfo → Folders → Outcome Folders
    unfolding assess_path updated_entry is_partition get put
    visit_file file folders = elim (get (api.dirname root_dir) folders) [
      | some previous ↦
          returns
            (put (api.dirname root_dir) (updated_entry previous file (assess_path file)) folders)
      | none ↦
          if is_partition file.name
          then (partition_of file.path >>= λ found.
              returns (put_found (api.dirname root_dir) found folders))
          else (elim (assess_path file) [
            | none ↦ inner file.path folders
            | some t ↦ returns (put (api.dirname root_dir) t folders)
          ])
    ]

    unfoldable pub visit_files : List FileInfo → Folders → Outcome Folders
    unfolding visit_file is_irrelevant
    visit_files [] folders = returns folders
    visit_files (file ∷ files) folders =
        elim (is_irrelevant excluded file.name || (file.path == root_dir)) [
          | true ↦ visit_files files folders
          | false ↦ visit_file file folders >>= visit_files files
        ]

  -- _find_delta_log_folders
  unfoldable pub find_delta_log_folders : ℕ → String → Folders → Outcome Folders
  unfolding visit_files find_partition_file_format
  find_delta_log_folders zero root_dir folders = out_of_fuel
  find_delta_log_folders (suc fuel) root_dir folders = of_result (api.ls root_dir) >>= λ files.
      visit_files (find_partition_file_format fuel) (find_delta_log_folders fuel) root_dir files
        folders

  -- _get_table_location
  unfoldable pub get_table_location : Mount → String → String
  unfolding last_is is_slash
  get_table_location mount path =
      if last_is is_slash mount.source
      then api.replace path ("dbfs:" ++ mount.name ++ "/") mount.source
      else api.replace path ("dbfs:" ++ mount.name) mount.source

  -- A path that the assessment has as a registered table is skipped.
  unfoldable pub table_at : Dict String String → Mount → String → TableInMount → Option Table
  unfolding get_table_location get
  table_at paths_from_assessment mount path entry =
      if has (get_table_location mount path) paths_from_assessment
      then none
      else if has path paths_from_assessment
      then none
      else some (record {
        catalog = "hive_metastore";
        database = "mounted_" ++ api.replace (api.replace mount.name "/mnt/" "") "/" "_";
        name = api.basename path;
        object_type = "EXTERNAL";
        table_format = some entry.format;
        location = some (get_table_location mount path);
        view_text = none;
        upgraded_to = none;
        storage_properties = none;
        is_partitioned = entry.is_partitioned;
      })

  abbrev pub tables_at : Dict String String → Mount → Folders → List Table
  tables_at paths_from_assessment mount =
      filter_map (λ (p : String × TableInMount). table_at paths_from_assessment mount p.0 p.1)

  -- The union of what is found under the included paths.
  unfoldable pub find_in_paths : ℕ → List String → Folders → Outcome Folders
  unfolding find_delta_log_folders update
  find_in_paths fuel [] folders = returns folders
  find_in_paths fuel (path ∷ paths) folders = find_delta_log_folders fuel path [] >>= λ found.
      find_in_paths fuel paths (update folders found)

  -- if self._include_paths_in_mount: ..., where no paths are the empty list
  unfoldable pub folders_of : ℕ → List String → Mount → Outcome Folders
  unfolding find_in_paths
  folders_of fuel [] mount = find_delta_log_folders fuel mount.name []
  folders_of fuel (path ∷ paths) mount = find_in_paths fuel (path ∷ paths) []

  -- _crawl
  unfoldable pub crawl :
      ℕ → List String → List String → Dict String String → List Mount → Outcome (List Table)
  unfolding folders_of table_at
  crawl fuel include_mounts include_paths assessed [] = returns []
  crawl fuel include_mounts include_paths assessed (mount ∷ mounts) =
      elim (is_included include_mounts mount) [
        | true ↦ folders_of fuel include_paths mount >>= λ folders.
            crawl fuel include_mounts include_paths assessed mounts >>= λ later.
            returns (append (tables_at assessed mount folders) later)
        | false ↦ crawl fuel include_mounts include_paths assessed mounts
      ]

-- _get_tables_paths_from_assessment
unfoldable pub paths_from_assessment : Dict String String → List Table → Dict String String
unfolding put is_empty key
paths_from_assessment seen [] = seen
paths_from_assessment seen (t ∷ tables) = elim t.location [
  | none ↦ paths_from_assessment seen tables
  | some location ↦
      paths_from_assessment (if is_empty location then seen else put location (key t) seen) tables
]

-- The records of snapshot: the tables of the mounts before those of the assessment.
unfoldable pub snapshot_records :
    MountApi
    → List String
    → ℕ
    → List String
    → List String
    → List Table
    → List Mount
    → Outcome (List Table)
unfolding crawl paths_from_assessment
snapshot_records api excluded fuel include_mounts include_paths cached mounts =
    crawl api excluded fuel include_mounts include_paths (paths_from_assessment [] cached) mounts
    >>= λ found. returns (append found cached)
