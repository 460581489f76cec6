-- ===== src/HiveMetastore/Locations.antt =====
-- hive_metastore/locations.py: the external locations that the tables of the metastore need.
-- os.path, str.replace and re.findall with the program's pattern are parameters.
pub mod Counts
pub mod Matching
pub mod Mounts
pub mod InMounts
use Prim.Native.String.{◌++◌}
use databricks_ucx.Prelude.{
  ℕ, suc, String, String_eq, ◌==◌, Bool, true, false, not, ◌&&◌, List, [], ◌∷◌, Option, none, some,
  if◌then◌else◌, ltb,
}
use databricks_ucx.Text.{lower, is_empty, starts_with, contains, find?, count_char, is_slash}
use databricks_ucx.Dict.{Dict, get, of_pairs}
use databricks_ucx.Exec.{Result, ok, err, and_then, other_error}
use databricks_ucx.HiveMetastore.Grants.Cluster.{Mount, resolve_mount}

pub record ExternalLocation : Type 0 where
  pub location : String
  pub table_count : ℕ

-- A row of the inventory's tables.
pub record TableRow : Type 0 where
  pub row_location : Option String
  pub storage_properties : Option String

pub record PathApi : Type 0 where
  -- os.path.commonpath of two paths, which raises ValueError for an absolute and a relative one
  pub commonpath : String → String → Result String
  pub dirname : String → String
  pub replace : String → String → String → String
  -- the pairs that the pattern of _add_jdbc_location finds
  pub find_pairs : String → List (String × String)

-- 1 < location.find(":/") < 12
abbrev pub is_prefix_size : Option ℕ → Bool
is_prefix_size none = false
is_prefix_size (some n) = ltb 1 n && ltb n 12

unfoldable pub is_cloud_location : String → Bool
is_cloud_location location =
    not (starts_with location "dbfs")
    && is_prefix_size (find? location ":/")
    && not (starts_with location "jdbc")

-- result_dict.get(key, "")
abbrev pub or_blank : Option String → String
or_blank none = ""
or_blank (some s) = s

-- The location of a table that is read through JDBC.
unfoldable pub jdbc_location : String → Dict String String → String
unfolding get lower is_empty
jdbc_location location properties =
    let host = or_blank (get "host" properties) in
    let port = or_blank (get "port" properties) in
    let database = or_blank (get "database" properties) in
    let httppath = or_blank (get "httpPath" properties) in
    let provider = or_blank (get "provider" properties) in
    if contains (lower location) "databricks"
    then "jdbc:databricks://" ++ host ++ ";httpPath=" ++ httppath
    else if contains (lower location) "mysql"
    then "jdbc:mysql://" ++ host ++ ":" ++ port ++ "/" ++ database
    else if not (is_empty provider)
    then "jdbc:" ++ lower provider ++ "://" ++ host ++ ":" ++ port ++ "/" ++ database
    else lower location ++ "/" ++ host ++ ":" ++ port ++ "/" ++ database

-- The loop at the end of _add_jdbc_location, with what follows it.
unfoldable pub add_equal : String → List ExternalLocation → List ExternalLocation
add_equal wanted [] = record { location = wanted; table_count = 1 } ∷ []
add_equal wanted (l ∷ locations) =
    let rest = add_equal wanted locations in
    if l.location == wanted
    then record l { table_count = suc l.table_count } ∷ locations
    else l ∷ rest

module _ (paths : PathApi) where
  -- The path that a known location and a new one share.
  unfoldable pub common_location : String → String → Result String
  common_location known location =
      and_then (paths.commonpath known (paths.dirname location ++ "/"))
        λ common. ok (paths.replace common ":/" "://" ++ "/")

  -- _dbfs_locations
  unfoldable pub add_cloud : String → List ExternalLocation → Result (List ExternalLocation)
  unfolding common_location count_char is_slash
  add_cloud location [] =
      ok (record { location = paths.dirname location ++ "/"; table_count = 1 } ∷ [])
  add_cloud location (l ∷ locations) =
      let rest = add_cloud location locations in
      and_then (common_location l.location location) λ common.
        if ltb 2 (count_char is_slash common)
        then ok (record { location = common; table_count = suc l.table_count } ∷ locations)
        else and_then rest λ more. ok (l ∷ more)

  -- _add_jdbc_location; a pattern is not searched in None
  unfoldable pub add_jdbc :
      String → Option String → List ExternalLocation → Result (List ExternalLocation)
  unfolding jdbc_location of_pairs add_equal
  add_jdbc location none locations = err other_error
  add_jdbc location (some properties) locations =
      ok (add_equal (jdbc_location location (of_pairs (paths.find_pairs properties))) locations)

  -- The two tests of the loop in _external_locations, on the resolved location.
  unfoldable pub add_resolved :
      String → Option String → List ExternalLocation → Result (List ExternalLocation)
  unfolding is_cloud_location add_cloud add_jdbc
  add_resolved location properties locations =
      and_then (if is_cloud_location location then add_cloud location locations else ok locations)
        λ more. if starts_with location "jdbc" then add_jdbc location properties more else ok more

  -- if location.startswith("dbfs:/mnt"): location = self.resolve_mount(location, mounts)
  unfoldable pub resolved : List Mount → String → String
  unfolding resolve_mount
  resolved mounts location =
      if starts_with location "dbfs:/mnt"
      then resolve_mount paths.replace location mounts
      else location

  unfoldable pub add_row :
      List Mount → TableRow → List ExternalLocation → Result (List ExternalLocation)
  unfolding resolved add_resolved
  add_row mounts row locations = elim row.row_location [
    | none ↦ ok locations
    | some location ↦
        if is_empty location
        then ok locations
        else add_resolved (resolved mounts location) row.storage_properties locations
  ]

  unfoldable pub add_rows :
      List Mount → List TableRow → List ExternalLocation → Result (List ExternalLocation)
  unfolding add_row
  add_rows mounts [] locations = ok locations
  add_rows mounts (row ∷ rows) locations = elim (add_row mounts row locations) [
    | err e ↦ err e
    | ok more ↦ add_rows mounts rows more
  ]

  -- _external_locations
  unfoldable pub external_locations : List TableRow → List Mount → Result (List ExternalLocation)
  unfolding add_rows
  external_locations tables mounts = add_rows mounts tables []
