-- ===== src/HiveMetastore/Locations/Matching.antt =====
-- hive_metastore/locations.py: which locations a table's location matches among those that Unity
-- Catalog has, and the definitions for the others. str.replace is a parameter.
use Prim.Native.String.{◌++◌}
use databricks_ucx.Prelude.{
  ℕ, ◌+◌, String, String_eq, List, [], ◌∷◌, Option, none, some, if◌then◌else◌, ◌≡◌, refl, arith,
  inl, inr, Option-cases, suc,
}
use databricks_ucx.Text.{
  set_text, lower, is_empty, starts_with, contains, find?, rstrip, is_slash, take_chars,
}
use databricks_ucx.Dict.{Dict, get, put}
use databricks_ucx.Dict.Totals.{total, total-put, itself, or_zero, measured-itself}
use databricks_ucx.Exec.{Result, ok, err, value_error, and_then}
use databricks_ucx.HiveMetastore.Grants.Cluster.{drop_chars}
use databricks_ucx.HiveMetastore.Locations.{ExternalLocation}
use databricks_ucx.HiveMetastore.Locations.Counts.{location_total}

-- What the program reads of the SDK's ExternalLocationInfo.
pub record ExternalLocationInfo : Type 0 where
  pub name : Option String
  pub url : Option String

-- The name of an existing location that has one, if its url stands in the table's location.
unfoldable pub name_if_matches : ExternalLocation → ExternalLocationInfo → Option String
unfolding is_empty
name_if_matches table_loc uc_loc = elim (set_text uc_loc.url) [
  | none ↦ none
  | some url ↦ elim (set_text uc_loc.name) [
    | none ↦ none
    | some name ↦
        if contains (lower (rstrip is_slash table_loc.location)) (lower url)
        then some name
        else none
  ]
]

-- _match_existing: none is False, and otherwise the dictionary with the counts added.
unfoldable pub match_existing :
    ExternalLocation → Dict String ℕ → List ExternalLocationInfo → Option (Dict String ℕ)
unfolding name_if_matches get put
match_existing table_loc matching [] = none
match_existing table_loc matching (uc_loc ∷ existing) =
    let rest = match_existing table_loc matching existing in
    elim (name_if_matches table_loc uc_loc) [
      | none ↦ rest
      | some name ↦ some (put name (or_zero (get name matching) + table_loc.table_count) matching)
    ]

-- The loop of match_table_external_locations, on the snapshot and the existing locations.
unfoldable pub match_locations :
    List ExternalLocationInfo
    → Dict String ℕ
    → List ExternalLocation
    → Dict String ℕ × List ExternalLocation
unfolding match_existing
match_locations existing matching [] = (matching, [])
match_locations existing matching (l ∷ locations) = elim (match_existing l matching existing) [
  | some more ↦ match_locations existing more locations
  | none ↦
      let (found, missing) = match_locations existing matching locations in (found, l ∷ missing)
]

-- match_table_external_locations
unfoldable pub match_table_external_locations :
    List ExternalLocationInfo → List ExternalLocation → Dict String ℕ × List ExternalLocation
unfolding match_locations
match_table_external_locations existing locations = match_locations existing [] locations

match_existing-total :
    (l : ExternalLocation) (matching : Dict String ℕ) (existing : List ExternalLocationInfo)
    {more : Dict String ℕ}
    → match_existing l matching existing ≡ some more
    → total itself more ≡ total itself matching + l.table_count
unfolding match_existing
match_existing-total l matching [] h = absurd (ground (h, arith))
match_existing-total l matching (uc ∷ existing) h = elim (Option-cases (name_if_matches l uc)) [
  | inl e ↦ match_existing-total l matching existing (rw (match_existing, e) at h)
  | inr (name, e) ↦ ground (
    arith,
    total-put itself name (or_zero (get name matching) + l.table_count) matching,
    measured-itself (get name matching),
    rw (match_existing, e) at h,
  )
]

match_locations-total :
    (existing : List ExternalLocationInfo) (matching : Dict String ℕ)
    (locations : List ExternalLocation)
    → total itself (match_locations existing matching locations).0
        + location_total (match_locations existing matching locations).1
      ≡ total itself matching + location_total locations
unfolding match_locations location_total
match_locations-total existing matching [] = refl
match_locations-total existing matching (l ∷ locations) =
    elim (Option-cases (match_existing l matching existing)) [
      | inl e ↦ ground (arith, e, match_locations-total existing matching locations)
      | inr (more, e) ↦ ground (
        arith,
        e,
        match_existing-total l matching existing e,
        match_locations-total existing more locations,
      )
    ]

-- Every table is accounted for: the counts under the locations that Unity Catalog has and the counts
-- of the missing locations add up to the counts of all the locations.
pub match_table_external_locations-total :
    (existing : List ExternalLocationInfo) (locations : List ExternalLocation)
    → total itself (match_table_external_locations existing locations).0
        + location_total (match_table_external_locations existing locations).1
      ≡ location_total locations
unfolding match_table_external_locations total
match_table_external_locations-total existing locations =
    omega (arith, match_locations-total existing [] locations)

module _ (replace : String → String → String → String) where
  -- The resource name for the end of a url.
  abbrev bucket_name : String → String
  bucket_name url = replace (rstrip is_slash url) "/" "_"

  abbrev container_name : String → Option ℕ → Result (Option String)
  container_name location none = err value_error
  container_name location (some at_sign) =
      let container = drop_chars 8 (take_chars at_sign location) in
      let storage = replace (drop_chars (suc at_sign) location) ".dfs.core.windows.net" "" in
      ok (some (container ++ "_" ++ bucket_name storage))

  -- The name of the resource, none for a storage that is not supported; index("@") may raise.
  unfoldable pub resource_name : String → Result (Option String)
  unfolding drop_chars take_chars rstrip is_slash
  resource_name location =
      if starts_with location "s3://"
      then ok (some (bucket_name (drop_chars 5 location)))
      else if starts_with location "gcs://"
      then ok (some (bucket_name (drop_chars 6 location)))
      else if starts_with location "abfss://"
      then container_name location (find? location "@")
      else ok none

  unfoldable pub definition_script : String → String → String
  unfolding rstrip is_slash
  definition_script name location =
      "resource \"databricks_external_location\" \""
      ++ name
      ++ "\" { \n    name = \""
      ++ name
      ++ "\"\n    url  = \""
      ++ rstrip is_slash location
      ++ "\"\n    credential_name = databricks_storage_credential.<storage_credential_reference>.id\n}\n"

  abbrev with_script : String → Option String → List String → List String
  with_script location none scripts = scripts
  with_script location (some name) scripts = definition_script name location ∷ scripts

  -- _get_ext_location_definitions
  unfoldable pub get_ext_location_definitions : List ExternalLocation → Result (List String)
  unfolding resource_name
  get_ext_location_definitions [] = ok []
  get_ext_location_definitions (l ∷ missing) =
      let rest = get_ext_location_definitions missing in
      and_then (resource_name l.location)
        λ name. and_then rest λ scripts. ok (with_script l.location name scripts)
