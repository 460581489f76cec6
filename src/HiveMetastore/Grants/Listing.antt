-- ===== src/HiveMetastore/Grants/Listing.antt =====
-- hive_metastore/grants.py: `GrantsCrawler.grants`, the listing of the grants on one object, and the
-- instance profiles of `AwsACL`. What SHOW GRANTS fetches and the clusters are parameters.
use mathlib.Core.List.{Memᴰ, filter_map}
use databricks_ucx.Prelude.{
  String, String_eq, ◌==◌, Bool, not, ◌||◌, List, [], ◌∷◌, Option, none, some, if◌then◌else◌, ◌≡◌,
  refl, arith, Memᴰ-filter_map, eq_iff,
}
use databricks_ucx.Dict.{Dict, get, put}
use databricks_ucx.Exec.{Result, ok, err, and_then}
use databricks_ucx.Framework.Crawler.{try_valid}
use databricks_ucx.HiveMetastore.Grants.{Grant, GrantKeys, type_and_key}

-- A row of SHOW GRANTS, without the object's key.
pub record GrantRow : Type 0 where
  pub row_principal : String
  pub row_action : String
  pub row_type : String

unfoldable pub object_type_normalization : Dict String String
object_type_normalization =
    ("SCHEMA", "DATABASE")
    ∷ ("CATALOG$", "CATALOG")
    ∷ ("ANY_FILE", "ANY FILE")
    ∷ ("ANONYMOUS_FUNCTION", "ANONYMOUS FUNCTION")
    ∷ []

unfoldable pub normalized : String → String
unfolding get object_type_normalization
normalized t = elim (get t object_type_normalization) [ none ↦ t | some u ↦ u ]

-- The body of the loop over the rows.
unfoldable pub grant_of_row : GrantKeys → String → GrantRow → Option Grant
unfolding normalized
grant_of_row keys on_type row =
    if not (on_type == normalized row.row_type)
    then none
    else some (record { principal = row.row_principal; action_type = row.row_action; keys = keys })

-- The names of the object, each of which _try_valid checks.
unfoldable pub valid_keys : GrantKeys → Result GrantKeys
unfolding try_valid
valid_keys g = and_then (try_valid g.catalog) λ catalog. and_then (try_valid g.database) λ database.
    and_then (try_valid g.table) λ table. and_then (try_valid g.view) λ view.
      and_then (try_valid g.udf) λ udf.
        ok (record g {
          catalog = catalog;
          database = database;
          table = table;
          view = view;
          udf = udf;
        })

abbrev pub rows_or_none : Result (List GrantRow) → List GrantRow
rows_or_none (ok rows) = rows
rows_or_none (err e) = []

-- GrantsCrawler.grants; any error of the fetch is logged and leaves no grants
unfoldable pub grants_on :
    (String → String → Result (List GrantRow)) → GrantKeys → Result (List Grant)
unfolding valid_keys type_and_key grant_of_row
grants_on fetch keys = and_then (valid_keys keys) λ checked.
    and_then (type_and_key checked)
      λ p. ok (filter_map (grant_of_row keys p.0) (rows_or_none (fetch p.0 p.1)))

-- What the program reads of the SDK's ClusterDetails. `is_job` is cluster_source == JOB and
-- `is_legacy` that the data security mode is LEGACY_SINGLE_USER or NONE.
pub record ClusterDetails : Type 0 where
  pub cluster_id : Option String
  pub is_job : Bool
  pub is_legacy : Bool
  pub instance_profile_arn : Option (Option String)

-- The loop of AwsACL._get_cluster_to_instance_profile_mapping.
unfoldable pub instance_profiles : Dict String String → List ClusterDetails → Dict String String
instance_profiles profiles [] = profiles
instance_profiles profiles (c ∷ clusters) = elim c.cluster_id [
  | none ↦ instance_profiles profiles clusters
  | some cluster_id ↦
      let skipped = instance_profiles profiles clusters in
      if c.is_job || not c.is_legacy then skipped else (elim c.instance_profile_arn [
        | none ↦ skipped
        | some arn ↦ elim arn [
          | none ↦ skipped
          | some role ↦ instance_profiles (put cluster_id role profiles) clusters
        ]
      ])
]

row_type_fits :
    (keys : GrantKeys) (on_type : String) (row : GrantRow) {g : Grant}
    → grant_of_row keys on_type row ≡ some g
    → (g.keys ≡ keys)
      × (g.principal ≡ row.row_principal)
      × (g.action_type ≡ row.row_action)
      × (normalized row.row_type ≡ on_type)
unfolding grant_of_row
row_type_fits keys on_type row h = ground (arith, eq_iff on_type (normalized row.row_type))

-- Where the names of an object are valid and determine its type and key, the listing of its grants
-- returns, whatever the fetch raises, and every grant of it is on that object, with the principal
-- and the action of a fetched row whose normalized type is that of the object.
pub grants_on_sound :
    (fetch : String → String → Result (List GrantRow)) (keys checked : GrantKeys)
    (on_type key : String)
    → valid_keys keys ≡ ok checked
    → type_and_key checked ≡ ok (on_type, key)
    → (grants : List Grant) × (grants_on fetch keys ≡ ok grants)
      × ((g : Grant)
          → Memᴰ g grants
          → (row : GrantRow) × Memᴰ row (rows_or_none (fetch on_type key))
            × (g.keys ≡ keys)
            × (g.principal ≡ row.row_principal)
            × (g.action_type ≡ row.row_action)
            × (normalized row.row_type ≡ on_type))
unfolding grants_on
grants_on_sound fetch keys checked on_type key h k = (
  filter_map (grant_of_row keys on_type) (rows_or_none (fetch on_type key)),
  rw h (rw k refl),
  λ g m.
      let (row, n, e) = Memᴰ-filter_map _ (rows_or_none (fetch on_type key)) m in
      let (a, b, c, d) = row_type_fits keys on_type row e in (row, n, a, b, c, d),
)
