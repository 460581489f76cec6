-- ===== src/Tests/GrantSamples.antt =====
-- Samples for hive_metastore/grants.py.
use mathlib.Core.List.{Memᴰ, flat_map}
use databricks_ucx.Prelude.{
  String, String_eq, pair_eq, true, false, [], ◌∷◌, none, some, ◌≡◌, refl, ◌⊎◌, is_some, List,
}
use databricks_ucx.Text.{all_chars, join_dot, is_dot}
use databricks_ucx.Text.{take_chars}
use databricks_ucx.Dict.{Dict, get, put, update}
use databricks_ucx.Exec.{ok, Result}
use databricks_ucx.HiveMetastore.Tables.{Table}
use databricks_ucx.HiveMetastore.Grants.{type_and_key, Grant, uc_grant_sql, GrantKeys}
use databricks_ucx.HiveMetastore.Grants.Cluster.{get_privilege, on_view, table_grants, get_grants}
use databricks_ucx.HiveMetastore.Grants.Laws.{get_grants-uc_grant_sql}
use databricks_ucx.Framework.Crawler.{valid, try_valid}
use databricks_ucx.HiveMetastore.Grants.Listing.{
  GrantRow, normalized, valid_keys, grants_on, rows_or_none, grants_on_sound,
}
use databricks_ucx.HiveMetastore.Grants.Eligible.{
  RoleAction, get_eligible_locations, eligible_loop, get_external_locations, match_location,
  resource_url, find_star, get_eligible_locations_shared, all_locations, contents,
}

abbrev a_view : Table
a_view = record {
  catalog = "hive_metastore";
  database = "db";
  name = "v";
  object_type = "VIEW";
  table_format = none;
  location = none;
  view_text = some "SELECT 1";
  upgraded_to = none;
  storage_properties = none;
  is_partitioned = false;
}

abbrev no_replace : String → String → String → String
no_replace text old new = text

abbrev view_grant : Grant
view_grant = record { principal = "me"; action_type = "ALL PRIVILEGES"; keys = on_view a_view }

view_granted : Memᴰ view_grant (get_grants no_replace [] [] ("me" ∷ []) (a_view ∷ []))
unfolding get_grants table_grants get_privilege flat_map
view_granted = Memᴰ.head refl

get_grants-uc_grant_sql_example :
    ((is_some view_grant.keys.view ≡ false)
      × ((sql : String) × (uc_grant_sql view_grant ≡ ok (some sql))))
    ⊎ ((is_some view_grant.keys.view ≡ true) × (uc_grant_sql view_grant ≡ ok none))
get_grants-uc_grant_sql_example =
    get_grants-uc_grant_sql no_replace [] [] ("me" ∷ []) (a_view ∷ []) view_grant view_granted

abbrev reader : RoleAction
reader = record { role_arn = "reader"; resource_path = "s3://a/*"; privilege = "READ_FILES" }

abbrev writer : RoleAction
writer = record { role_arn = "writer"; resource_path = "s3://b/*"; privilege = "WRITE_FILES" }

abbrev both_locations : Dict String String
both_locations = ("s3://a/x", "READ_FILES") ∷ ("s3://b/x", "WRITE_FILES") ∷ []

abbrev eligible : Dict String (Dict String String)
eligible = ("one", both_locations) ∷ ("two", both_locations) ∷ []

eligible_for_both :
    get_eligible_locations
      (("one", "reader") ∷ ("two", "writer") ∷ [])
      (some "s3://a/x" ∷ some "s3://b/x" ∷ [])
      (ok (reader ∷ writer ∷ []))
    ≡ ok eligible
unfolding get_eligible_locations eligible_loop get_external_locations match_location resource_url
    find_star take_chars get put update contents
eligible_for_both = refl

one_gets : get "one" eligible ≡ some both_locations
unfolding get
one_gets = refl

get_eligible_locations_shared_example :
    both_locations
    ≡ all_locations
        (some "s3://a/x" ∷ some "s3://b/x" ∷ [])
        (reader ∷ writer ∷ [])
        (("one", "reader") ∷ ("two", "writer") ∷ [])
        []
get_eligible_locations_shared_example =
    get_eligible_locations_shared (("one", "reader") ∷ ("two", "writer") ∷ [])
      (some "s3://a/x" ∷ some "s3://b/x" ∷ []) (reader ∷ writer ∷ []) eligible "one" both_locations
      eligible_for_both one_gets

abbrev schema_keys : GrantKeys
schema_keys = record {
  catalog = some "hive_metastore";
  database = some "db";
  table = none;
  view = none;
  udf = none;
  any_file = false;
  anonymous_function = false;
}

abbrev shown_rows : List GrantRow
shown_rows =
    record { row_principal = "me"; row_action = "USAGE"; row_type = "SCHEMA" }
    ∷ record { row_principal = "you"; row_action = "OWN"; row_type = "CATALOG$" }
    ∷ []

abbrev show_grants : String → String → Result (List GrantRow)
show_grants on_type object = ok shown_rows

schema_names_valid : valid_keys schema_keys ≡ ok schema_keys
unfolding valid_keys try_valid valid all_chars is_dot
schema_names_valid = refl

schema_type : type_and_key schema_keys ≡ ok ("DATABASE", "hive_metastore.db")
unfolding type_and_key join_dot
schema_type = refl

grants_on_sound_example :
    (grants : List Grant) × (grants_on show_grants schema_keys ≡ ok grants)
    × ((g : Grant)
        → Memᴰ g grants
        → (row : GrantRow) × Memᴰ row (rows_or_none (show_grants "DATABASE" "hive_metastore.db"))
          × (g.keys ≡ schema_keys)
          × (g.principal ≡ row.row_principal)
          × (g.action_type ≡ row.row_action)
          × (normalized row.row_type ≡ "DATABASE"))
grants_on_sound_example =
    grants_on_sound show_grants schema_keys schema_keys "DATABASE" "hive_metastore.db"
      schema_names_valid schema_type
