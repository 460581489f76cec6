-- ===== src/HiveMetastore/Grants/Cluster.antt =====
-- hive_metastore/grants.py: `PrincipalACL`, the grants that the users of an interactive cluster get.
-- `replace` is `str.replace`; the principals of a cluster come from the workspace.
use Prim.Native.String.{[] as empty, ◌∷◌ as cons}
use mathlib.Core.List.{flat_map}
use databricks_ucx.Prelude.{
  ℕ, zero, suc, String, String_eq, ◌==◌, Bool, true, false, ◌||◌, List, [], ◌∷◌, ◌++◌, map, Option,
  none, some, if◌then◌else◌, mem,
}
use databricks_ucx.Text.{lower, starts_with}
use databricks_ucx.Dict.{Dict}
use databricks_ucx.HiveMetastore.Tables.{Table}
use databricks_ucx.HiveMetastore.Grants.{Grant, GrantKeys}

-- hive_metastore/locations.py
pub record Mount : Type 0 where
  pub name : String
  pub source : String

-- location[n:]
unfoldable pub drop_chars : ℕ → String → String
drop_chars zero s = s
drop_chars (suc n) empty = empty
drop_chars (suc n) (cons c s) = drop_chars n s

-- An entry of a cluster's access control list.
pub record AccessControl : Type 0 where
  pub user_name : Option String
  pub group_name : Option String
  pub service_principal_name : Option String

abbrev pub listed : Option String → List String
listed none = []
listed (some s) = s ∷ []

-- The body of the loop in _get_cluster_principal_mapping.
unfoldable pub principals_of : AccessControl → List String
principals_of acl = elim acl.group_name [
  | none ↦ listed acl.user_name ++ listed acl.service_principal_name
  | some group ↦
      if group == "admins"
      then listed acl.user_name
      else listed acl.user_name ++ group ∷ listed acl.service_principal_name
]

unfoldable pub cluster_principals : List AccessControl → List String
cluster_principals = flat_map principals_of

abbrev pub on_table : Table → GrantKeys
on_table t = record {
  catalog = some t.catalog;
  database = some t.database;
  table = some t.name;
  view = none;
  udf = none;
  any_file = false;
  anonymous_function = false;
}

abbrev pub on_view : Table → GrantKeys
on_view t = record {
  catalog = some t.catalog;
  database = some t.database;
  table = none;
  view = some t.name;
  udf = none;
  any_file = false;
  anonymous_function = false;
}

abbrev pub on_database : String → GrantKeys
on_database d = record {
  catalog = some "hive_metastore";
  database = some d;
  table = none;
  view = none;
  udf = none;
  any_file = false;
  anonymous_function = false;
}

abbrev pub for_all : List String → String → GrantKeys → List Grant
for_all principals action keys =
    map (λ p. record { principal = p; action_type = action; keys = keys }) principals

abbrev pub privilege_is : Option String → String → Bool
privilege_is none wanted = false
privilege_is (some privilege) wanted = privilege == wanted

-- The set of databases, in some order.
unfoldable pub insert_database : String → List String → List String
insert_database d ds = if mem d ds then ds else d ∷ ds

-- _get_database_grants
unfoldable pub database_grants : List String → List String → List Grant
database_grants databases principals =
    flat_map (λ d. for_all principals "USAGE" (on_database d)) databases

module _ (replace : String → String → String → String) where
  -- ExternalLocations.resolve_mount
  unfoldable pub resolve_mount : String → List Mount → String
  resolve_mount location [] = location
  resolve_mount location (mount ∷ mounts) =
      let rest = resolve_mount location mounts in
      let path = drop_chars 5 location in
      if starts_with path (lower mount.name) then replace path mount.name mount.source else rest

  -- The loops over the locations in _get_privilege.
  unfoldable pub privilege_at : String → Dict String String → Option String
  privilege_at location [] = none
  privilege_at location ((loc, privilege) ∷ locations) =
      let rest = privilege_at location locations in
      if starts_with location loc then some privilege else rest

  module _ (locations : Dict String String) (mounts : List Mount) where
    abbrev pub privilege_for : String → Option String
    privilege_for location =
        if starts_with location "dbfs:/mnt" || starts_with location "/dbfs/mnt"
        then privilege_at (resolve_mount location mounts) locations
        else if starts_with location "dbfs:/" || starts_with location "/dbfs/"
        then some "WRITE_FILES"
        else privilege_at location locations

    -- _get_privilege
    unfoldable pub get_privilege : Table → Option String
    unfolding privilege_at resolve_mount
    get_privilege table = elim table.view_text [
      | some _ ↦ none
      | none ↦ elim table.location [ none ↦ none | some location ↦ privilege_for location ]
    ]

    -- The grants on one table, and whether its database is used.
    unfoldable pub table_grants : List String → Table → List Grant × Bool
    unfolding get_privilege
    table_grants principals table =
        if privilege_is (get_privilege table) "READ_FILES"
        then (for_all principals "SELECT" (on_table table), true)
        else if privilege_is (get_privilege table) "WRITE_FILES"
        then (for_all principals "ALL PRIVILEGES" (on_table table), true)
        else (elim table.view_text [
          | some _ ↦ (for_all principals "ALL PRIVILEGES" (on_view table), true)
          | none ↦ ([], false)
        ])

    -- The databases of the tables that are granted.
    unfoldable pub granted_databases : List String → List Table → List String
    unfolding table_grants insert_database
    granted_databases principals [] = []
    granted_databases principals (t ∷ tables) =
        let rest = granted_databases principals tables in
        if (table_grants principals t).1 then insert_database t.database rest else rest

    -- _get_grants
    unfoldable pub get_grants : List String → List Table → List Grant
    unfolding table_grants granted_databases database_grants
    get_grants principals tables =
        flat_map (λ t. (table_grants principals t).0) tables
        ++ database_grants (granted_databases principals tables) principals

  -- get_interactive_cluster_grants, on each cluster's locations and principals: the elements of the
  -- set, of which some may stand twice here
  unfoldable pub get_interactive_cluster_grants :
      List (Dict String String × List String) → List Table → List Mount → List Grant
  unfolding get_grants
  get_interactive_cluster_grants clusters tables mounts =
      flat_map (λ (c : Dict String String × List String). get_grants c.0 mounts c.1 tables) clusters
