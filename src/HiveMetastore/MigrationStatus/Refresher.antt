-- ===== src/HiveMetastore/MigrationStatus/Refresher.antt =====
-- `MigrationStatusRefresher`. The workspace's catalogs, schemas and tables and the table properties
-- that the SQL backend shows are parameters.
use databricks_ucx.Prelude.{
  String, String_eq, Bool, true, false, List, [], ◌∷◌, ◌++◌, map, Option, none, some, if◌then◌else◌,
}
use databricks_ucx.Text.{lower, is_empty, contains, split_dots}
use databricks_ucx.Dict.{Dict, get, put, of_pairs}
use databricks_ucx.Exec.{Result, ok, err, and_then, is_not_found}
use databricks_ucx.HiveMetastore.Tables.{Table, key}
use databricks_ucx.HiveMetastore.MigrationStatus.{MigrationStatus}

-- What the program reads of the SDK's SchemaInfo and TableInfo.
pub record SchemaInfo : Type 0 where
  pub catalog_name : String
  pub schema_name : String

pub record TableInfo : Type 0 where
  pub full_name : Option String
  pub properties : Dict String String

-- A listing that raises NotFound is skipped; any other error ends the method.
abbrev pub or_skipped {ℓ} : {A : Type ℓ} → Result (List A) → Result (List A)
or_skipped (ok l) = ok l
or_skipped (err e) = if is_not_found e then ok [] else err e

-- One table of the loop in `get_seen_tables`.
unfoldable pub see_table : Dict String String → TableInfo → Dict String String
see_table seen table = elim (get "upgraded_from" table.properties) [
  | none ↦ seen
  | some upgraded_from ↦ elim table.full_name [
    | none ↦ seen
    | some full_name ↦
        if is_empty full_name then seen else put (lower full_name) (lower upgraded_from) seen
  ]
]

unfoldable pub see_tables : Dict String String → List TableInfo → Dict String String
unfolding see_table
see_tables seen [] = seen
see_tables seen (table ∷ tables) = see_tables (see_table seen table) tables

module _ (catalogs : List String) (list_schemas : String → Result (List SchemaInfo))
    (list_tables : SchemaInfo → Result (List TableInfo)) where
  unfoldable pub iter_schemas : List String → Result (List SchemaInfo)
  iter_schemas [] = ok []
  iter_schemas (catalog ∷ rest) =
      let later = iter_schemas rest in
      and_then (or_skipped (list_schemas catalog))
        λ here. and_then later λ there. ok (here ++ there)

  unfoldable pub seen_in : Dict String String → List SchemaInfo → Result (Dict String String)
  unfolding see_tables
  seen_in seen [] = ok seen
  seen_in seen (schema ∷ schemas) = elim (or_skipped (list_tables schema)) [
    | err e ↦ err e
    | ok tables ↦ seen_in (see_tables seen tables) schemas
  ]

  unfoldable pub get_seen_tables : Result (Dict String String)
  unfolding iter_schemas seen_in
  get_seen_tables = and_then (iter_schemas catalogs) (seen_in [])

-- The loop of `is_migrated` over the rows that SHOW TBLPROPERTIES (...) returns.
unfoldable pub any_property : List String → Bool
any_property [] = false
any_property (value ∷ values) =
    let rest = any_property values in if contains value "does not have property" then rest else true

-- {v: k for k, v in seen.items()}
unfoldable pub reverse_seen : Dict String String → Dict String String
reverse_seen seen = of_pairs (map (λ p. (p.1, p.0)) seen)

-- `replace(...)` where the target has three parts
unfoldable pub with_target : MigrationStatus → List String → MigrationStatus
with_target ms (c ∷ s ∷ t ∷ []) = record ms {
  dst_catalog = some c;
  dst_schema = some s;
  dst_table = some t;
}
with_target ms _ = ms

-- The status that the loop starts from.
abbrev pub unmigrated : String → String → String → MigrationStatus
unmigrated schema name timestamp = record {
  src_schema = schema;
  src_table = name;
  dst_catalog = none;
  dst_schema = none;
  dst_table = none;
  update_ts = some timestamp;
}

module _ (reverse : Dict String String) (show_properties : String → String → List String)
    (timestamp : String) where
  -- One table of the loop in `_crawl`. `reverse_seen[table.key]` cannot fail: the key is there.
  unfoldable pub status_of : Table → MigrationStatus
  status_of table =
      let schema = lower table.database in
      let name = lower table.name in
      let start = unmigrated schema name timestamp in
      elim (get (key table) reverse) [
        | none ↦ start
        | some target ↦
            if any_property (show_properties schema name)
            then with_target start (split_dots target)
            else start
      ]

  unfoldable pub crawl_status : List Table → List MigrationStatus
  unfolding status_of
  crawl_status tables = map status_of tables
