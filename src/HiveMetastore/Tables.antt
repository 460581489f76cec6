-- ===== src/HiveMetastore/Tables.antt =====
-- hive_metastore/tables.py: `Table` and what kind of migration a table needs.
pub mod Sql
pub mod Laws
pub mod Serde
use databricks_ucx.Prelude.{
  zero, suc, ℕ, nat_eq, nat_eq_iff, Eq, ◌↔◌, sym, ap, ◌∙◌, String, Bool, true, false, not, ◌&&◌,
  ◌||◌, List, [], ◌∷◌, Option, none, some, any, mem, String_eq, ◌==◌, if◌then◌else◌, is_none,
  is_some, ◌≡◌, refl,
}
use databricks_ucx.Text.{starts_with, upper, lower, join_dot, is_empty}
use databricks_ucx.Exec.{Result, ok, err, attribute_error}
use databricks_ucx.Framework.Escape.{escape_sql_identifier}

pub data What : Type 0 where
  external_sync external_hiveserde external_no_sync dbfs_root_delta dbfs_root_non_delta : What
  view db_dataset unknown : What

-- The number of a class, and the class of a number.
abbrev pub what_number : What → ℕ
what_number external_sync = 0
what_number external_hiveserde = 1
what_number external_no_sync = 2
what_number dbfs_root_delta = 3
what_number dbfs_root_non_delta = 4
what_number view = 5
what_number db_dataset = 6
what_number unknown = 7

abbrev what_of_number : ℕ → What
what_of_number zero = external_sync
what_of_number (suc zero) = external_hiveserde
what_of_number (suc (suc zero)) = external_no_sync
what_of_number (suc (suc (suc zero))) = dbfs_root_delta
what_of_number (suc (suc (suc (suc zero)))) = dbfs_root_non_delta
what_of_number (suc (suc (suc (suc (suc zero))))) = view
what_of_number (suc (suc (suc (suc (suc (suc zero)))))) = db_dataset
what_of_number _ = unknown

-- AclMigrationWhat
pub data AclMigrationWhat : Type 0 where
  legacy_tacl principal : AclMigrationWhat

what_of_number-what_number : (w : What) → what_of_number (what_number w) ≡ w
what_of_number-what_number external_sync = refl
what_of_number-what_number external_hiveserde = refl
what_of_number-what_number external_no_sync = refl
what_of_number-what_number dbfs_root_delta = refl
what_of_number-what_number dbfs_root_non_delta = refl
what_of_number-what_number view = refl
what_of_number-what_number db_dataset = refl
what_of_number-what_number unknown = refl

abbrev pub what_beq : What → What → Bool
what_beq v w = nat_eq (what_number v) (what_number w)

pub what_beq_iff : (v w : What) → (what_beq v w ≡ true) ↔ (v ≡ w)
what_beq_iff v w = (
  λ h.
      sym (what_of_number-what_number v)
      ∙ ap what_of_number ((nat_eq_iff (what_number v) (what_number w)).0 h)
      ∙ what_of_number-what_number w,
  λ e. (nat_eq_iff (what_number v) (what_number w)).1 (ap what_number e),
)

instance abbrev pub What_eq : Eq What
What_eq = record { beq = what_beq; beq_iff = what_beq_iff }

pub record Table : Type 0 where
  pub catalog : String
  pub database : String
  pub name : String
  pub object_type : String
  pub table_format : Option String
  pub location : Option String
  pub view_text : Option String
  pub upgraded_to : Option String
  pub storage_properties : Option String
  pub is_partitioned : Bool

abbrev pub dbfs_root_prefixes : List String
dbfs_root_prefixes = "/dbfs/" ∷ "dbfs:/" ∷ []

abbrev pub dbfs_root_prefix_exceptions : List String
dbfs_root_prefix_exceptions = "/dbfs/mnt" ∷ "dbfs:/mnt" ∷ []

abbrev pub dbfs_databricks_datasets : List String
dbfs_databricks_datasets = "/dbfs/databricks-datasets" ∷ "dbfs:/databricks-datasets" ∷ []

-- A test on the format, which is false where the format is None.
abbrev pub on_format : Option String → (String → Bool) → Bool
on_format none test = false
on_format (some f) test = test f

unfoldable pub is_delta : Table → Bool
is_delta t = on_format t.table_format (λ f. upper f == "DELTA")

unfoldable pub key : Table → String
key t = lower (join_dot (t.catalog ∷ t.database ∷ t.name ∷ []))

unfoldable pub safe_sql_key : Table → String
safe_sql_key t = escape_sql_identifier (key t) true

-- Table.__eq__
unfoldable pub table_eq : Table → Table → Bool
table_eq t u = key t == key u

-- Table.kind, as the test `kind == "VIEW"`
unfoldable pub is_view : Table → Bool
is_view t = is_some t.view_text

unfoldable pub kind : Table → String
unfolding is_view
kind t = if is_view t then "VIEW" else "TABLE"

-- A location that is set: neither None nor "".
abbrev pub on_location : Table → (String → Bool) → Bool
on_location t test = elim t.location [
  | none ↦ false
  | some location ↦ if is_empty location then false else test location
]

abbrev pub starts_with_any : List String → String → Bool
starts_with_any prefixes location = any (starts_with location) prefixes

-- The loop of `is_dbfs_root`: the first prefix that fits decides.
unfoldable pub dbfs_root_by : List String → String → Bool
unfolding any
dbfs_root_by [] location = false
dbfs_root_by (prefix ∷ prefixes) location =
    let rest = dbfs_root_by prefixes location in
    if not (starts_with location prefix)
    then rest
    else if starts_with_any dbfs_root_prefix_exceptions location
    then false
    else if starts_with_any dbfs_databricks_datasets location
    then false
    else true

unfoldable pub is_dbfs_root : Table → Bool
unfolding dbfs_root_by is_empty
is_dbfs_root t = on_location t (dbfs_root_by dbfs_root_prefixes)

unfoldable pub is_dbfs_mnt : Table → Bool
unfolding any is_empty
is_dbfs_mnt t = on_location t (starts_with_any dbfs_root_prefix_exceptions)

unfoldable pub is_databricks_dataset : Table → Bool
unfolding any is_empty
is_databricks_dataset t = on_location t (starts_with_any dbfs_databricks_datasets)

unfoldable pub is_format_supported_for_sync : Table → Bool
unfolding mem
is_format_supported_for_sync t =
    on_format t.table_format
      λ f. mem (upper f) ("DELTA" ∷ "PARQUET" ∷ "CSV" ∷ "JSON" ∷ "ORC" ∷ "TEXT" ∷ "AVRO" ∷ [])

unfoldable pub is_format_supported_for_create_like : Table → Bool
unfolding mem
is_format_supported_for_create_like t =
    on_format t.table_format λ f. mem (upper f) ("DELTA" ∷ "PARQUET" ∷ "CSV" ∷ "JSON" ∷ "TEXT" ∷ [])

-- The end of `what`, for what is neither a dataset nor under the DBFS root. `None.upper()` raises.
unfoldable pub what_external : Table → Result What
what_external t =
    if not (is_view t) && is_format_supported_for_sync t
    then ok external_sync
    else if not (is_view t)
    then elim t.table_format [
      | none ↦ err attribute_error
      | some f ↦ if upper f == "HIVE" then ok external_hiveserde else ok external_no_sync
    ]
    else ok view

-- Table.what
unfoldable pub what : Table → Result What
what t =
    if is_databricks_dataset t
    then ok db_dataset
    else if is_dbfs_root t && on_format t.table_format (λ f. f == "DELTA")
    then ok dbfs_root_delta
    else if is_dbfs_root t
    then ok dbfs_root_non_delta
    else what_external t
