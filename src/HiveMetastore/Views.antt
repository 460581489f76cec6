-- ===== src/HiveMetastore/Views.antt =====
-- hive_metastore/view_migrate.py: the batches in which views are migrated. What sqlglot finds in a
-- view's text is a parameter. A set of views is a list of views with different keys, in the order of
-- the set's iteration, which the theorems leave open.
pub mod Sequencer
pub mod Batch
pub mod Search
pub mod Termination
pub mod Divergence
pub mod Order
pub mod Partition
use databricks_ucx.Prelude.{
  String, String_eq, ◌==◌, Bool, true, false, not, ◌&&◌, ◌||◌, List, [], ◌∷◌, ◌++◌, Option, none,
  some, if◌then◌else◌, Eq, ◌≡◌, ◌↔◌, refl, arith, eq_iff,
}
use mathlib.Core.List.{filter_map}
use databricks_ucx.Text.{is_empty}
use databricks_ucx.Exec.{Result, ok, err, value_error}
use databricks_ucx.HiveMetastore.Tables.{Table}
use databricks_ucx.HiveMetastore.Mapping.{TableToMigrate}
use databricks_ucx.HiveMetastore.MigrationStatus.{TableView}

-- The views are TableToMigrate whose source has a text (ViewToMigrate).
abbrev pub ViewToMigrate : Type 0
ViewToMigrate = TableToMigrate

-- TableView is a frozen dataclass: its equality is that of its fields.
abbrev pub view_beq : TableView → TableView → Bool
view_beq a b = (a.catalog == b.catalog) && (a.schema == b.schema) && (a.name == b.name)

pub view_beq_iff : (a b : TableView) → (view_beq a b ≡ true) ↔ (a ≡ b)
view_beq_iff a b =
    ground (arith, eq_iff a.catalog b.catalog, eq_iff a.schema b.schema, eq_iff a.name b.name)

instance abbrev pub TableView_eq : Eq TableView
TableView_eq = record { beq = view_beq; beq_iff = view_beq_iff }

-- sqlglot's Table node: absent parts are "".
pub record TableRef : Type 0 where
  pub ref_catalog : String
  pub ref_db : String
  pub ref_name : String

-- The body of the loop in `_view_dependencies`.
unfoldable pub dependency : String → TableRef → Option TableView
dependency database r =
    if not (is_empty r.ref_catalog) && not (r.ref_catalog == "hive_metastore")
    then none
    else (let src_db = if is_empty r.ref_db then database else r.ref_db in
        if is_empty src_db
        then none
        else some (record { catalog = "hive_metastore"; schema = src_db; name = r.ref_name }))

-- ViewToMigrate._view_dependencies: `parse` lists the table references of each statement of the
-- text; an absent statement is `none`, and a ParseError is an error.
unfoldable pub view_dependencies :
    (String → Result (List (Option (List TableRef)))) → ViewToMigrate → Result (List TableView)
view_dependencies parse v = elim v.src.view_text [
  | none ↦ err value_error
  | some text ↦ elim (parse text) [
    | err e ↦ err value_error
    | ok statements ↦ elim statements [
      | [] ↦ err value_error
      | statement ∷ more ↦ elim more [
        | [] ↦ elim statement [
          | none ↦ err value_error
          | some refs ↦ ok (filter_map (dependency v.src.database) refs)
        ]
        | _ ∷ _ ↦ err value_error
      ]
    ]
  ]
]
