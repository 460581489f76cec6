-- ===== src/HiveMetastore/Grants.antt =====
-- hive_metastore/grants.py: grants and the statements that give them.
pub mod Cluster
pub mod Laws
pub mod Eligible
pub mod Listing
use Prim.Native.Char.{Char, code}
use Prim.Native.String.{[] as empty, ◌∷◌ as cons, ◌++◌}
use databricks_ucx.Prelude.{
  ℕ, String, String_eq, ◌==◌, pair_eq, Bool, true, false, not, ◌&&◌, List, [], ◌∷◌, Option, none,
  some, if◌then◌else◌, mem, nat_eq,
}
use databricks_ucx.Text.{lower, join_dot, push}
use databricks_ucx.Dict.{Dict, get}
use databricks_ucx.Exec.{Result, ok, err, value_error, and_then}
use databricks_ucx.Framework.Escape.{escape_sql_identifier}

-- The object of a grant: the fields of Grant after the principal and the action.
pub record GrantKeys : Type 0 where
  pub catalog : Option String
  pub database : Option String
  pub table : Option String
  pub view : Option String
  pub udf : Option String
  pub any_file : Bool
  pub anonymous_function : Bool

pub record Grant : Type 0 where
  pub principal : String
  pub action_type : String
  pub keys : GrantKeys

abbrev pub or_default : String → Option String → String
or_default d none = d
or_default d (some s) = s

-- "{catalog}.{database}.{name}" with the defaults
abbrev pub key_in : GrantKeys → String → String
key_in g name =
    join_dot (or_default "hive_metastore" g.catalog ∷ or_default "default" g.database ∷ name ∷ [])

-- The end of type_and_key, where there is no table, view or function.
abbrev pub container_key : GrantKeys → Result (String × String)
container_key g = elim g.database [
  | some database ↦
      ok ("DATABASE", join_dot (or_default "hive_metastore" g.catalog ∷ database ∷ []))
  | none ↦
      if g.any_file
      then ok ("ANY FILE", "")
      else if g.anonymous_function
      then ok ("ANONYMOUS FUNCTION", "")
      else (elim g.catalog [ some catalog ↦ ok ("CATALOG", catalog) | none ↦ err value_error ])
]

-- Grant.type_and_key
unfoldable pub type_and_key : GrantKeys → Result (String × String)
type_and_key g = elim g.table [
  | some table ↦ ok ("TABLE", key_in g table)
  | none ↦ elim g.view [
    | some view ↦ ok ("VIEW", key_in g view)
    | none ↦ elim g.udf [ some udf ↦ ok ("FUNCTION", key_in g udf) | none ↦ container_key g ]
  ]
]

-- Grant.object_key
unfoldable pub object_key : Grant → Result String
unfolding type_and_key
object_key g = and_then (type_and_key g.keys) λ p. ok (lower p.1)

-- action_type.split(", ")
unfoldable pub split_actions : String → List String
split_actions empty = empty ∷ []
split_actions (cons c empty) = cons c empty ∷ []
split_actions (cons c (cons d s)) = elim (nat_eq (code c) 44 && nat_eq (code d) 32) [
  | true ↦ empty ∷ split_actions s
  | false ↦ push c (split_actions (cons d s))
]

-- ", ".join(actions)
unfoldable pub join_actions : List String → String
join_actions [] = ""
join_actions (a ∷ []) = a
join_actions (a ∷ b ∷ rest) = a ++ ", " ++ join_actions (b ∷ rest)

unfoldable pub remove_action : String → List String → List String
remove_action a [] = []
remove_action a (x ∷ xs) = if x == a then xs else x ∷ remove_action a xs

abbrev quoted : String → String
quoted principal = "`" ++ principal ++ "`"

unfoldable pub set_owner_sql : String → String → String → String
set_owner_sql principal object_type key =
    "ALTER "
    ++ object_type
    ++ " "
    ++ escape_sql_identifier key true
    ++ " OWNER TO "
    ++ quoted principal

unfoldable pub apply_grant_sql : String → String → String → String → String
apply_grant_sql principal action object_type key =
    "GRANT "
    ++ action
    ++ " ON "
    ++ object_type
    ++ " "
    ++ escape_sql_identifier key true
    ++ " TO "
    ++ quoted principal

unfoldable pub hive_revoke_sql : Grant → Result String
unfolding type_and_key
hive_revoke_sql g = and_then (type_and_key g.keys) λ p. ok (
    "REVOKE "
    ++ g.action_type
    ++ " ON "
    ++ p.0
    ++ " "
    ++ escape_sql_identifier p.1 true
    ++ " FROM "
    ++ quoted g.principal)

abbrev pub rest_of_actions : String → List String → String → String → List String
rest_of_actions principal [] object_type key = []
rest_of_actions principal (a ∷ actions) object_type key =
    apply_grant_sql principal (join_actions (a ∷ actions)) object_type key ∷ []

-- The statements of hive_grant_sql for the actions.
unfoldable pub grant_statements : String → List String → String → String → List String
unfolding set_owner_sql apply_grant_sql join_actions remove_action
grant_statements principal actions object_type key =
    if mem "OWN" actions
    then set_owner_sql principal object_type key
      ∷ rest_of_actions principal (remove_action "OWN" actions) object_type key
    else rest_of_actions principal actions object_type key

unfoldable pub hive_grant_sql : Grant → Result (List String)
unfolding type_and_key grant_statements split_actions
hive_grant_sql g =
    and_then (type_and_key g.keys)
      λ p. ok (grant_statements g.principal (split_actions g.action_type) p.0 p.1)

-- What a privilege becomes in Unity Catalog: an action, or the ownership.
pub data UcAction : Type 0 where
  uc_action : String → UcAction
  uc_owner : UcAction

-- hive_to_uc
unfoldable pub hive_to_uc : Dict (String × String) UcAction
hive_to_uc =
    (("FUNCTION", "SELECT"), uc_action "EXECUTE")
    ∷ (("TABLE", "SELECT"), uc_action "SELECT")
    ∷ (("TABLE", "MODIFY"), uc_action "MODIFY")
    ∷ (("TABLE", "READ_METADATA"), uc_action "BROWSE")
    ∷ (("TABLE", "ALL PRIVILEGES"), uc_action "ALL PRIVILEGES")
    ∷ (("TABLE", "OWN"), uc_owner)
    ∷ (("VIEW", "SELECT"), uc_action "SELECT")
    ∷ (("VIEW", "READ_METADATA"), uc_action "BROWSE")
    ∷ (("VIEW", "OWN"), uc_owner)
    ∷ (("DATABASE", "USAGE"), uc_action "USE SCHEMA")
    ∷ (("DATABASE", "CREATE"), uc_action "CREATE TABLE")
    ∷ (("DATABASE", "CREATE_NAMED_FUNCTION"), uc_action "CREATE FUNCTION")
    ∷ (("DATABASE", "SELECT"), uc_action "SELECT")
    ∷ (("DATABASE", "MODIFY"), uc_action "MODIFY")
    ∷ (("DATABASE", "OWN"), uc_owner)
    ∷ (("DATABASE", "READ_METADATA"), uc_action "BROWSE")
    ∷ (("CATALOG", "OWN"), uc_owner)
    ∷ (("CATALOG", "USAGE"), uc_action "USE CATALOG")
    ∷ []

abbrev pub uc_statement : String → String → String → UcAction → String
uc_statement principal object_type key (uc_action action) =
    apply_grant_sql principal action object_type key
uc_statement principal object_type key uc_owner = set_owner_sql principal object_type key

-- uc_grant_sql for an object type and key
unfoldable pub uc_grant_sql_on : Grant → String → String → Option String
unfolding hive_to_uc get apply_grant_sql set_owner_sql
uc_grant_sql_on g object_type key = elim (get (object_type, g.action_type) hive_to_uc) [
  | none ↦ none
  | some action ↦ some (uc_statement g.principal object_type key action)
]

-- uc_grant_sql without arguments
unfoldable pub uc_grant_sql : Grant → Result (Option String)
unfolding type_and_key uc_grant_sql_on
uc_grant_sql g = and_then (type_and_key g.keys) λ p. ok (uc_grant_sql_on g p.0 p.1)
