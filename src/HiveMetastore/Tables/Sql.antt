-- ===== src/HiveMetastore/Tables/Sql.antt =====
-- The statements that `Table` builds.
use Prim.Native.String.{◌++◌}
use databricks_ucx.Prelude.{String, not, if◌then◌else◌, true}
use databricks_ucx.Exec.{Result, ok, err, value_error}
use databricks_ucx.Framework.Escape.{escape_sql_identifier}
use databricks_ucx.HiveMetastore.Tables.{Table, key, kind, is_delta, safe_sql_key}

abbrev escaped : String → String
escaped path = escape_sql_identifier path true

unfoldable pub sql_alter_to : Table → String → String
sql_alter_to t target =
    "ALTER "
    ++ kind t
    ++ " "
    ++ escaped (key t)
    ++ " SET TBLPROPERTIES ('upgraded_to' = '"
    ++ target
    ++ "');"

unfoldable pub sql_alter_from : Table → String → String → String
sql_alter_from t target ws_id =
    "ALTER "
    ++ kind t
    ++ " "
    ++ escaped target
    ++ " SET TBLPROPERTIES ('upgraded_from' = '"
    ++ key t
    ++ "' , 'upgraded_from_workspace_id' = '"
    ++ ws_id
    ++ "');"

unfoldable pub sql_unset_upgraded_to : Table → String
sql_unset_upgraded_to t =
    "ALTER " ++ kind t ++ " " ++ escaped (key t) ++ " UNSET TBLPROPERTIES IF EXISTS('upgraded_to');"

unfoldable pub sql_migrate_external : Table → String → String
sql_migrate_external t target =
    "SYNC TABLE " ++ escaped target ++ " FROM " ++ escaped (key t) ++ ";"

unfoldable pub sql_migrate_ctas_external : Table → String → String → String
sql_migrate_ctas_external t target location =
    "CREATE TABLE IF NOT EXISTS "
    ++ escaped target
    ++ " LOCATION '"
    ++ location
    ++ "' AS SELECT * FROM "
    ++ safe_sql_key t

unfoldable pub sql_migrate_ctas_managed : Table → String → String
sql_migrate_ctas_managed t target =
    "CREATE TABLE IF NOT EXISTS " ++ escaped target ++ " AS SELECT * FROM " ++ safe_sql_key t

-- Raises for a table that is not in the Delta format.
unfoldable pub sql_migrate_dbfs : Table → String → Result String
sql_migrate_dbfs t target =
    if not (is_delta t)
    then err value_error
    else ok (
        "CREATE TABLE IF NOT EXISTS " ++ escaped target ++ " DEEP CLONE " ++ escaped (key t) ++ ";")
