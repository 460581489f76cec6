-- ===== src/HiveMetastore/Tables/Serde.antt =====
-- `Table.hiveserde_type`: the rows of DESCRIBE TABLE EXTENDED come from the SQL backend.
use databricks_ucx.Prelude.{
  String, String_eq, ◌==◌, Bool, ◌&&◌, not, List, Option, some, if◌then◌else◌,
}
use databricks_ucx.Dict.{get, of_pairs}
use databricks_ucx.HiveMetastore.Tables.{Table, on_format}

pub data HiveSerdeType : Type 0 where
  parquet avro orc other_hiveserde not_hiveserde invalid_hiveserde_info : HiveSerdeType

-- The library, the input format and the output format that a type stands for.
unfoldable pub if_parquet_serde : String → String → String → Bool
if_parquet_serde serde input_format output_format =
    serde == "org.apache.hadoop.hive.ql.io.parquet.serde.ParquetHiveSerDe"
    && input_format == "org.apache.hadoop.hive.ql.io.parquet.MapredParquetInputFormat"
    && output_format == "org.apache.hadoop.hive.ql.io.parquet.MapredParquetOutputFormat"

unfoldable pub if_avro_serde : String → String → String → Bool
if_avro_serde serde input_format output_format =
    serde == "org.apache.hadoop.hive.serde2.avro.AvroSerDe"
    && input_format == "org.apache.hadoop.hive.ql.io.avro.AvroContainerInputFormat"
    && output_format == "org.apache.hadoop.hive.ql.io.avro.AvroContainerOutputFormat"

unfoldable pub if_orc_serde : String → String → String → Bool
if_orc_serde serde input_format output_format =
    serde == "org.apache.hadoop.hive.ql.io.orc.OrcSerde"
    && input_format == "org.apache.hadoop.hive.ql.io.orc.OrcInputFormat"
    && output_format == "org.apache.hadoop.hive.ql.io.orc.OrcOutputFormat"

unfoldable pub serde_type : String → String → String → HiveSerdeType
unfolding if_parquet_serde if_avro_serde if_orc_serde
serde_type serde input_format output_format =
    if if_parquet_serde serde input_format output_format
    then parquet
    else if if_avro_serde serde input_format output_format
    then avro
    else if if_orc_serde serde input_format output_format
    then orc
    else other_hiveserde

-- The three keys have to be there.
abbrev pub serde_of : Option String → Option String → Option String → HiveSerdeType
serde_of (some serde) (some input_format) (some output_format) =
    serde_type serde input_format output_format
serde_of _ _ _ = invalid_hiveserde_info

-- Table.hiveserde_type, on the (key, value) pairs of the description's rows
unfoldable pub hiveserde_type : Table → List (String × String) → HiveSerdeType
unfolding serde_type
hiveserde_type t rows =
    if not (on_format t.table_format (λ f. f == "HIVE"))
    then not_hiveserde
    else (let describe = of_pairs rows in
        serde_of (get "Serde Library" describe) (get "InputFormat" describe)
          (get "OutputFormat" describe))
