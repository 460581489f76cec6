-- ===== src/Framework/Escape/Parts.antt =====
-- framework/utils.py
use Prim.Native.Char.{Char, code}
use Prim.Native.String.{◌++◌}
use databricks_ucx.Prelude.{
  String, Bool, true, false, ◌||◌, ◌&&◌, not, map, leb, nat_eq, if◌then◌else◌, ◌≡◌, refl,
}
use databricks_ucx.Text.{
  all_chars, first_is, last_is, lstrip, rstrip, split_dot, join_dot, is_dot, is_empty,
}

-- _allowed_object_chars: the letters and digits of ASCII and the underscore
unfoldable pub is_allowed : Char → Bool
is_allowed c =
    leb b'a' (code c) && leb (code c) b'z'
    || leb b'A' (code c) && leb (code c) b'Z'
    || leb b'0' (code c) && leb (code c) b'9'
    || nat_eq (code c) b'_'

unfoldable pub is_backtick : Char → Bool
is_backtick c = nat_eq (code c) 96

-- f"`{part}`"
unfoldable pub backticked : String → String
backticked part = "`" ++ part ++ "`"

-- The body of the loop over the parts.
unfoldable pub escape_part : Bool → String → String
unfolding is_backtick
escape_part optional part =
    if not (first_is is_backtick part) && not (last_is is_backtick part)
    then (let stripped = rstrip is_backtick (lstrip is_backtick part) in
        if not optional || not (all_chars is_allowed stripped)
        then backticked stripped
        else stripped)
    else part

unfoldable pub escape_sql_identifier : String → Bool → String
escape_sql_identifier path optional = join_dot (map (escape_part optional) (split_dot 2 path))

escape_samples :
    (escape_sql_identifier "hive_metastore.db.a-b" true ≡ "hive_metastore.db.`a-b`")
    × (escape_sql_identifier "a.b.c.d" true ≡ "a.b.`c.d`")
    × (escape_sql_identifier "a.b" false ≡ "`a`.`b`")
unfolding escape_sql_identifier escape_part backticked is_allowed all_chars first_is last_is lstrip
    rstrip split_dot join_dot is_dot is_empty
escape_samples = (refl, refl, refl)
