-- ===== src/Tests/FrameworkSamples.antt =====
-- Samples for framework/utils.py and framework/crawlers.py.
use databricks_ucx.Prelude.{
  ℕ, true, false, List, [], ◌∷◌, ◌++◌, map, All, Option, none, some, ◌≡◌, refl, arith,
}
use databricks_ucx.Text.{split_dot, all_chars, is_dot}
use databricks_ucx.Exec.{ok, err, not_found, Exec}
use databricks_ucx.Framework.Escape.{
  escape_sql_identifier, escape_part, is_allowed, IsSafePart, split_dot-escape_sql_identifier,
  escape_sql_identifier-IsSafePart,
}
use databricks_ucx.Framework.Crawler.{Names, init_names, full_name, snapshot, valid}
use databricks_ucx.Framework.Crawler.Laws.{split_dot-full_name, Inventory, snapshot_again}

split_dot-escape_sql_identifier_example :
    split_dot 2 (escape_sql_identifier "hive_metastore.my-db.t.x" true)
    ≡ map (escape_part true) (split_dot 2 "hive_metastore.my-db.t.x")
split_dot-escape_sql_identifier_example =
    split_dot-escape_sql_identifier "hive_metastore.my-db.t.x" true

escape_sql_identifier-IsSafePart_example :
    All (IsSafePart false) (split_dot 2 (escape_sql_identifier "a.b-c.d" false))
escape_sql_identifier-IsSafePart_example = escape_sql_identifier-IsSafePart "a.b-c.d" false

allowed_parts : All (λ p. all_chars is_allowed p ≡ true) (split_dot 2 "a.b_1.C")
unfolding all_chars is_allowed split_dot is_dot
allowed_parts = (refl, (refl, (refl, tt)))

abbrev inventory_names : Names
inventory_names = record { catalog = "hive_metastore"; schema = "ucx"; table = "tables" }

inventory_names_made : init_names "hive_metastore" "ucx" "tables" ≡ ok inventory_names
unfolding init_names valid all_chars is_dot
inventory_names_made = refl

split_dot-full_name_example :
    split_dot 2 (full_name inventory_names) ≡ "hive_metastore" ∷ "ucx" ∷ "tables" ∷ []
split_dot-full_name_example =
    split_dot-full_name "hive_metastore" "ucx" "tables" inventory_names_made

abbrev fetch_table : Exec (Option (List ℕ)) (List ℕ)
fetch_table none = (err not_found, none)
fetch_table (some rows) = (ok rows, some rows)

abbrev append_table : List ℕ → Exec (Option (List ℕ)) (Unit {0})
append_table rows none = (ok tt, some rows)
append_table rows (some old) = (ok tt, some (old ++ rows))

abbrev crawl_two : Exec (Option (List ℕ)) (List ℕ)
crawl_two w = (ok (1 ∷ 2 ∷ []), w)

fetch_some : (w : Option (List ℕ)) (rows : List ℕ) → w ≡ some rows → fetch_table w ≡ (ok rows, w)
fetch_some none rows h = absurd (ground arith)
fetch_some (some old) rows h = ground arith

fetch_none : (w : Option (List ℕ)) → w ≡ none → fetch_table w ≡ (err not_found, w)
fetch_none none h = refl
fetch_none (some rows) h = absurd (ground arith)

append_more :
    (w : Option (List ℕ)) (rows : List ℕ)
    → (append_table rows w).0 ≡ ok tt
    → (append_table rows w).1 ≡ some (elim w [ none ↦ rows | some old ↦ old ++ rows ])
append_more none rows h = refl
append_more (some old) rows h = refl

abbrev table_inventory : Inventory (Option (List ℕ)) ℕ
table_inventory = record {
  stored = λ w. w;
  fetch = fetch_table;
  append = append_table;
  fetch_rows = fetch_some;
  fetch_missing = fetch_none;
  append_stored = append_more;
}

snapshot_of_missing :
    snapshot fetch_table crawl_two append_table none ≡ (ok (1 ∷ 2 ∷ []), some (1 ∷ 2 ∷ []))
unfolding snapshot
snapshot_of_missing = refl

snapshot_again_example :
    snapshot fetch_table crawl_two append_table (some (1 ∷ 2 ∷ []))
    ≡ (ok (1 ∷ 2 ∷ []), some (1 ∷ 2 ∷ []))
snapshot_again_example =
    snapshot_again table_inventory crawl_two none 1 (2 ∷ []) {w' = some (1 ∷ 2 ∷ [])} (λ v. refl)
      snapshot_of_missing
