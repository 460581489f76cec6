-- ===== src/Framework/Crawler.antt =====
-- framework/crawlers.py: `CrawlerBase`. The SQL backend is a parameter: the fetch of the inventory
-- table, the crawl that fills it and `save_table(..., mode="append")`.
pub mod Laws
use Prim.Native.String.{◌++◌}
use databricks_ucx.Prelude.{
  String, Bool, true, false, not, List, [], ◌∷◌, Option, none, some, ◌≡◌, refl, if◌then◌else◌,
}
use databricks_ucx.Text.{no_dot, all_chars, is_dot, join_dot}
use databricks_ucx.Exec.{
  Result, ok, err, value_error, is_not_found, Exec, pure, raise, try_except, ◌>>=◌, ◌>>◌,
}

-- CrawlerBase._valid: `"." in name` raises
unfoldable pub valid : String → Result String
valid name = if no_dot name then ok name else err value_error

-- CrawlerBase._try_valid
unfoldable pub try_valid : Option String → Result (Option String)
unfolding valid
try_valid none = ok none
try_valid (some name) = elim (valid name) [ ok n ↦ ok (some n) | err e ↦ err e ]

pub record Names : Type 0 where
  pub catalog : String
  pub schema : String
  pub table : String

-- The names that CrawlerBase.__init__ keeps.
unfoldable pub init_names : String → String → String → Result Names
unfolding valid
init_names catalog schema table = elim (valid catalog) [
  | err e ↦ err e
  | ok c ↦ elim (valid schema) [
    | err e ↦ err e
    | ok s ↦ elim (valid table) [
      | err e ↦ err e
      | ok t ↦ ok (record { catalog = c; schema = s; table = t })
    ]
  ]
]

-- CrawlerBase.full_name
unfoldable pub full_name : Names → String
unfolding join_dot
full_name n = join_dot (n.catalog ∷ n.schema ∷ n.table ∷ [])

-- CrawlerBase.reset, with the execution of a statement
unfoldable pub reset {ℓ κ} : {W : Type ℓ} {A : Type κ} → (String → Exec W A) → Names → Exec W A
unfolding full_name
reset execute n = execute ("DELETE FROM " ++ full_name n)

-- The cached rows, if there is a row.
abbrev pub if_any {ℓ} : {A : Type ℓ} → List A → Option (List A)
if_any [] = none
if_any (r ∷ rs) = some (r ∷ rs)

module _ {ℓ κ} {W : Type ℓ} {A : Type κ} where
  abbrev pub or_crawl :
      Exec W (List A) → (List A → Exec W (Unit {0})) → Option (List A) → Exec W (List A)
  or_crawl loader append (some cached) = pure cached
  or_crawl loader append none = do
    loaded_records ← loader
    append loaded_records
    pure loaded_records

  -- CrawlerBase._snapshot
  unfoldable pub snapshot :
      Exec W (List A) → Exec W (List A) → (List A → Exec W (Unit {0})) → Exec W (List A)
  snapshot fetcher loader append = do
    cached ← try_except is_not_found (pure none) (do rows ← fetcher; pure (if_any rows))
    or_crawl loader append cached
