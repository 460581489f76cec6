-- ===== src/HiveMetastore/MigrationStatus/Seen.antt =====
-- The names of the tables that have been seen as migrated.
use mathlib.Core.List.{Memᴰ}
use databricks_ucx.Prelude.{
  String, String_eq, true, List, [], ◌∷◌, ◌≡◌, ap, arith, inl, inr, Bool-cases, Option-cases, subst,
}
use databricks_ucx.Text.{lower, lower_idem, is_empty}
use databricks_ucx.Dict.{Dict, get, put, has}
use databricks_ucx.Dict.Laws.{get→Memᴰ, Memᴰ-put}
use databricks_ucx.Exec.{Result, ok, and_then-eq-ok, Result-cases}
use databricks_ucx.HiveMetastore.MigrationStatus.Refresher.{
  SchemaInfo, TableInfo, or_skipped, see_table, see_tables, iter_schemas, seen_in, get_seen_tables,
}

-- Keys and values are in lower case.
abbrev pub IsLowered : Dict String String → Type 0
IsLowered seen =
    (k v : String) → Memᴰ {A = String × String} (k, v) seen → (lower k ≡ k) × (lower v ≡ v)

put-IsLowered :
    (k v : String) (seen : Dict String String)
    → IsLowered seen
    → IsLowered (put (lower k) (lower v) seen)
put-IsLowered k v seen h i j m = elim (Memᴰ-put (lower k) (lower v) seen m) [
  | inl p ↦
      let key : i ≡ lower k = ap (λ (q : String × String). q.0) p in
      let value : j ≡ lower v = ap (λ (q : String × String). q.1) p in
      (cc (key, lower_idem k), cc (value, lower_idem v))
  | inr n ↦ h i j n
]

see_table-IsLowered :
    (seen : Dict String String) (t : TableInfo) → IsLowered seen → IsLowered (see_table seen t)
unfolding see_table
see_table-IsLowered seen t h = elim (Option-cases (get "upgraded_from" t.properties)) [
  | inl e ↦ rw (see_table, e) h
  | inr (from, e) ↦ elim (Option-cases t.full_name) [
    | inl f ↦ rw (see_table, e, f) h
    | inr (name, f) ↦ elim (Bool-cases (is_empty name)) [
      | inl b ↦ rw (see_table, e, f, b) h
      | inr b ↦ rw (see_table, e, f, b) (put-IsLowered name from seen h)
    ]
  ]
]

see_tables-IsLowered :
    (seen : Dict String String) (tables : List TableInfo)
    → IsLowered seen
    → IsLowered (see_tables seen tables)
unfolding see_tables
see_tables-IsLowered seen [] h = h
see_tables-IsLowered seen (t ∷ tables) h =
    see_tables-IsLowered (see_table seen t) tables (see_table-IsLowered seen t h)

module _ (catalogs : List String) (list_schemas : String → Result (List SchemaInfo))
    (list_tables : SchemaInfo → Result (List TableInfo)) where
  seen_in-IsLowered :
      (seen : Dict String String) (schemas : List SchemaInfo) {d : Dict String String}
      → IsLowered seen
      → seen_in catalogs list_schemas list_tables seen schemas ≡ ok d
      → IsLowered d
  unfolding seen_in
  seen_in-IsLowered seen [] h e = subst IsLowered (ground (e, arith)) h
  seen_in-IsLowered seen (s ∷ schemas) h e = elim (Result-cases (or_skipped (list_tables s))) [
    | inl (tables, f) ↦
        seen_in-IsLowered (see_tables seen tables) schemas (see_tables-IsLowered seen tables h)
          (rw (seen_in, f) at e)
    | inr (error, f) ↦ absurd (ground (rw (seen_in, f) at e, arith))
  ]

  -- A target is found among the tables that have been seen only under its name in lower case: a
  -- name with a capital letter is never found.
  pub get_seen_tables-lower :
      (seen : Dict String String) (k : String)
      → get_seen_tables catalogs list_schemas list_tables ≡ ok seen
      → has k seen ≡ true
      → lower k ≡ k
  unfolding get_seen_tables
  get_seen_tables-lower seen k e h =
      let (schemas, f, g) =
        and_then-eq-ok (iter_schemas catalogs list_schemas list_tables catalogs) _ e in
      elim (Option-cases (get k seen)) [
        | inl n ↦ absurd (cc (rw n at h))
        | inr (v, n) ↦
            (seen_in-IsLowered [] schemas (λ i j m. elim m [ ]) g k v (get→Memᴰ k v seen n)).0
      ]
