-- ===== src/HiveMetastore/Locations/InMounts/Registered.antt =====
-- hive_metastore/locations.py: the tables of the assessment are not found a second time.
use mathlib.Core.List.{Memᴰ}
use mathlib.Core.List.Memᴰ as M
use databricks_ucx.Prelude.{
  ℕ, String, String_eq, true, false, List, [], ◌∷◌, ◌++◌, some, ◌≡◌, ◌≢◌, ◌⊎◌, refl, sym, ap, ◌∙◌,
  arith, inl, inr, subst, Bool-cases, Option-cases, Memᴰ-filter_map, if◌then◌else◌,
}
use databricks_ucx.Text.{is_empty}
use databricks_ucx.Dict.{Dict, put, has}
use databricks_ucx.Dict.Laws.{get-put}
use databricks_ucx.HiveMetastore.Tables.{Table, key}
use databricks_ucx.HiveMetastore.Grants.Cluster.{Mount}
use databricks_ucx.HiveMetastore.Views.Sequencer.{Outcome, returns, raises, out_of_fuel, ◌>>=◌}
use databricks_ucx.HiveMetastore.Locations.InMounts.{
  TableInMount, MountApi, get_table_location, table_at, tables_at, folders_of, is_included, crawl,
  paths_from_assessment, snapshot_records,
}

has-put :
    {V : Type 0} (k j : String) (v : V) (d : Dict String V)
    → (k ≡ j) ⊎ (has k d ≡ true)
    → has k (put j v d) ≡ true
has-put k j v d h = ground (arith, get-put j k v d, String_eq.beq_iff j k, h)

bind-returns {ℓ κ} :
    {A : Type ℓ} {B : Type κ} (m : Outcome A) (f : A → Outcome B) {b : B}
    → m >>= f ≡ returns b
    → (a : A) × (m ≡ returns a) × (f a ≡ returns b)
bind-returns (returns a) f h = (a, refl, h)
bind-returns (raises e) f h = absurd (ground (h, arith))
bind-returns out_of_fuel f h = absurd (ground (h, arith))

paths_from_assessment-keeps :
    (l : String) (tables : List Table) (seen : Dict String String)
    → has l seen ≡ true
    → has l (paths_from_assessment seen tables) ≡ true
unfolding paths_from_assessment
paths_from_assessment-keeps l [] seen h = h
paths_from_assessment-keeps l (t ∷ tables) seen h = elim (Option-cases t.location) [
  | inl e ↦ rw (paths_from_assessment, e) (paths_from_assessment-keeps l tables seen h)
  | inr (location, e) ↦
      rw (paths_from_assessment, e)
        (paths_from_assessment-keeps l tables
          (if is_empty location then seen else put location (key t) seen)
          (elim (Bool-cases (is_empty location)) [
            | inl b ↦ rw b h
            | inr b ↦ rw b (has-put l location (key t) seen (inr h))
          ]))
]

paths_from_assessment-has :
    (l : String) (tables : List Table) (seen : Dict String String) (c : Table)
    → Memᴰ c tables
    → c.location ≡ some l
    → is_empty l ≡ false
    → has l (paths_from_assessment seen tables) ≡ true
unfolding paths_from_assessment
paths_from_assessment-has l [] seen c m e n = elim m [ ]
paths_from_assessment-has l (t ∷ tables) seen c m e n = elim (M.cases_cons m) [
  | inl p ↦
      let there : t.location ≡ some l = ap (λ (x : Table). x.location) (sym p) ∙ e in
      rw (paths_from_assessment, there)
        (paths_from_assessment-keeps l tables (if is_empty l then seen else put l (key t) seen)
          (rw n (has-put l l (key t) seen (inl refl))))
  | inr k ↦ elim (Option-cases t.location) [
    | inl p ↦ rw (paths_from_assessment, p) (paths_from_assessment-has l tables seen c k e n)
    | inr (location, p) ↦
        rw (paths_from_assessment, p)
          (paths_from_assessment-has l tables
            (if is_empty location then seen else put location (key t) seen) c k e n)
  ]
]

-- A table whose location is not registered.
abbrev pub IsUnregistered : Dict String String → Table → Type 0
IsUnregistered assessed t = (l : String) × (t.location ≡ some l) × (has l assessed ≡ false)

module _ (api : MountApi) (excluded : List String) where
  table_at-IsUnregistered :
      (assessed : Dict String String) (mount : Mount) (path : String) (entry : TableInMount)
      {t : Table}
      → table_at api excluded assessed mount path entry ≡ some t
      → IsUnregistered assessed t
  unfolding table_at
  table_at-IsUnregistered assessed mount path entry h =
      let l = get_table_location api excluded mount path in
      elim (Bool-cases (has l assessed)) [
        | inl b ↦ absurd (ground (rw b at h, arith))
        | inr b ↦ elim (Bool-cases (has path assessed)) [
          | inl c ↦ absurd (ground (rw (b, c) at h, arith))
          | inr c ↦ (l, ground (rw (b, c) at h, arith), b)
        ]
      ]

  crawl-IsUnregistered :
      (fuel : ℕ) (include_mounts include_paths : List String) (assessed : Dict String String)
      (mounts : List Mount) {found : List Table} (t : Table)
      → crawl api excluded fuel include_mounts include_paths assessed mounts ≡ returns found
      → Memᴰ t found
      → IsUnregistered assessed t
  unfolding crawl
  crawl-IsUnregistered fuel include_mounts include_paths assessed [] {found} t h m =
      let none_found : found ≡ [] = ground (sym h, arith) in
      let absent : Memᴰ t [] = subst (Memᴰ t) none_found m in elim absent [ ]
  crawl-IsUnregistered fuel include_mounts include_paths assessed (mount ∷ mounts) {found} t h m =
      elim (Bool-cases (is_included include_mounts mount)) [
        | inr b ↦
            crawl-IsUnregistered fuel include_mounts include_paths assessed mounts t
              (rw (crawl, b) at h) m
        | inl b ↦
            let (folders, e, k) =
              bind-returns (folders_of api excluded fuel include_paths mount) _
                (rw (crawl, b) at h) in
            let (later, f, g) =
              bind-returns (crawl api excluded fuel include_mounts include_paths assessed mounts) _
                k in
            let same : tables_at api excluded assessed mount folders ++ later ≡ found =
              ground (g, arith) in
            elim (M.append_cases (tables_at api excluded assessed mount folders)
              (subst (Memᴰ t) (sym same) m)) [
                | inl n ↦
                    let (p, i, q) = Memᴰ-filter_map _ folders n in
                    table_at-IsUnregistered assessed mount p.0 p.1 q
                | inr n ↦
                    crawl-IsUnregistered fuel include_mounts include_paths assessed mounts t f n
              ]
      ]

  -- Every record of a snapshot of the tables in mounts is a table of the assessment or a table that
  -- was found and whose location is not the location of a table of the assessment.
  pub snapshot_records-IsUnregistered :
      (fuel : ℕ) (include_mounts include_paths : List String) (cached : List Table)
      (mounts : List Mount) {records : List Table} (t : Table)
      → snapshot_records api excluded fuel include_mounts include_paths cached mounts
        ≡ returns records
      → Memᴰ t records
      → Memᴰ t cached
        ⊎ ((c : Table)
            → Memᴰ c cached
            → (l : String) → is_empty l ≡ false
            → c.location ≡ some l
            → t.location ≢ some l)
  unfolding snapshot_records
  snapshot_records-IsUnregistered fuel include_mounts include_paths cached mounts {records} t h m =
      let (found, e, g) =
        bind-returns
          (crawl api excluded fuel include_mounts include_paths (paths_from_assessment [] cached)
            mounts)
          _ h in
      let same : found ++ cached ≡ records = ground (g, arith) in
      elim (M.append_cases found (subst (Memᴰ t) (sym same) m)) [
        | inr n ↦ inl n
        | inl n ↦ inr (λ c i l nonempty at there.
            let (l', p, q) =
              crawl-IsUnregistered fuel include_mounts include_paths
                (paths_from_assessment [] cached) mounts t e n in
            let same_place : l' ≡ l = ground (p, there, arith) in
            ground (
              paths_from_assessment-has l cached [] c i at nonempty,
              ap (λ x. has x (paths_from_assessment [] cached)) same_place,
              q,
              arith,
            ))
      ]
