-- ===== src/HiveMetastore/TableMigrate/Revert/Laws.antt =====
-- What the revert drops: for each table in scope, a target that was seen as upgraded from it.
use Prim.Native.String.{[] as empty, ◌∷◌ as cons}
use mathlib.Core.List.{Memᴰ}
use mathlib.Core.List.Memᴰ as M
use databricks_ucx.Prelude.{
  none, ◌⊎◌, ◌↔◌, eq_iff, String, String_eq, Bool, true, false, List, [], ◌∷◌, map, Option, some,
  ◌≡◌, refl, sym, ap, ◌∙◌, subst, arith, inl, inr, Bool-cases, Memᴰ-filter, mem, mem→Memᴰ, ◌↔◌,
  Memᴰ→mem, ◌⊎◌, eq_iff, filter-Memᴰ,
}
use databricks_ucx.Text.{is_empty, lower}
use databricks_ucx.Dict.{Dict, get, values}
use databricks_ucx.Dict.Laws.{get→Memᴰ, Memᴰ-of_pairs, get-of_pairs}
use databricks_ucx.Dict.Values.{Memᴰ-values, Memᴰ-last_of, values-Memᴰ}
use databricks_ucx.Exec.{ok}
use databricks_ucx.HiveMetastore.Tables.{Table, key}
use databricks_ucx.HiveMetastore.MigrationStatus.Refresher.{reverse_seen}
use databricks_ucx.HiveMetastore.TableMigrate.Revert.{
  lowered, excludes, is_to_revert, get_tables_to_revert, is_reverted, tasks_of, revert_tasks,
  is_view, lower, is_empty,
}

abbrev swapped : String × String → String × String
swapped p = (p.1, p.0)

-- The reversed dictionary has an item of the dictionary for every value.
pub get-reverse_seen :
    (seen : Dict String String) (k : String)
    → mem k (values seen) ≡ true
    → (target : String) × (get k (reverse_seen seen) ≡ some target)
      × Memᴰ {A = String × String} (target, k) seen
unfolding reverse_seen
get-reverse_seen seen k h =
    let (j, m) = Memᴰ-values seen (mem→Memᴰ k (values seen) h) in
    let (target, e) = Memᴰ-last_of k j (map swapped seen) Option.none (M.map swapped m) in
    let found = get-of_pairs k (map swapped seen) ∙ e in
    let (p, n, q) =
      M.of_map swapped seen (Memᴰ-of_pairs (map swapped seen) (get→Memᴰ _ _ _ found)) in
    (target, found, subst (λ x. Memᴰ x seen) (ap swapped q) n)

-- An argument of the command that is missing or empty takes every name; any other takes the one name
-- that it is in lower case.
abbrev pub IsInScope : Option String → String → Type 0
IsInScope none name = Unit {0}
IsInScope (some s) name = (s ≡ "") ⊎ (name ≡ lower s)

-- A view, an external table, or any table where managed tables go as well.
abbrev pub IsReverted : Bool → Table → Type 0
IsReverted delete_managed t =
    (is_view t ≡ true) ⊎ ((t.object_type ≡ "EXTERNAL") ⊎ (delete_managed ≡ true))

-- What the tasks are to be: every one drops a target that was seen as upgraded from a table of the
-- snapshot that is in scope and is reverted, and every such table has one.
pub record IsRevertOf (seen : Dict String String) (tables : List Table)
    (schema table : Option String) (delete_managed : Bool) (tasks : List (Table × String))
    : Type 0 where
  pub sound :
      (t : Table) (target : String)
      → Memᴰ {A = Table × String} (t, target) tasks
      → Memᴰ t tables
        × IsInScope schema t.database
        × IsInScope table t.name
        × IsReverted delete_managed t
        × Memᴰ {A = String × String} (target, key t) seen
  pub complete :
      (t : Table) (target : String)
      → Memᴰ t tables
      → IsInScope schema t.database
      → IsInScope table t.name
      → IsReverted delete_managed t
      → Memᴰ {A = String × String} (target, key t) seen
      → (other : String) × Memᴰ {A = Table × String} (t, other) tasks

module _ (reverse : Dict String String) (delete_managed : Bool) where
  abbrev HasTarget : Table → Type 0
  HasTarget t = (target : String) × (get (key t) reverse ≡ some target)

  abbrev Sound : List Table → List (Table × String) → Type 0
  Sound tables tasks =
      (t : Table) (target : String)
      → Memᴰ {A = Table × String} (t, target) tasks
      → Memᴰ t tables × (is_reverted delete_managed t ≡ true) × (get (key t) reverse ≡ some target)

  abbrev Complete : List Table → List (Table × String) → Type 0
  Complete tables tasks =
      (t : Table)
      → Memᴰ t tables
      → is_reverted delete_managed t ≡ true
      → (target : String) × Memᴰ {A = Table × String} (t, target) tasks

  tasks_of-ok :
      (tables : List Table)
      → ((t : Table) → Memᴰ t tables → HasTarget t)
      → (tasks : List (Table × String)) × (tasks_of reverse delete_managed tables ≡ ok tasks)
        × Sound tables tasks
        × Complete tables tasks
  unfolding tasks_of
  tasks_of-ok [] f = ([], refl, λ t target m. elim m [ ], λ t m. elim m [ ])
  tasks_of-ok (t ∷ tables) f =
      let (tasks, e, sound, complete) = tasks_of-ok tables (λ u m. f u (Memᴰ.tail m)) in
      let (target, g) = f t (Memᴰ.head refl) in
      elim (Bool-cases (is_reverted delete_managed t)) [
        | inl b ↦ (
          (t, target) ∷ tasks,
          rw (b, g) (rw e refl),
          λ u v m. elim (M.cases_cons m) [
            | inl p ↦
                let same : u ≡ t = ap (λ (q : Table × String). q.0) p in
                (
                  Memᴰ.head same,
                  rw same b,
                  rw same (g ∙ ap some (sym (ap (λ (q : Table × String). q.1) p))),
                )
            | inr n ↦ let (i, j, k) = sound u v n in (Memᴰ.tail i, j, k)
          ],
          λ u m r. elim (M.cases_cons m) [
            | inl p ↦ (target, Memᴰ.head (ap (λ (x : Table). (x, target)) p))
            | inr n ↦ let (v, i) = complete u n r in (v, Memᴰ.tail i)
          ],
        )
        | inr b ↦ (
          tasks,
          rw b e,
          λ u v m. let (i, j, k) = sound u v m in (Memᴰ.tail i, j, k),
          λ u m r. elim (M.cases_cons m) [
            | inl p ↦ absurd (cc (b, r, ap (is_reverted delete_managed) p))
            | inr n ↦ complete u n r
          ],
        )
      ]

is_to_revert-parts :
    (schema table : Option String) (seen : Dict String String) (t : Table)
    → is_to_revert schema table seen t ≡ true
    → (excludes schema t.database ≡ false)
      × (excludes table t.name ≡ false)
      × (mem (key t) (values seen) ≡ true)
unfolding is_to_revert
is_to_revert-parts schema table seen t h = elim (Bool-cases (excludes schema t.database)) [
  | inl b ↦ absurd (cc (rw b at h))
  | inr b ↦ elim (Bool-cases (excludes table t.name)) [
    | inl c ↦ absurd (cc (rw (b, c) at h))
    | inr c ↦ (b, c, rw (b, c) at h)
  ]
]

to_revert :
    (schema table : Option String) (seen : Dict String String) (t : Table)
    → excludes schema t.database ≡ false
    → excludes table t.name ≡ false
    → mem (key t) (values seen) ≡ true
    → is_to_revert schema table seen t ≡ true
unfolding is_to_revert
to_revert schema table seen t a b c = rw (a, b) c

excludes_iff :
    (argument : Option String) (name : String)
    → (excludes (lowered argument) name ≡ false) ↔ IsInScope argument name
unfolding lower is_empty
excludes_iff none name = (λ h. tt, λ h. refl)
excludes_iff (some empty) name = (λ h. inl refl, λ h. refl)
excludes_iff (some (cons c s)) name = (
  λ h. inr ((String_eq.beq_iff name (lower (cons c s))).0 (ground (h, arith))),
  λ h. elim h [
    | inl e ↦ absurd (ground (e, arith, ap is_empty e))
    | inr e ↦ ground (arith, (String_eq.beq_iff name (lower (cons c s))).1 e)
  ],
)

is_reverted_iff :
    (delete_managed : Bool) (t : Table)
    → (is_reverted delete_managed t ≡ true) ↔ IsReverted delete_managed t
unfolding is_reverted
is_reverted_iff delete_managed t = ground (arith, eq_iff t.object_type "EXTERNAL")

pub revert_tasks-IsRevertOf :
    (seen : Dict String String) (tables : List Table) (schema table : Option String)
    (delete_managed : Bool)
    → (tasks : List (Table × String)) × (revert_tasks seen tables schema table delete_managed
        ≡ ok tasks)
      × IsRevertOf seen tables schema table delete_managed tasks
unfolding revert_tasks get_tables_to_revert
revert_tasks-IsRevertOf seen tables schema table delete_managed =
    let scope = is_to_revert (lowered schema) (lowered table) seen in
    let parts = is_to_revert-parts (lowered schema) (lowered table) seen in
    let (tasks, e, sound, complete) =
      tasks_of-ok (reverse_seen seen) delete_managed (get_tables_to_revert seen tables schema table)
        (λ t m.
          let (target, g, n) =
            get-reverse_seen seen (key t) (parts t (Memᴰ-filter scope tables m).1).2 in
          (target, g)) in
    (
      tasks,
      e,
      record {
        sound = λ t target m.
            let (n, r, g) = sound t target m in
            let (i, h) = Memᴰ-filter scope tables n in
            let (a, b, c) = parts t h in
            let (other, g', k) = get-reverse_seen seen (key t) c in
            (
              i,
              (excludes_iff schema t.database).0 a,
              (excludes_iff table t.name).0 b,
              (is_reverted_iff delete_managed t).0 r,
              subst (λ x. Memᴰ {A = String × String} (x, key t) seen) (ground (g, g', arith)) k,
            );
        complete = λ t target m a b r n.
            let taken =
              to_revert (lowered schema) (lowered table) seen t
                ((excludes_iff schema t.database).1 a) ((excludes_iff table t.name).1 b)
                (Memᴰ→mem (values-Memᴰ n)) in
            complete t (filter-Memᴰ scope m taken) ((is_reverted_iff delete_managed t).1 r);
      },
    )
