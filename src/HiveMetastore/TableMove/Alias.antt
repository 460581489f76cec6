-- ===== src/HiveMetastore/TableMove/Alias.antt =====
-- hive_metastore/table_move.py: what a task of alias_tables does with the grants.
use mathlib.Core.List.{filter_map}
use databricks_ucx.Prelude.{
  String, String_eq, Bool, true, false, List, [], ◌∷◌, ◌++◌, Option, none, some, ◌≡◌, ◌⊎◌, refl,
  sym, ap, ◌∙◌, arith, inl, inr, Bool-cases,
}
use databricks_ucx.Exec.{
  Error, Result, ok, err, is_not_found, pure, handled, continue, continue-eq-ok,
}
use databricks_ucx.HiveMetastore.TableMigrate.Trace.{state-eq}
use databricks_ucx.HiveMetastore.TableMove.{
  Assignment, MoveApi, MoveTask, table_task, view_task, is_table_task, reapplied, table_name,
}
use databricks_ucx.HiveMetastore.TableMove.Recreate.{
  alias_sql, create_view_sql, update_assigned, reapply_grants, alias_table, move_view, run_alias,
}
use databricks_ucx.HiveMetastore.TableMove.Regrant.{HasPrivilege-filter_map, IsGrantLog, Regrants}

abbrev found {ℓ} :
    {W : Type ℓ} → Result (List Assignment) × W → Result (Option (List Assignment)) × W
found q = handled is_not_found (pure none) (continue (λ a. pure (some a)) q)

found-ok {ℓ} :
    {W : Type ℓ} (q : Result (List Assignment) × W) {o : Option (List Assignment)}
    → (found q).0 ≡ ok o
    → ((a : List Assignment) × (q.0 ≡ ok a) × (o ≡ some a))
      ⊎ ((e : Error) × (q.0 ≡ err e) × (is_not_found e ≡ true) × (o ≡ none))
found-ok (ok a, w) h = inl (a, refl, ground (h, arith))
found-ok (err e, w) h = elim (Bool-cases (is_not_found e)) [
  | inl c ↦ inr (e, refl, c, ground (c, h, arith))
  | inr c ↦ absurd (ground (c, h, arith))
]

found-state {ℓ} : {W : Type ℓ} (q : Result (List Assignment) × W) → (found q).1 ≡ q.1
found-state (ok a, w) = refl
found-state (err e, w) = ground arith

abbrev pub name_of : MoveTask → String
name_of (table_task name is_managed) = name
name_of (view_task name text) = name

module _ (from_catalog from_schema to_catalog to_schema : String) where
  -- The statement that creates the alias.
  abbrev pub create_sql : MoveTask → String
  create_sql (table_task name is_managed) =
      alias_sql (table_name from_catalog from_schema name) (table_name to_catalog to_schema name)
  create_sql (view_task name text) = create_view_sql (table_name to_catalog to_schema name) text

module _ {W : Type 0} (api : MoveApi W) (replace : String → String → String → String)
    (given : W → List (String × List Assignment)) (logged : IsGrantLog api given) where
  with_assignments :
      (from_name to_name : String) (target_view : Bool) (assignments : List Assignment) (w v : W)
      {w' : W}
      → (api.read_grants from_name w).0 ≡ ok assignments
      → given v ≡ given w
      → update_assigned api replace to_name target_view (some assignments) v ≡ (ok tt, w')
      → Regrants api given from_name to_name target_view w w'
  with_assignments from_name to_name target_view [] w v read same h =
      inl (record { no_grants = inl read; same = ap given (sym (state-eq h)) ∙ same })
  with_assignments from_name to_name target_view (a ∷ assignments) w v read same h =
      let changes = filter_map (reapplied target_view) (a ∷ assignments) in
      inr (record {
        assignments = a ∷ assignments;
        read = read;
        changes = changes;
        sent =
            ap given (sym (state-eq h))
            ∙ logged.updates to_name changes v
            ∙ ap (λ l. l ++ (to_name, changes) ∷ []) same;
        exactly = HasPrivilege-filter_map target_view (a ∷ assignments);
      })

  reapply_grants-Regrants :
      (from_name to_name : String) (target_view : Bool) (w : W) {w' : W}
      → reapply_grants api replace from_name to_name target_view w ≡ (ok tt, w')
      → Regrants api given from_name to_name target_view w w'
  unfolding reapply_grants
  reapply_grants-Regrants from_name to_name target_view w h =
      let q = api.read_grants from_name w in
      let (o, e, h₁) =
        continue-eq-ok (update_assigned api replace to_name target_view) (found q) h in
      let same = ap given (found-state q) ∙ logged.reads from_name w in
      elim (found-ok q e) [
        | inl (assignments, read, f) ↦
            with_assignments from_name to_name target_view assignments w _ read same (rw f at h₁)
        | inr (error, raised, c, f) ↦ inl (record {
          no_grants = inr (error, raised, c);
          same = ap given (sym (state-eq (rw f at h₁))) ∙ same;
        })
      ]

  -- A task that returned True did not go through its handler.
  not_handled :
      (p : Result Bool × W) {w' : W}
      → handled is_not_found (pure false) p ≡ (ok true, w')
      → p ≡ (ok true, w')
  not_handled (ok b, w) h = h
  not_handled (err e, w) h = elim (Bool-cases (is_not_found e)) [
    | inl c ↦ absurd (ground (c, h, arith))
    | inr c ↦ absurd (ground (c, h, arith))
  ]

  returned :
      (p : Result (Unit {0}) × W) {a : Unit {0}} {w' : W} → p.0 ≡ ok a → p.1 ≡ w' → p ≡ (ok tt, w')
  returned (r, v) e f = ap (λ x. (x, v)) e ∙ ap (λ x. (ok tt, x)) f

  alias_table-Regrants :
      (from_name to_name : String) (w : W) {w' : W}
      → alias_table api replace from_name to_name w ≡ (ok true, w')
      → Regrants api given from_name to_name true (api.execute (alias_sql from_name to_name) w).1 w'
  unfolding alias_table
  alias_table-Regrants from_name to_name w h =
      let (_, created, h₁) =
        continue-eq-ok _ (api.execute (alias_sql from_name to_name) w) (not_handled _ h) in
      let w₁ = (api.execute (alias_sql from_name to_name) w).1 in
      let (_, regranted, h₂) =
        continue-eq-ok _ (reapply_grants api replace from_name to_name true w₁) h₁ in
      reapply_grants-Regrants from_name to_name true w₁ (returned _ regranted (state-eq h₂))

  move_view-Regrants :
      (from_name to_name text : String) (w : W) {w' : W}
      → move_view api replace from_name to_name text false w ≡ (ok true, w')
      → Regrants api given from_name to_name false
          (api.execute (create_view_sql to_name text) w).1
          w'
  unfolding move_view
  move_view-Regrants from_name to_name text w h =
      let (_, created, h₁) =
        continue-eq-ok _ (api.execute (create_view_sql to_name text) w) (not_handled _ h) in
      let w₁ = (api.execute (create_view_sql to_name text) w).1 in
      let (_, regranted, h₂) =
        continue-eq-ok _ (reapply_grants api replace from_name to_name false w₁) h₁ in
      reapply_grants-Regrants from_name to_name false w₁ (returned _ regranted (state-eq h₂))

  module _ (from_catalog from_schema to_catalog to_schema : String) where
    -- A task of alias_tables that returns True has read the grants of its source, in the world that
    -- the creation of the alias left, and has sent one change of the alias, or none where there were
    -- no grants to read: each principal gets exactly the privileges that it had, but without MODIFY
    -- where the source is a table. The alias of a view keeps MODIFY.
    pub run_alias-Regrants :
        (task : MoveTask) (w : W) {w' : W}
        → run_alias api replace from_catalog from_schema to_catalog to_schema task w ≡ (ok true, w')
        → Regrants api given
            (table_name from_catalog from_schema (name_of task))
            (table_name to_catalog to_schema (name_of task))
            (is_table_task task)
            (api.execute (create_sql from_catalog from_schema to_catalog to_schema task) w).1
            w'
    unfolding run_alias
    run_alias-Regrants (table_task name is_managed) w h = alias_table-Regrants _ _ w h
    run_alias-Regrants (view_task name text) w h = move_view-Regrants _ _ text w h
