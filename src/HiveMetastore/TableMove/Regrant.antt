-- ===== src/HiveMetastore/TableMove/Regrant.antt =====
-- hive_metastore/table_move.py: which privileges are given again on the target.
use mathlib.Core.List.{Memᴰ, filter_map}
use databricks_ucx.Prelude.{
  String, String_eq, ◌==◌, Bool, true, false, List, [], ◌∷◌, ◌++◌, some, ◌≡◌, ◌≢◌, ◌↔◌, ◌⊎◌, refl,
  sym, ap, ◌∙◌, subst, arith, inl, inr, Bool-cases, filter, Memᴰ-filter, filter-Memᴰ,
  Memᴰ-filter_map, filter_map-Memᴰ,
}
use databricks_ucx.Exec.{Error, ok, err, is_not_found}
use databricks_ucx.HiveMetastore.TableMove.{assigned, is_kept, Assignment, MoveApi, reapplied}

assigned-eq-some :
    (principal : String) (privileges : List String) {b : Assignment}
    → assigned principal privileges ≡ some b
    → (privileges ≡ b.privileges) × (b.principal ≡ principal)
assigned-eq-some principal [] h = absurd (ground (h, arith))
assigned-eq-some principal (p ∷ privileges) {b} h =
    let same : record { privileges = p ∷ privileges; principal = principal } ≡ b =
      ground (h, arith) in
    (ap (λ (x : Assignment). x.privileges) same, sym (ap (λ (x : Assignment). x.principal) same))

assigned-Memᴰ :
    (principal p : String) (privileges : List String)
    → Memᴰ p privileges
    → (b : Assignment) × (assigned principal privileges ≡ some b)
      × Memᴰ p b.privileges
      × (b.principal ≡ principal)
assigned-Memᴰ principal p [] m = elim m [ ]
assigned-Memᴰ principal p (q ∷ privileges) m =
    (record { privileges = q ∷ privileges; principal = principal }, refl, m, refl)

-- On a view MODIFY is left out.
abbrev pub IsAllowed : Bool → String → Type 0
IsAllowed target_view p = (target_view ≡ false) ⊎ (p ≢ "MODIFY")

reapplied_iff :
    (target_view : Bool) (a : Assignment) (p : String)
    → ((b : Assignment) × (reapplied target_view a ≡ some b)
        × Memᴰ p b.privileges
        × (b.principal ≡ a.principal))
      ↔ (Memᴰ p a.privileges × IsAllowed target_view p)
unfolding reapplied
reapplied_iff false a p = (
  λ (b, e, m, q).
      (subst (Memᴰ p) (sym (assigned-eq-some a.principal a.privileges e).0) m, inl refl),
  λ (m, h). assigned-Memᴰ a.principal p a.privileges m,
)
reapplied_iff true a p = (
  λ (b, e, m, q).
      let n =
        subst (Memᴰ p) (sym (assigned-eq-some a.principal (filter is_kept a.privileges) e).0) m in
      let (i, keep) = Memᴰ-filter is_kept a.privileges n in
      (i, inr (λ same. ground (keep, (String_eq.beq_iff p "MODIFY").1 same, arith))),
  λ (m, h). assigned-Memᴰ a.principal p (filter is_kept a.privileges) (
      filter-Memᴰ is_kept m (elim (Bool-cases (p == "MODIFY")) [
        | inl b ↦ absurd (elim h [
          | inl on_table ↦ ground (on_table, arith)
          | inr other ↦ other ((String_eq.beq_iff p "MODIFY").0 b)
        ])
        | inr b ↦ ground (b, arith)
      ])),
)

reapplied-principal :
    (target_view : Bool) (a : Assignment) {b : Assignment}
    → reapplied target_view a ≡ some b
    → b.principal ≡ a.principal
unfolding reapplied
reapplied-principal false a h = (assigned-eq-some a.principal a.privileges h).1
reapplied-principal true a h = (assigned-eq-some a.principal (filter is_kept a.privileges) h).1

-- A principal has a privilege by some assignment.
abbrev pub HasPrivilege : String → String → List Assignment → Type 0
HasPrivilege principal p assignments =
    (a : Assignment) × Memᴰ a assignments × (a.principal ≡ principal) × Memᴰ p a.privileges

pub HasPrivilege-filter_map :
    (target_view : Bool) (assignments : List Assignment) (principal p : String)
    → HasPrivilege principal p (filter_map (reapplied target_view) assignments)
      ↔ (HasPrivilege principal p assignments × IsAllowed target_view p)
HasPrivilege-filter_map target_view assignments principal p = (
  λ (b, m, same, k).
      let (a, n, e) = Memᴰ-filter_map _ assignments m in
      let principals = reapplied-principal target_view a e in
      let (i, allowed) = (reapplied_iff target_view a p).0 (b, e, k, principals) in
      ((a, n, sym principals ∙ same, i), allowed),
  λ ((a, n, same, k), allowed).
      let (b, e, i, principals) = (reapplied_iff target_view a p).1 (k, allowed) in
      (b, filter_map-Memᴰ _ n e, principals ∙ same, i),
)

-- The list of the changes that are sent to grants.update, whether it fails or not; nothing else
-- changes it.
pub record IsGrantLog {W : Type 0} (api : MoveApi W) (given : W → List (String × List Assignment))
    : Type 0 where
  pub updates :
      (name : String) (changes : List Assignment) (w : W)
      → given (api.update_grants name changes w).1 ≡ given w ++ (name, changes) ∷ []
  pub reads : (name : String) (w : W) → given (api.read_grants name w).1 ≡ given w

module _ {W : Type 0} (api : MoveApi W) (given : W → List (String × List Assignment)) where
  -- The source has no grants that could be read, and nothing was given.
  pub record IsBare (from_name : String) (w w' : W) : Type 0 where
    pub no_grants :
        ((api.read_grants from_name w).0 ≡ ok [])
        ⊎ ((e : Error) × ((api.read_grants from_name w).0 ≡ err e) × (is_not_found e ≡ true))
    pub same : given w' ≡ given w

  -- The grants of the source were read, and one change of the target was sent with exactly the
  -- privileges that each principal had, without MODIFY where the target is a view of a table.
  pub record IsRegranted (from_name to_name : String) (target_view : Bool) (w w' : W) : Type 0 where
    pub assignments : List Assignment
    pub read : (api.read_grants from_name w).0 ≡ ok assignments
    pub changes : List Assignment
    pub sent : given w' ≡ given w ++ (to_name, changes) ∷ []
    pub exactly :
        (principal p : String)
        → HasPrivilege principal p changes
          ↔ (HasPrivilege principal p assignments × IsAllowed target_view p)

  abbrev pub Regrants : String → String → Bool → W → W → Type 0
  Regrants from_name to_name target_view w w' =
      IsBare from_name w w' ⊎ IsRegranted from_name to_name target_view w w'
