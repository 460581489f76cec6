-- ===== src/WorkspaceAccess/Groups/Permissions/Laws.antt =====
-- The migration of permissions ends and leaves none behind.
use databricks_ucx.Prelude.{
  ℕ, zero, suc, ◌+◌, ◌≤◌, String, String_eq, Bool, false, List, [], ◌∷◌, map, some, ◌≡◌, refl, ◌∙◌,
  ap, if◌then◌else◌, nat_eq, arith, length, Bool-cases, inl, inr, All, Option,
}
use databricks_ucx.Exec.{Result, ok, err, Error, Result-cases}
use databricks_ucx.WorkspaceAccess.Groups.{MigratedGroup, migration_state}
use databricks_ucx.WorkspaceAccess.Groups.Permissions.{
  Call, Loop, batch_size, more_of, migrate_paginated, apply_loop, apply_to_groups, next_group,
}
use databricks_ucx.Dict.{Dict, put, update, of_pairs}

-- What the workspace documents of its call: where it returns, it has moved as many of the permissions
-- that are left on the group as it says, none only when none is left; and it adds none to any group.
-- It may raise, as for a group that is not local to the workspace. `left` counts the permissions.
pub record Migrates {W : Type 0} (migrate_permissions : String → String → ℕ → Call W)
    (left : String → W → ℕ) : Type 0 where
  pub moves :
      (name account : String) (w : W) {moved : ℕ}
      → (migrate_permissions name account batch_size w).0 ≡ ok moved
      → (moved + left name (migrate_permissions name account batch_size w).1 ≡ left name w)
        × (moved ≡ 0 → left name w ≡ 0)
  pub adds_none :
      (name account other : String) (w : W)
      → left other (migrate_permissions name account batch_size w).1 ≤ left other w

length-put :
    (k : String) (v : MigratedGroup) (d : Dict String MigratedGroup) → 1 ≤ length (put k v d)
unfolding put
length-put k v [] = omega arith
length-put k v ((j, w) ∷ d) = ground arith

put-grows :
    (k : String) (v : MigratedGroup) (d : Dict String MigratedGroup) → length d ≤ length (put k v d)
unfolding put
put-grows k v [] = omega arith
put-grows k v ((j, w) ∷ d) = ground (arith, put-grows k v d)

update-grows :
    (d : Dict String MigratedGroup) (ps : List (String × MigratedGroup))
    → length d ≤ length (update d ps)
unfolding update
update-grows d [] = omega arith
update-grows d ((k, v) ∷ ps) = omega (arith, put-grows k v d, update-grows (put k v d) ps)

named-some :
    (g : MigratedGroup) (groups : List MigratedGroup)
    → nat_eq (length (migration_state (g ∷ groups)).name_to_group) 0 ≡ false
unfolding migration_state of_pairs update
named-some g groups = ground (
  arith,
  length-put g.name_in_workspace g [],
  update-grows (put g.name_in_workspace g [])
      (map (λ (h : MigratedGroup). (h.name_in_workspace, h)) groups),
)

module _ {W : Type 0} (migrate_permissions : String → String → ℕ → Call W) (left : String → W → ℕ)
    (documented : Migrates migrate_permissions left) where
  open documented use {moves, adds_none}

  more_of-ok :
      (again : ℕ → Loop W) (migrated : ℕ) (p : Result ℕ × W) {moved : ℕ}
      → p.0 ≡ ok moved
      → more_of migrate_permissions again migrated p
        ≡ (if nat_eq moved 0 then some (ok migrated, p.1) else again (migrated + moved) p.1)
  more_of-ok again migrated (ok m, w) h = ground arith
  more_of-ok again migrated (err e, w) h = absurd (ground arith)

  more_of-err :
      (again : ℕ → Loop W) (migrated : ℕ) (p : Result ℕ × W) {e : Error}
      → p.0 ≡ err e
      → more_of migrate_permissions again migrated p ≡ some (err e, p.1)
  more_of-err again migrated (ok m, w) h = absurd (ground arith)
  more_of-err again migrated (err e, w) h = ap (λ r. some (r, w)) h

  -- A call to the workspace raised the error.
  pub record IsRaised (e : Error) : Type 0 where
    pub name : String
    pub account : String
    pub before : W
    pub raised : (migrate_permissions name account batch_size before).0 ≡ err e

  -- A loop that returns has reached its goal, and one that raises passes on the error of a call.
  abbrev pub Reaches : Type 0 → Result ℕ → Type 0
  Reaches goal (ok n) = goal
  Reaches goal (err e) = IsRaised e

  abbrev pub Lessens : W → W → Type 0
  Lessens w w' = (other : String) → left other w' ≤ left other w

  -- Where the workspace does what it documents and there is more fuel than permissions left on the
  -- group, the loop over the pages ends: it returns with none left on the group, or raises the error
  -- of a call; and it adds none to any group.
  pub migrate_paginated_ends :
      (fuel : ℕ) (name account : String) (migrated : ℕ) (w : W)
      → suc (left name w) ≤ fuel
      → (r : Result ℕ) × (w' : W) × (migrate_paginated migrate_permissions fuel name account
            migrated w
          ≡ some (r, w'))
        × Reaches (left name w' ≡ 0) r
        × Lessens w w'
  unfolding migrate_paginated
  migrate_paginated_ends zero name account migrated w h = absurd (omega arith)
  migrate_paginated_ends (suc fuel) name account migrated w h =
      let p = migrate_permissions name account batch_size w in
      let again = migrate_paginated migrate_permissions fuel name account in
      elim (Result-cases p.0) [
        | inr (e, failed) ↦ (
          err e,
          p.1,
          more_of-err again migrated p failed,
          record { name = name; account = account; before = w; raised = failed },
          λ other. adds_none name account other w,
        )
        | inl (moved, returned) ↦
            let (total, none_left) = moves name account w returned in
            let step = more_of-ok again migrated p returned in
            elim (Bool-cases (nat_eq moved 0)) [
              | inl e ↦
                  let nothing : moved ≡ 0 = ground arith in
                  (
                    ok migrated,
                    p.1,
                    step ∙ rw e refl,
                    ground (arith, none_left nothing, total),
                    λ other. adds_none name account other w,
                  )
              | inr e ↦
                  let (r, w', reached, done, less) =
                    migrate_paginated_ends fuel name account (migrated + moved) p.1
                      (ground (arith, total)) in
                  (
                    r,
                    w',
                    step ∙ rw e reached,
                    done,
                    λ other. omega (arith, less other, adds_none name account other w),
                  )
            ]
      ]

  module _ (fuel : ℕ) where
    -- Enough fuel for a group.
    abbrev pub Fueled : Bool → W → MigratedGroup → Type 0
    Fueled renamed w g =
        suc (left (if renamed then g.temporary_name else g.name_in_workspace) w) ≤ fuel

    abbrev pub IsEmptied : Bool → W → MigratedGroup → Type 0
    IsEmptied renamed w g = left (if renamed then g.temporary_name else g.name_in_workspace) w ≡ 0

    weaken-Fueled :
        (renamed : Bool) (w w' : W) (groups : List MigratedGroup)
        → Lessens w w'
        → All (Fueled renamed w) groups
        → All (Fueled renamed w') groups
    weaken-Fueled renamed w w' [] less h = tt
    weaken-Fueled renamed w w' (g ∷ groups) less h = (
      omega (arith, less (if renamed then g.temporary_name else g.name_in_workspace), h.0),
      weaken-Fueled renamed w w' groups less h.1,
    )

    abbrev Ends : Bool → List MigratedGroup → W → Option (Result ℕ × W) → Type 0
    Ends renamed groups w o =
        (r : Result ℕ) × (w' : W) × (o ≡ some (r, w'))
        × Reaches (All (IsEmptied renamed w') groups) r
        × Lessens w w'

    -- The rest of the groups, after the loop over the pages of the first.
    next_group-Ends :
        (renamed : Bool) (g : MigratedGroup) (groups : List MigratedGroup) (items : ℕ)
        (r : Result ℕ) (w w₁ : W)
        → Reaches (IsEmptied renamed w₁ g) r
        → Lessens w w₁
        → ((n : ℕ)
            → Ends renamed groups w₁ (apply_loop migrate_permissions fuel renamed groups n w₁))
        → Ends renamed (g ∷ groups) w (
            next_group migrate_permissions
              (apply_loop migrate_permissions fuel renamed groups)
              items
              (some (r, w₁)))
    next_group-Ends renamed g groups items (err e) w w₁ raised less rest =
        (err e, w₁, refl, raised, less)
    next_group-Ends renamed g groups items (ok n) w w₁ emptied less rest =
        let (r, w', e, reached, less') = rest (items + n) in
        let name = if renamed then g.temporary_name else g.name_in_workspace in
        let still : left name w' ≡ 0 = omega (arith, less' name, emptied) in
        (r, w', e, with_first r still reached, λ other. omega (arith, less other, less' other))
      where
        with_first :
            {w' : W} (r : Result ℕ)
            → IsEmptied renamed w' g
            → Reaches (All (IsEmptied renamed w') groups) r
            → Reaches (All (IsEmptied renamed w') (g ∷ groups)) r
        with_first (ok n) first others = (first, others)
        with_first (err e) first raised = raised

    apply_loop-Ends :
        (renamed : Bool) (groups : List MigratedGroup) (items : ℕ) (w : W)
        → All (Fueled renamed w) groups
        → Ends renamed groups w (apply_loop migrate_permissions fuel renamed groups items w)
    unfolding apply_loop
    apply_loop-Ends renamed [] items w h = (ok items, w, refl, tt, λ other. omega arith)
    apply_loop-Ends renamed (g ∷ groups) items w h =
        let name = if renamed then g.temporary_name else g.name_in_workspace in
        let (r, w₁, reached, emptied, less) =
          migrate_paginated_ends fuel name g.name_in_account 0 w h.0 in
        rw reached (
          next_group-Ends renamed g groups items r w w₁ emptied less
            (λ n. apply_loop-Ends renamed groups n w₁ (weaken-Fueled renamed w w₁ groups less h.1)))

    -- Where each call that returns moves what it says and none adds permissions, and there is more
    -- fuel than permissions on any of the groups, the migration ends: where it returns, no permission
    -- is left on any of the groups, and where it raises, the error is one that a call to the
    -- workspace raised.
    pub apply_to_groups-All :
        (renamed : Bool) (groups : List MigratedGroup) (w : W)
        → All (Fueled renamed w) groups
        → (r : Result ℕ) × (w' : W) × (apply_to_groups migrate_permissions fuel renamed
              (migration_state groups)
              w
            ≡ some (r, w'))
          × Reaches (All (IsEmptied renamed w') groups) r
    unfolding apply_to_groups migration_state of_pairs update
    apply_to_groups-All renamed [] w h = (ok 0, w, refl, tt)
    apply_to_groups-All renamed (g ∷ groups) w h =
        let (r, w', rest, reached, _) = apply_loop-Ends renamed (g ∷ groups) 0 w h in
        (r, w', rw (named-some g groups) rest, reached)
