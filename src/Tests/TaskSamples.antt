-- ===== src/Tests/TaskSamples.antt =====
-- Samples for workspace_access/groups.py: the tasks of the group migration and its permissions.
use mathlib.Core.List.{Memᴰ, filter_map}
use mathlib.Core.List.Memᴰ as M
use databricks_ucx.Prelude.{
  ℕ, suc, ◌+◌, ◌-◌, ◌≤◌, String, String_eq, true, List, [], ◌∷◌, none, some, ◌≡◌, ◌↔◌, refl, ap,
  arith, inl, inr, leb, if◌then◌else◌, All, Bool-cases, ◌==◌,
}
use databricks_ucx.Exec.{ok, Result, err, resource_does_not_exist}
use databricks_ucx.Dict.{Dict, get, has}
use databricks_ucx.WorkspaceAccess.Groups.{Group, MigratedGroup, migration_state}
use databricks_ucx.WorkspaceAccess.Groups.Manager.{rename_tasks, delete_tasks}
use databricks_ucx.WorkspaceAccess.Groups.Manager.Tasks.{
  IsDeletable, delete_tasks_iff, rename_tasks_iff, IsRenamable,
}
use databricks_ucx.WorkspaceAccess.Groups.Permissions.{Call, apply_to_groups}
use databricks_ucx.WorkspaceAccess.Groups.Permissions.Laws.{
  Migrates, IsEmptied, Reaches, apply_to_groups-All,
}
use databricks_ucx.Tests.GroupSamples.{group_of}

abbrev entry : String → String → MigratedGroup
entry i n = record {
  id_in_workspace = i;
  name_in_workspace = n;
  name_in_account = n;
  temporary_name = "tmp-data";
  members = none;
  entitlements = none;
  external_id = none;
  roles = none;
}

-- Before the renaming, after it and after the reflection.
abbrev local_names : Dict String (Group String)
local_names = ("data", group_of "1" "data" "WorkspaceGroup") ∷ []

abbrev renamed_names : Dict String (Group String)
renamed_names = ("tmp-data", group_of "1" "tmp-data" "WorkspaceGroup") ∷ []

abbrev reflected : Dict String (Group String)
reflected = ("data", group_of "9" "data" "Group") ∷ []

abbrev nothing : Dict String (Group String)
nothing = []

abbrev entries : List MigratedGroup
entries = entry "1" "data" ∷ []

delete_tasks_iff_example : Memᴰ ("1", "tmp-data") (delete_tasks renamed_names reflected entries) ↔ (
    (g : MigratedGroup) × Memᴰ g entries
    × IsDeletable renamed_names reflected g
    × ◌≡◌ {A = String × String} (g.id_in_workspace, g.temporary_name) ("1", "tmp-data"))
delete_tasks_iff_example = delete_tasks_iff renamed_names reflected entries ("1", "tmp-data")

one_renamed : rename_tasks nothing local_names entries ≡ ("1", "tmp-data") ∷ []
unfolding rename_tasks filter_map get
one_renamed = refl

rename_tasks_iff_example : Memᴰ ("1", "tmp-data") (rename_tasks nothing local_names entries) ↔ (
    (g : MigratedGroup) × Memᴰ g entries
    × IsRenamable nothing local_names g
    × ◌≡◌ {A = String × String} (g.id_in_workspace, g.temporary_name) ("1", "tmp-data"))
rename_tasks_iff_example = rename_tasks_iff nothing local_names entries ("1", "tmp-data")

done_by_then :
    (task : String × String)
    → Memᴰ task (rename_tasks nothing local_names entries)
    → has task.1 renamed_names ≡ true
unfolding rename_tasks filter_map get
done_by_then task m = elim (M.cases_cons m) [
  | inl e ↦ ap (λ (t : String × String). has t.1 renamed_names) e
  | inr n ↦ elim n [ ]
]

kept_by_then :
    (g : MigratedGroup)
    → Memᴰ g entries
    → has g.temporary_name local_names ≡ true
    → has g.temporary_name renamed_names ≡ true
unfolding get
kept_by_then g m h = elim (M.cases_cons m) [
  | inl e ↦ ap (λ (x : MigratedGroup). has x.temporary_name renamed_names) e
  | inr n ↦ elim n [ ]
]

-- A workspace that counts the permissions that are left and moves a page of them; a group that it
-- does not have is an error.
abbrev move_page : String → String → ℕ → Call ℕ
move_page name account size w =
    if name == "tmp-data"
    then (if leb w size then (ok w, 0) else (ok size, w - size))
    else (err resource_does_not_exist, w)

abbrev counted : String → ℕ → ℕ
counted name w = w

move_page-moves :
    (name account : String) (w : ℕ) {moved : ℕ}
    → (move_page name account 1000 w).0 ≡ ok moved
    → (moved + counted name (move_page name account 1000 w).1 ≡ counted name w)
      × (moved ≡ 0 → counted name w ≡ 0)
move_page-moves name account w h = elim (Bool-cases (name == "tmp-data")) [
  | inr other ↦ absurd (ground (other, h, arith))
  | inl known ↦ elim (Bool-cases (leb w 1000)) [
    | inl e ↦ (ground (known, e, h, arith), λ none_moved. ground (known, e, h, none_moved, arith))
    | inr e ↦ (ground (known, e, h, arith), λ none_moved. ground (known, e, h, none_moved, arith))
  ]
]

move_page-adds_none :
    (name account other : String) (w : ℕ)
    → counted other (move_page name account 1000 w).1 ≤ counted other w
move_page-adds_none name account other w = ground arith

move_page-Migrates : Migrates move_page counted
move_page-Migrates = record { moves = move_page-moves; adds_none = move_page-adds_none }

enough : suc (counted "tmp-data" 2500) ≤ 2600
enough = omega arith

apply_to_groups-All_example :
    (r : Result ℕ) × (w' : ℕ) × (apply_to_groups move_page 2600 true (migration_state entries) 2500
      ≡ some (r, w'))
    × Reaches move_page counted move_page-Migrates
        (All (IsEmptied move_page counted move_page-Migrates 2600 true w') entries)
        r
apply_to_groups-All_example =
    apply_to_groups-All move_page counted move_page-Migrates 2600 true entries 2500 (enough, tt)
