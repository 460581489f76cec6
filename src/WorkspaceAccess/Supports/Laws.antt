-- ===== src/WorkspaceAccess/Supports/Laws.antt =====
-- workspace_access/generic.py and secrets.py: what a rewritten access control list grants.
use mathlib.Core.List.{Memᴰ, flat_map}
use mathlib.Core.List.Memᴰ as M
use databricks_ucx.Prelude.{
  String, String_eq, ◌==◌, false, ◌||◌, List, [], ◌∷◌, map, none, some, ◌≡◌, ◌↔◌, refl, sym, subst,
  arith, inl, inr, Bool-cases, Option-cases, filter, any, Memᴰ-filter, filter-Memᴰ,
}
use databricks_ucx.Text.{is_empty, set_text}
use databricks_ucx.Dict.{get}
use databricks_ucx.Exec.{Result, ok}
use databricks_ucx.WorkspaceAccess.Groups.{MigratedGroup, MigrationState, get_target_principal}
use databricks_ucx.WorkspaceAccess.Supports.{Permissions, is_in_scope}
use databricks_ucx.WorkspaceAccess.Supports.Generic.{
  Permission, AccessControlResponse, ObjectPermissions, AccessControlRequest, or_no_list,
  request_for, is_direct, requests_of, prepare_new_acl, has_group_in_scope, is_item_relevant,
  get_apply_task,
}
use databricks_ucx.WorkspaceAccess.Supports.Secrets.{AclItem, new_acls}

module _ {ℓ κ} {A : Type ℓ} {B : Type κ} (f : A → List B) where
  Memᴰ-flat_map :
      {b : B} (xs : List A) → Memᴰ b (flat_map f xs) → (a : A) × Memᴰ a xs × Memᴰ b (f a)
  unfolding flat_map
  Memᴰ-flat_map [] m = elim m [ ]
  Memᴰ-flat_map (x ∷ xs) m = elim (M.append_cases (f x) m) [
    | inl n ↦ (x, Memᴰ.head refl, n)
    | inr n ↦ let (a, i, j) = Memᴰ-flat_map xs n in (a, Memᴰ.tail i, j)
  ]

  flat_map-Memᴰ : {a : A} {b : B} {xs : List A} → Memᴰ a xs → Memᴰ b (f a) → Memᴰ b (flat_map f xs)
  unfolding flat_map
  flat_map-Memᴰ {b = b} (Memᴰ.head {xs = xs} e) m =
      M.append_left (flat_map f xs) (subst (λ x. Memᴰ b (f x)) e m)
  flat_map-Memᴰ (Memᴰ.tail {x = x} i) m = M.append_right (f x) (flat_map-Memᴰ i m)

-- An entry for a group that is migrated.
pub record IsMigratedEntry (s : MigrationState) (item : AccessControlResponse) (m : MigratedGroup)
    : Type 0 where
  pub group : String
  pub named : item.group_name ≡ some group
  pub not_empty : is_empty group ≡ false
  pub found : get group s.name_to_group ≡ some m

module _ (s : MigrationState) where
  Memᴰ-requests_of :
      (item : AccessControlResponse) {r : AccessControlRequest}
      → Memᴰ r (requests_of s item)
      → (m : MigratedGroup) × (p : Permission) × IsMigratedEntry s item m
        × Memᴰ p item.all_permissions
        × (p.inherited ≡ false)
        × (r ≡ request_for m.name_in_account item p)
  unfolding requests_of is_in_scope get_target_principal
  Memᴰ-requests_of item {r} n = elim (Option-cases item.group_name) [
    | inl e ↦ let absent : Memᴰ r [] = rw (requests_of, e) at n in elim absent [ ]
    | inr (group, e) ↦ elim (Bool-cases (is_empty group)) [
      | inl b ↦ let absent : Memᴰ r [] = rw (requests_of, e, b) at n in elim absent [ ]
      | inr b ↦ elim (Option-cases (get group s.name_to_group)) [
        | inl f ↦ let absent : Memᴰ r [] = rw (requests_of, e, b, f) at n in elim absent [ ]
        | inr (m, f) ↦
            let (p, i, q) =
              M.of_map (request_for m.name_in_account item) (filter is_direct item.all_permissions)
                (rw (requests_of, e, b, get_target_principal, f) at n) in
            let (j, direct) = Memᴰ-filter is_direct item.all_permissions i in
            (
              m,
              p,
              record { group = group; named = e; not_empty = b; found = f },
              j,
              ground (direct, arith),
              sym q,
            )
      ]
    ]
  ]

  requests_of-Memᴰ :
      (item : AccessControlResponse) (m : MigratedGroup) (p : Permission)
      → IsMigratedEntry s item m
      → Memᴰ p item.all_permissions
      → p.inherited ≡ false
      → Memᴰ (request_for m.name_in_account item p) (requests_of s item)
  unfolding requests_of is_in_scope get_target_principal
  requests_of-Memᴰ item m p entry i direct =
      rw (requests_of, entry.named, entry.not_empty, get_target_principal, entry.found)
        (M.map (request_for m.name_in_account item)
          (filter-Memᴰ is_direct i (ground (direct, arith))))

abbrev pub renamed : MigrationState → AclItem → AclItem
renamed s acl = elim (get_target_principal s acl.principal) [
  | none ↦ acl
  | some target ↦ record { principal = target; permission = acl.permission }
]

module _ (s : MigrationState) (acl : AclItem) where
  new_acls-cons : (acls : List AclItem) → new_acls s (acl ∷ acls) ≡ renamed s acl ∷ new_acls s acls
  unfolding new_acls is_in_scope get_target_principal
  new_acls-cons acls = elim (Option-cases (get acl.principal s.name_to_group)) [
    | inl e ↦ ground (e, arith)
    | inr (m, e) ↦ ground (e, arith)
  ]

pub new_acls-map :
    (s : MigrationState) (acls : List AclItem) → new_acls s acls ≡ map (renamed s) acls
unfolding new_acls
new_acls-map s [] = refl
new_acls-map s (acl ∷ acls) = cc (new_acls-cons s acl acls, new_acls-map s acls)

-- A request stands in the list that is applied to an object exactly when it gives the account group
-- of a migrated group a permission that the group has on the object directly.
pub prepare_new_acl_iff :
    (s : MigrationState) (permissions : ObjectPermissions) (r : AccessControlRequest)
    → Memᴰ r (prepare_new_acl s permissions) ↔ (
        (item : AccessControlResponse) × (m : MigratedGroup) × (p : Permission) × Memᴰ item
          (or_no_list permissions.access_control_list)
        × IsMigratedEntry s item m
        × Memᴰ p item.all_permissions
        × (p.inherited ≡ false)
        × (r ≡ request_for m.name_in_account item p))
unfolding prepare_new_acl
prepare_new_acl_iff s permissions r = (
  λ n.
      let (item, i, k) =
        Memᴰ-flat_map (requests_of s) (or_no_list permissions.access_control_list) n in
      let (m, p, entry, j, direct, e) = Memᴰ-requests_of s item k in
      (item, m, p, i, entry, j, direct, e),
  λ (item, m, p, i, entry, j, direct, e).
      M.cast e (flat_map-Memᴰ (requests_of s) i (requests_of-Memᴰ s item m p entry j direct)),
)

requests_of-out_of_scope :
    (s : MigrationState) (item : AccessControlResponse)
    → is_in_scope s (set_text item.group_name) ≡ false
    → requests_of s item ≡ []
unfolding requests_of is_in_scope
requests_of-out_of_scope s item h = elim (Option-cases item.group_name) [
  | inl e ↦ ground (e, arith)
  | inr (group, e) ↦ elim (Bool-cases (is_empty group)) [
    | inl b ↦ ground (e, b, arith)
    | inr b ↦ ground (e, b, h, arith)
  ]
]

flat_map-out_of_scope :
    (s : MigrationState) (acl : List AccessControlResponse)
    → has_group_in_scope s acl ≡ false
    → flat_map (requests_of s) acl ≡ []
unfolding flat_map has_group_in_scope any
flat_map-out_of_scope s [] h = refl
flat_map-out_of_scope s (item ∷ acl) h =
    rw (requests_of-out_of_scope s item (ground (h, arith)))
      (flat_map-out_of_scope s acl (ground (h, arith)))

-- An object that gets no task loses nothing: the list that would be applied to it is empty.
pub get_apply_task-none :
    (decode : String → Result ObjectPermissions) (s : MigrationState) (item : Permissions)
    (permissions : ObjectPermissions)
    → decode item.raw ≡ ok permissions
    → get_apply_task decode s item ≡ ok none
    → prepare_new_acl s permissions ≡ []
unfolding get_apply_task is_item_relevant prepare_new_acl flat_map
get_apply_task-none decode s item permissions e h =
    elim (Bool-cases ((item.object_id == "tokens") || (item.object_id == "passwords"))) [
      | inl b ↦ absurd (ground (rw (b, e) at h, arith))
      | inr b ↦ elim (Option-cases permissions.access_control_list) [
        | inl f ↦ rw f refl
        | inr (acl, f) ↦ elim (Bool-cases (has_group_in_scope s acl)) [
          | inl c ↦ absurd (ground (rw (b, e, f, c) at h, arith))
          | inr c ↦ rw f (flat_map-out_of_scope s acl c)
        ]
      ]
    ]
