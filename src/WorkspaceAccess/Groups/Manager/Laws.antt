-- ===== src/WorkspaceAccess/Groups/Manager/Laws.antt =====
-- What the listings hold and what the crawl of the groups finds.
use mathlib.Core.List.{Memᴰ}
use mathlib.Core.List.Memᴰ as M
use databricks_ucx.Prelude.{
  String, String_eq, false, not, List, [], ◌∷◌, map, some, ◌≡◌, refl, sym, ap, ◌∙◌, subst, arith,
  inl, inr, filter, mem, Memᴰ-filter, Memᴰ-filter_map, Memᴰ→mem,
}
use databricks_ucx.Text.{is_empty}
use databricks_ucx.Exec.{ok, continue-eq-ok}
use databricks_ucx.Dict.{Dict, get}
use databricks_ucx.Dict.Laws.{Memᴰ-of_pairs, of_pairs-NoDup, NoDup, get→Memᴰ}
use databricks_ucx.WorkspaceAccess.Groups.{Group, MigratedGroup}
use databricks_ucx.WorkspaceAccess.Groups.Strategy.{
  Regex, GroupConfig, get_strategy, renamed_prefix, generate_migrated_groups,
}
use databricks_ucx.WorkspaceAccess.Groups.Strategy.Laws.{
  IsNamed, IsGenerated, IsIncluded, generate_migrated_groups_sound,
}
use databricks_ucx.WorkspaceAccess.Groups.Manager.{
  GroupsApi, is_group_out_of_scope, by_display_name, list_workspace_groups,
  workspace_groups_in_workspace, account_groups_in_workspace, account_groups_in_account, crawler,
  fetched, list_account_groups,
}

module _ {C : Type 0} where
  Memᴰ-by_display_name :
      (groups : List (Group C)) (k : String) (g : Group C)
      → Memᴰ {A = String × Group C} (k, g) (by_display_name groups)
      → Memᴰ g groups × (g.display_name ≡ k) × (is_empty g.display_name ≡ false)
  unfolding by_display_name
  Memᴰ-by_display_name groups k g m =
      let (a, n, e) =
        M.of_map _ (filter (λ (g : Group C). not (is_empty g.display_name)) groups)
          (Memᴰ-of_pairs _ m) in
      let same : a ≡ g = ap (λ (q : String × Group C). q.1) e in
      let (n', h) = Memᴰ-filter _ groups (
        subst (λ b. Memᴰ b (filter (λ (g : Group C). not (is_empty g.display_name)) groups)) same
          n) in
      (
        n',
        ap (λ (b : Group C). b.display_name) (sym same) ∙ ap (λ (q : String × Group C). q.0) e,
        ground arith,
      )

  pub by_display_name-IsNamed : (groups : List (Group C)) → IsNamed (by_display_name groups)
  by_display_name-IsNamed groups k g m =
      let (_, named, _) = Memᴰ-by_display_name groups k g m in named

  pub by_display_name-NoDup : (groups : List (Group C)) → NoDup (by_display_name groups)
  unfolding by_display_name
  by_display_name-NoDup groups = of_pairs-NoDup (
      map (λ (g : Group C). (g.display_name, g))
        (filter (λ (g : Group C). not (is_empty g.display_name)) groups))

  module _ {W : Type 0} (api : GroupsApi W C) where
    workspace_groups-by_display_name :
        (w w' : W) (groups : Dict String (Group C))
        → workspace_groups_in_workspace api w ≡ (ok groups, w')
        → (listed : List (Group C)) × (groups ≡ by_display_name listed)
    unfolding workspace_groups_in_workspace
    workspace_groups-by_display_name w w' groups h =
        let (listed, _, k) = continue-eq-ok _ (list_workspace_groups api _ _ w) h in
        (listed, ground arith)

    account_groups-by_display_name :
        (w w' : W) (groups : Dict String (Group C))
        → account_groups_in_account api w ≡ (ok groups, w')
        → (listed : List (Group C)) × (groups ≡ by_display_name listed)
    unfolding account_groups_in_account
    account_groups-by_display_name w w' groups h =
        let (listed, _, k) =
          continue-eq-ok _ (list_account_groups api ("id" ∷ "displayName" ∷ "externalId" ∷ []) w)
            h in
        (listed, ground arith)

    -- Where the account groups in the workspace could be listed, a group that is found under a name
    -- has that name, which is not empty, and it is no system group and has no meta with another
    -- type than `Group`.
    pub account_groups_in_workspace_sound :
        (w w' : W) (groups : Dict String (Group C)) (name : String) (g : Group C)
        → account_groups_in_workspace api w ≡ (ok groups, w')
        → get name groups ≡ some g
        → (g.display_name ≡ name)
          × (is_empty name ≡ false)
          × (is_group_out_of_scope g "Group" ≡ false)
    unfolding account_groups_in_workspace list_workspace_groups mem
    account_groups_in_workspace_sound w w' groups name g h found =
        let attributes : List String = "id" ∷ "displayName" ∷ "externalId" ∷ "meta" ∷ [] in
        let (listed, h₁, k) = continue-eq-ok _ (list_workspace_groups api "Group" attributes w) h in
        let whole = ap (λ r. (r, (list_workspace_groups api "Group" attributes w).1)) h₁ in
        let (read, _, k₂) = continue-eq-ok _ (api.list_groups attributes w) whole in
        let same : by_display_name listed ≡ groups = ground arith in
        let same' : filter (λ g. not (is_group_out_of_scope g "Group")) read ≡ listed =
          ground arith in
        let m = get→Memᴰ name g groups found in
        let (n, named, filled) =
          Memᴰ-by_display_name listed name g
            (subst (λ d. Memᴰ {A = String × Group C} (name, g) d) (sym same) m) in
        let (_, kept) = Memᴰ-filter _ read (subst (Memᴰ g) (sym same') n) in
        (named, subst (λ x. is_empty x ≡ false) named filled, ground arith)

    -- Where a crawl of the groups returns, each entry comes, by the configured strategy, from a
    -- workspace group and an account group of the two listings, with the configured prefix and for
    -- an included name.
    pub crawler_sound :
        (dumps : List C → String) (re : Regex) (c : GroupConfig) (w w' : W)
        (found : List MigratedGroup) (g : MigratedGroup)
        → crawler api dumps re c w ≡ (ok found, w')
        → Memᴰ g found
        → (workspace_groups : Dict String (Group C)) × (account_groups : Dict String (Group C))
          × ((workspace_groups_in_workspace api w).0 ≡ ok workspace_groups)
          × ((account_groups_in_account api (workspace_groups_in_workspace api w).1).0
              ≡ ok account_groups)
          × IsGenerated dumps
              (renamed_prefix c)
              re
              c.include_group_names
              workspace_groups
              account_groups
              (get_strategy c)
              g
    unfolding crawler
    crawler_sound dumps re c w w' found g h m =
        let (groups, h₁, k₁) = continue-eq-ok _ (workspace_groups_in_workspace api w) h in
        let (accounts, h₂, k₂) =
          continue-eq-ok _ (account_groups_in_account api (workspace_groups_in_workspace api w).1)
            k₁ in
        let (listed, same) =
          workspace_groups-by_display_name w _ groups
            (ap (λ r. (r, (workspace_groups_in_workspace api w).1)) h₁) in
        let (listed', same') =
          account_groups-by_display_name (workspace_groups_in_workspace api w).1 _ accounts (
            ap (λ r. (r, (account_groups_in_account api (workspace_groups_in_workspace api w).1).1))
              h₂) in
        let shape : generate_migrated_groups dumps (renamed_prefix c) re c.include_group_names
              groups accounts (get_strategy c)
            ≡ found =
          ground arith in
        (
          groups,
          accounts,
          h₁,
          h₂,
          generate_migrated_groups_sound dumps (renamed_prefix c) re c.include_group_names groups
              accounts (subst IsNamed (sym same) (by_display_name-IsNamed listed))
              (subst IsNamed (sym same') (by_display_name-IsNamed listed')) (get_strategy c) g
              (subst (Memᴰ g) (sym shape) m),
        )

-- A row that is read back is a row of the inventory, and where names are configured its name in the
-- workspace is one of them.
pub fetched_sound :
    (include : List String) (state : List MigratedGroup) (g : MigratedGroup)
    → Memᴰ g (fetched include state)
    → Memᴰ g state × IsIncluded include g.name_in_workspace
unfolding fetched
fetched_sound [] state g m = (m, inl refl)
fetched_sound (n ∷ names) state g m =
    let (name, there, found) = Memᴰ-filter_map _ (n ∷ names) m in
    let (a, m', e) = M.of_map _ state (Memᴰ-of_pairs _ (get→Memᴰ name g _ found)) in
    let same : a ≡ g = ap (λ (q : String × MigratedGroup). q.1) e in
    let named : g.name_in_workspace ≡ name =
      ap (λ (b : MigratedGroup). b.name_in_workspace) (sym same)
      ∙ ap (λ (q : String × MigratedGroup). q.0) e in
    (
      subst (λ b. Memᴰ b state) same m',
      inr (Memᴰ→mem (subst (λ x. Memᴰ x (n ∷ names)) (sym named) there)),
    )
