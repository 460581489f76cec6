-- ===== src/WorkspaceAccess/Groups/Strategy/Complete.antt =====
-- What the strategies do not leave out, and that their entries can be looked up again.
use mathlib.Core.List.{Memᴰ}
use mathlib.Core.List.Memᴰ as M
use databricks_ucx.Prelude.{
  String, String_eq, Bool, true, false, List, map, Option, none, some, ◌≡◌, refl, sym, ap, ◌∙◌,
  subst, arith, filter_map-Memᴰ,
}
use databricks_ucx.Dict.{Dict, get, has, values}
use databricks_ucx.Dict.Laws.{Memᴰ→get, NoDup, get-of_pairs}
use databricks_ucx.Dict.Values.{Memᴰ-values, values-Memᴰ, Memᴰ-has, Memᴰ-last_of}
use databricks_ucx.WorkspaceAccess.Groups.{Group, MigratedGroup}
use databricks_ucx.WorkspaceAccess.Groups.Strategy.{
  Regex, safe_sub, Strategy, matching_names, match_by_external_id, regex_sub, regex_match,
  get_filtered_groups, migrated_group, with_account, match_name, accounts_by_id, match_external_id,
  match_sub, generate_migrated_groups, Option_eq,
}
use databricks_ucx.WorkspaceAccess.Groups.Strategy.Laws.{
  IsNamed, IsIncluded, IsMatch, generate_migrated_groups_sound, get_filtered_groups-Memᴰ,
}

-- A strategy that visits the workspace groups one by one; the last one visits what the regular
-- expression finds, and of the groups with the same find only one.
abbrev pub visits_groups : Strategy → Bool
visits_groups (regex_match workspace_regex account_regex) = false
visits_groups _ = true

module _ {C : Type 0} (dumps : List C → String) (prefix : String) (re : Regex)
    (include : List String) (workspace_groups account_groups : Dict String (Group C))
    (workspace_named : IsNamed workspace_groups) (account_named : IsNamed account_groups) where
  -- Where both listings file each group under its display name, the account group of a generated
  -- entry can be read by the name in the entry.
  pub generate_migrated_groups-has :
      (strategy : Strategy) (g : MigratedGroup)
      → Memᴰ g (
          generate_migrated_groups dumps prefix re include workspace_groups account_groups strategy)
      → has g.name_in_account account_groups ≡ true
  unfolding migrated_group
  generate_migrated_groups-has strategy g m =
      let (group, account, _, n, _, _, shape) =
        generate_migrated_groups_sound dumps prefix re include workspace_groups account_groups
          workspace_named account_named strategy g m in
      let (k, n') = Memᴰ-values account_groups n in
      let name : g.name_in_account ≡ k =
        ap (λ x. x.name_in_account) shape ∙ account_named k account n' in
      subst (λ x. has x account_groups ≡ true) (sym name) (Memᴰ-has k account account_groups n')

  module _ (account_nodup : NoDup account_groups) (group account : Group C)
      (there : Memᴰ group (values workspace_groups))
      (included : IsIncluded include group.display_name)
      (known : Memᴰ account (values account_groups)) where
    filtered : Memᴰ group (values (get_filtered_groups include workspace_groups))
    filtered =
        let (k, m) = Memᴰ-values workspace_groups there in
        values-Memᴰ (
          get_filtered_groups-Memᴰ include workspace_groups m
            (subst (IsIncluded include) (workspace_named k group m) included))

    by_name : (name : String) → account.display_name ≡ name → get name account_groups ≡ some account
    by_name name e =
        let (k, m) = Memᴰ-values account_groups known in
        Memᴰ→get name account account_groups account_nodup (
          subst (λ x. Memᴰ {A = String × Group C} (x, account) account_groups)
            (sym (account_named k account m) ∙ e) m)

    by_external_id :
        account.external_id ≡ group.external_id
        → (a : Group C) × (get group.external_id
              (accounts_by_id dumps prefix re include workspace_groups account_groups)
            ≡ some a)
    unfolding accounts_by_id
    by_external_id e =
        let pairs = map (λ (g : Group C). (g.external_id, g)) (values account_groups) in
        let m =
          subst (λ x. Memᴰ {A = Option String × Group C} (x, account) pairs) e
            (M.map (λ (g : Group C). (g.external_id, g)) known) in
        let (a, h) = Memᴰ-last_of group.external_id account pairs none m in
        (a, get-of_pairs group.external_id pairs ∙ h)

    -- Where both listings file each group under its display name and no account name stands twice,
    -- a workspace group that is included and matches an account group by name, by external
    -- identifier or by substitution gets an entry with its identifier.
    pub generate_migrated_groups_complete :
        (strategy : Strategy)
        → visits_groups strategy ≡ true
        → IsMatch re strategy group account
        → (g : MigratedGroup) × Memᴰ g (
            generate_migrated_groups dumps prefix re include workspace_groups account_groups
              strategy)
          × (g.id_in_workspace ≡ group.id)
    unfolding generate_migrated_groups match_name match_sub match_external_id with_account
        migrated_group
    generate_migrated_groups_complete matching_names v matches = (
      migrated_group dumps prefix group group.display_name account,
      filter_map-Memᴰ _ filtered (rw (by_name group.display_name matches) refl),
      refl,
    )
    generate_migrated_groups_complete match_by_external_id v matches =
        let (a, found) = by_external_id matches in
        (
          migrated_group dumps prefix group a.display_name a,
          filter_map-Memᴰ _ filtered (rw found refl),
          refl,
        )
    generate_migrated_groups_complete (regex_sub regex replace) v matches = (
      migrated_group dumps prefix group (safe_sub re group.display_name regex replace) account,
      filter_map-Memᴰ _ filtered (rw (by_name _ matches) refl),
      refl,
    )
    generate_migrated_groups_complete (regex_match w a) v matches = absurd (ground arith)
