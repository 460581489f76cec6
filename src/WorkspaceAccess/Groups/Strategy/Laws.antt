-- ===== src/WorkspaceAccess/Groups/Strategy/Laws.antt =====
-- What the strategies generate, against a description of when two groups match.
use mathlib.Core.List.{Memᴰ}
use mathlib.Core.List.Memᴰ as M
use databricks_ucx.Prelude.{
  String, String_eq, true, List, [], ◌∷◌, Option, none, some, mem, ◌≡◌, refl, sym, ap, ◌∙◌, subst,
  arith, inl, inr, ◌⊎◌, Memᴰ-filter, filter-Memᴰ, Memᴰ-filter_map,
}
use databricks_ucx.Dict.{Dict, get, values}
use databricks_ucx.Dict.Laws.{get→Memᴰ, Memᴰ-of_pairs}
use databricks_ucx.Dict.Values.{Memᴰ-values, values-Memᴰ}
use databricks_ucx.WorkspaceAccess.Groups.{Group, MigratedGroup}
use databricks_ucx.WorkspaceAccess.Groups.Strategy.{
  Regex, safe_match, safe_sub, Strategy, matching_names, match_by_external_id, regex_sub,
  regex_match, get_filtered_groups, migrated_group, with_account, match_name, accounts_by_id,
  match_external_id, match_sub, by_match, match_regex, generate_migrated_groups, Option_eq,
}

-- The listings file every group under its display name.
abbrev pub IsNamed : {C : Type 0} → Dict String (Group C) → Type 0
IsNamed {C} groups =
    (k : String) (g : Group C) → Memᴰ {A = String × Group C} (k, g) groups → g.display_name ≡ k

-- No listing of groups is configured, or it has the name.
abbrev pub IsIncluded : List String → String → Type 0
IsIncluded include name = (include ≡ []) ⊎ (mem name include ≡ true)

-- When a strategy takes an account group for a workspace group.
abbrev pub IsMatch : {C : Type 0} → Regex → Strategy → Group C → Group C → Type 0
IsMatch re matching_names group account = account.display_name ≡ group.display_name
IsMatch re match_by_external_id group account = account.external_id ≡ group.external_id
IsMatch re (regex_sub regex replace) group account =
    account.display_name ≡ safe_sub re group.display_name regex replace
IsMatch re (regex_match workspace_regex account_regex) group account =
    safe_match re account.display_name account_regex
    ≡ safe_match re group.display_name workspace_regex

module _ {C : Type 0} where
  Memᴰ-get_filtered_groups :
      (include : List String) (groups : Dict String (Group C)) {k : String} {g : Group C}
      → Memᴰ {A = String × Group C} (k, g) (get_filtered_groups include groups)
      → Memᴰ {A = String × Group C} (k, g) groups × IsIncluded include k
  unfolding get_filtered_groups
  Memᴰ-get_filtered_groups [] groups m = (m, inl refl)
  Memᴰ-get_filtered_groups (n ∷ names) groups m =
      let (m', h) = Memᴰ-filter _ groups m in (m', inr h)

  pub get_filtered_groups-Memᴰ :
      (include : List String) (groups : Dict String (Group C)) {k : String} {g : Group C}
      → Memᴰ {A = String × Group C} (k, g) groups
      → IsIncluded include k
      → Memᴰ {A = String × Group C} (k, g) (get_filtered_groups include groups)
  unfolding get_filtered_groups
  get_filtered_groups-Memᴰ [] groups m h = m
  get_filtered_groups-Memᴰ (n ∷ names) groups m (inl h) = absurd (ground arith)
  get_filtered_groups-Memᴰ (n ∷ names) groups m (inr h) = filter-Memᴰ _ m h

  module _ (dumps : List C → String) (prefix : String) where
    with_account-eq-some :
        (group : Group C) (name : Group C → String) (o : Option (Group C)) {g : MigratedGroup}
        → with_account dumps prefix group name o ≡ some g
        → (account : Group C) × (o ≡ some account)
          × (g ≡ migrated_group dumps prefix group (name account) account)
    unfolding with_account
    with_account-eq-some group name none h = absurd (ground arith)
    with_account-eq-some group name (some account) h = (account, refl, ground arith)

    module _ (re : Regex) (include : List String)
        (workspace_groups account_groups : Dict String (Group C)) where
      Memᴰ-by_match :
          (regex : String) (groups : Dict String (Group C)) (k : Option String) (g : Group C)
          → Memᴰ {A = Option String × Group C}
              (k, g)
              (by_match dumps prefix re include workspace_groups account_groups regex groups)
          → (j : String) × Memᴰ {A = String × Group C} (j, g) groups × (safe_match re j regex ≡ k)
      unfolding by_match
      Memᴰ-by_match regex groups k g m =
          let ((j, a), n, e) = M.of_map _ groups (Memᴰ-of_pairs _ m) in
          let same : a ≡ g = ap (λ (q : Option String × Group C). q.1) e in
          (
            j,
            subst (λ b. Memᴰ {A = String × Group C} (j, b) groups) same n,
            ap (λ (q : Option String × Group C). q.0) e,
          )

      -- Where a generated entry comes from.
      abbrev pub IsGenerated : Strategy → MigratedGroup → Type 0
      IsGenerated strategy g =
          (group : Group C) × (account : Group C) × Memᴰ group (values workspace_groups)
          × Memᴰ account (values account_groups)
          × IsIncluded include group.display_name
          × IsMatch re strategy group account
          × (g ≡ migrated_group dumps prefix group account.display_name account)

      module _ (workspace_named : IsNamed workspace_groups)
          (account_named : IsNamed account_groups) where
        filtered-IsIncluded :
            (group : Group C)
            → Memᴰ group (values (get_filtered_groups include workspace_groups))
            → Memᴰ group (values workspace_groups) × IsIncluded include group.display_name
        filtered-IsIncluded group m =
            let (k, n) = Memᴰ-values _ m in
            let (n', h) = Memᴰ-get_filtered_groups include workspace_groups n in
            (values-Memᴰ n', subst (IsIncluded include) (sym (workspace_named k group n')) h)

        -- The account group that the name of an entry finds.
        named-IsGenerated :
            (strategy : Strategy) (group : Group C) (name : String) (g : MigratedGroup)
            → Memᴰ group (values (get_filtered_groups include workspace_groups))
            → with_account dumps prefix group (λ _. name) (get name account_groups) ≡ some g
            → ((account : Group C)
                → account.display_name ≡ name
                → IsMatch re strategy group account)
            → IsGenerated strategy g
        named-IsGenerated strategy group name g m h matches =
            let (m', included) = filtered-IsIncluded group m in
            let (account, found, shape) =
              with_account-eq-some group (λ _. name) (get name account_groups) h in
            let n = get→Memᴰ name account account_groups found in
            let named = account_named name account n in
            (
              group,
              account,
              m',
              values-Memᴰ n,
              included,
              matches account named,
              shape ∙ ap (λ k. migrated_group dumps prefix group k account) (sym named),
            )

        external-IsGenerated :
            (group : Group C) (g : MigratedGroup)
            → Memᴰ group (values (get_filtered_groups include workspace_groups))
            → match_external_id dumps prefix re include workspace_groups account_groups group
              ≡ some g
            → IsGenerated match_by_external_id g
        unfolding match_external_id accounts_by_id
        external-IsGenerated group g m h =
            let (m', included) = filtered-IsIncluded group m in
            let (account, found, shape) = with_account-eq-some group _ _ h in
            let (a, n, e) =
              M.of_map _ (values account_groups)
                (Memᴰ-of_pairs _ (get→Memᴰ group.external_id account _ found)) in
            let same : a ≡ account = ap (λ (q : Option String × Group C). q.1) e in
            (
              group,
              account,
              m',
              subst (λ b. Memᴰ b (values account_groups)) same n,
              included,
              ap (λ b. b.external_id) (sym same) ∙ ap (λ (q : Option String × Group C). q.0) e,
              shape,
            )

        matched-IsGenerated :
            (workspace_regex account_regex : String) (p : Option String × Group C)
            (g : MigratedGroup)
            → Memᴰ p (
                by_match dumps prefix re include workspace_groups account_groups workspace_regex
                  (get_filtered_groups include workspace_groups))
            → match_regex dumps prefix re include workspace_groups account_groups account_regex p
              ≡ some g
            → IsGenerated (regex_match workspace_regex account_regex) g
        unfolding match_regex by_match
        matched-IsGenerated workspace_regex account_regex (k, group) g m h =
            let (account, found, shape) = with_account-eq-some group _ _ h in
            let (j, n, e) =
              Memᴰ-by_match account_regex account_groups k account (get→Memᴰ k account _ found) in
            let (i, n', e') =
              Memᴰ-by_match workspace_regex (get_filtered_groups include workspace_groups) k group
                m in
            let (m', included) = filtered-IsIncluded group (values-Memᴰ n') in
            (
              group,
              account,
              m',
              values-Memᴰ n,
              included,
              ap (λ x. safe_match re x account_regex) (account_named j account n)
                  ∙ e
                  ∙ sym e'
                  ∙ ap (λ x. safe_match re x workspace_regex)
                      (sym (
                        workspace_named i group
                          (Memᴰ-get_filtered_groups include workspace_groups n').0)),
              shape,
            )

        -- Where both listings file each group under its display name, every entry that a strategy
        -- generates is for a workspace group that is included and an account group that the
        -- strategy matches with it, and it has the fields that these two give it, with the name of
        -- the account group.
        pub generate_migrated_groups_sound :
            (strategy : Strategy) (g : MigratedGroup)
            → Memᴰ g (
                generate_migrated_groups dumps prefix re include workspace_groups account_groups
                  strategy)
            → IsGenerated strategy g
        unfolding generate_migrated_groups match_name match_sub
        generate_migrated_groups_sound matching_names g m =
            let (group, n, h) =
              Memᴰ-filter_map _ (values (get_filtered_groups include workspace_groups)) m in
            named-IsGenerated matching_names group group.display_name g n h (λ account e. e)
        generate_migrated_groups_sound match_by_external_id g m =
            let (group, n, h) =
              Memᴰ-filter_map _ (values (get_filtered_groups include workspace_groups)) m in
            external-IsGenerated group g n h
        generate_migrated_groups_sound (regex_sub regex replace) g m =
            let (group, n, h) =
              Memᴰ-filter_map _ (values (get_filtered_groups include workspace_groups)) m in
            named-IsGenerated (regex_sub regex replace) group _ g n h (λ account e. e)
        generate_migrated_groups_sound (regex_match workspace_regex account_regex) g m =
            let (p, n, h) =
              Memᴰ-filter_map _
                (by_match dumps prefix re include workspace_groups account_groups workspace_regex
                  (get_filtered_groups include workspace_groups))
                m in
            matched-IsGenerated workspace_regex account_regex p g n h
