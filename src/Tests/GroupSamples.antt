-- ===== src/Tests/GroupSamples.antt =====
-- Samples for workspace_access/groups.py: the listings and the strategies.
use Prim.Native.String.{◌++◌ as joined}
use mathlib.Core.List.{Memᴰ, filter_map}
use mathlib.Core.List.Memᴰ as M
use databricks_ucx.Prelude.{
  String, String_eq, false, List, [], ◌∷◌, none, some, ◌≡◌, refl, sym, ap, inl, inr, filter, mem,
  ◌∙◌,
}
use databricks_ucx.Text.{is_empty}
use databricks_ucx.Exec.{ok}
use databricks_ucx.Dict.{Dict, get, of_pairs, update, put, values}
use databricks_ucx.Dict.Laws.{NoDup}
use databricks_ucx.WorkspaceAccess.Groups.{Group, MigratedGroup}
use databricks_ucx.WorkspaceAccess.Groups.Strategy.{
  Regex, GroupConfig, regex_sub, get_strategy, renamed_prefix, generate_migrated_groups,
  get_filtered_groups, migrated_group, with_account, match_sub, safe_sub,
}
use databricks_ucx.WorkspaceAccess.Groups.Strategy.Laws.{
  IsNamed, IsGenerated, generate_migrated_groups_sound,
}
use databricks_ucx.WorkspaceAccess.Groups.Strategy.Complete.{generate_migrated_groups_complete}
use databricks_ucx.WorkspaceAccess.Groups.Manager.{
  GroupsApi, is_group_out_of_scope, by_display_name, list_workspace_groups,
  account_groups_in_workspace, workspace_groups_in_workspace, account_groups_in_account, crawler,
  fetched, read_in_scope, get_or_none, list_account_groups, remove,
}
use databricks_ucx.WorkspaceAccess.Groups.Manager.Laws.{crawler_sound}

abbrev pub group_of : String → String → String → Group String
group_of i n kind = record {
  id = i;
  display_name = n;
  external_id = none;
  meta = some (some kind);
  members = [];
  roles = [];
  entitlements = [];
}

abbrev dumps : List String → String
dumps _ = "[]"

-- A replacement that puts a prefix before the name.
abbrev prefixing : Regex
prefixing = record { search = λ p n. ok none; sub = λ p r n. ok (joined r n) }

abbrev pub local_group : Group String
local_group = group_of "1" "data" "WorkspaceGroup"

abbrev pub account_group : Group String
account_group = group_of "9" "corp_data" "Group"

abbrev local_groups : Dict String (Group String)
local_groups = ("data", local_group) ∷ []

abbrev account_groups : Dict String (Group String)
account_groups = ("corp_data", account_group) ∷ []

single-IsNamed : (k : String) (g : Group String) → g.display_name ≡ k → IsNamed ((k, g) ∷ [])
single-IsNamed k g named j h m = elim (M.cases_cons m) [
  | inl e ↦
      ap (λ (p : String × Group String). p.1.display_name) e
      ∙ named
      ∙ sym (ap (λ (p : String × Group String). p.0) e)
  | inr n ↦ elim n [ ]
]

abbrev data_entry : MigratedGroup
data_entry = migrated_group dumps "tmp-" local_group "corp_data" account_group

data_generated :
    generate_migrated_groups dumps "tmp-" prefixing [] local_groups account_groups
      (regex_sub "^" "corp_")
    ≡ data_entry ∷ []
unfolding generate_migrated_groups get_filtered_groups values match_sub safe_sub with_account get
    filter_map migrated_group
data_generated = refl

data_there : Memᴰ data_entry (
    generate_migrated_groups dumps "tmp-" prefixing [] local_groups account_groups
      (regex_sub "^" "corp_"))
data_there = rw data_generated (Memᴰ.head refl)

generate_migrated_groups_sound_example :
    IsGenerated dumps "tmp-" prefixing [] local_groups account_groups
      (regex_sub "^" "corp_")
      data_entry
generate_migrated_groups_sound_example =
    generate_migrated_groups_sound dumps "tmp-" prefixing [] local_groups account_groups
      (single-IsNamed "data" local_group refl) (single-IsNamed "corp_data" account_group refl)
      (regex_sub "^" "corp_") data_entry data_there

local_there : Memᴰ local_group (values local_groups)
unfolding values
local_there = Memᴰ.head refl

account_there : Memᴰ account_group (values account_groups)
unfolding values
account_there = Memᴰ.head refl

account_groups-NoDup : NoDup account_groups
unfolding get
account_groups-NoDup = (refl, tt)

names_match : "corp_data" ≡ safe_sub prefixing "data" "^" "corp_"
unfolding safe_sub
names_match = refl

generate_migrated_groups_complete_example :
    (g : MigratedGroup) × Memᴰ g (
      generate_migrated_groups dumps "tmp-" prefixing [] local_groups account_groups
        (regex_sub "^" "corp_"))
    × (g.id_in_workspace ≡ "1")
generate_migrated_groups_complete_example =
    generate_migrated_groups_complete dumps "tmp-" prefixing [] local_groups account_groups
      (single-IsNamed "data" local_group refl) (single-IsNamed "corp_data" account_group refl)
      account_groups-NoDup local_group account_group local_there (inl refl) account_there
      (regex_sub "^" "corp_") refl names_match

-- A workspace in which nothing changes, with a local group, an account group and a system group.
abbrev still : GroupsApi (Unit {0}) String
still = record {
  list_groups =
      λ attributes w. (ok (local_group ∷ account_group ∷ group_of "0" "users" "Group" ∷ []), w);
  get_group = λ i w. (ok local_group, w);
  list_account_groups = λ attributes w. (ok (account_group ∷ []), w);
  patch_display_name = λ i n w. (ok tt, w);
  delete_group = λ i w. (ok tt, w);
  put_assignment = λ i w. (ok tt, w);
  gather = λ tasks w. (ok [], w);
  sorted_by_name = λ gs. gs;
}

listed : account_groups_in_workspace still tt ≡ (ok account_groups, tt)
unfolding account_groups_in_workspace by_display_name list_workspace_groups mem filter
    is_group_out_of_scope of_pairs update put is_empty
listed = refl

account_group_found : get "corp_data" account_groups ≡ some account_group
unfolding get
account_group_found = refl

abbrev config : GroupConfig
config = record {
  include_group_names = "data" ∷ [];
  renamed_group_prefix = "";
  workspace_group_regex = "^";
  workspace_group_replace = "corp_";
  account_group_regex = "";
  external_id_match = false;
}

abbrev renamed_entry : MigratedGroup
renamed_entry = migrated_group dumps "ucx-renamed-" local_group "corp_data" account_group

crawled : crawler still dumps prefixing config tt ≡ (ok (renamed_entry ∷ []), tt)
unfolding crawler workspace_groups_in_workspace account_groups_in_account by_display_name
    list_workspace_groups read_in_scope get_or_none remove list_account_groups mem filter
    is_group_out_of_scope of_pairs update put is_empty generate_migrated_groups get_filtered_groups
    values match_sub safe_sub with_account get filter_map migrated_group get_strategy renamed_prefix
crawled = refl

crawler_sound_example :
    (workspace_groups : Dict String (Group String)) × (in_account : Dict String (Group String))
    × ((workspace_groups_in_workspace still tt).0 ≡ ok workspace_groups)
    × ((account_groups_in_account still (workspace_groups_in_workspace still tt).1).0
        ≡ ok in_account)
    × IsGenerated dumps
        (renamed_prefix config)
        prefixing
        config.include_group_names
        workspace_groups
        in_account
        (get_strategy config)
        renamed_entry
crawler_sound_example =
    crawler_sound still dumps prefixing config tt tt (renamed_entry ∷ []) renamed_entry crawled
      (Memᴰ.head refl)

read_back : fetched ("data" ∷ "gone" ∷ []) (renamed_entry ∷ []) ≡ renamed_entry ∷ []
unfolding fetched filter_map get of_pairs update put migrated_group
read_back = refl
