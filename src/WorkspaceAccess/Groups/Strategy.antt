-- ===== src/WorkspaceAccess/Groups/Strategy.antt =====
-- workspace_access/groups.py: the strategies that match workspace groups with account groups. The
-- regular expressions of `re` and `json.dumps` are parameters.
pub mod Laws
pub mod Complete
use mathlib.Core.List.{filter_map}
use databricks_ucx.Prelude.{
  String, String_eq, ◌==◌, Bool, true, false, ◌&&◌, not, List, [], ◌∷◌, map, Option, none, some,
  if◌then◌else◌, mem, filter, Eq, ◌≡◌, ◌↔◌, refl, arith, eq_iff,
}
use databricks_ucx.Text.{is_empty}
use Prim.Native.String.{◌++◌}
use databricks_ucx.Exec.{Result, ok, err}
use databricks_ucx.Dict.{Dict, get, of_pairs, values}
use databricks_ucx.WorkspaceAccess.Groups.{Group, MigratedGroup}

-- `None` is a key of a dictionary like any other.
abbrev pub option_beq : Option String → Option String → Bool
option_beq none none = true
option_beq (some a) (some b) = a == b
option_beq _ _ = false

pub option_beq_iff : (a b : Option String) → (option_beq a b ≡ true) ↔ (a ≡ b)
option_beq_iff none none = ground arith
option_beq_iff (some a) (some b) = ground (arith, eq_iff a b)
option_beq_iff none (some b) = ground arith
option_beq_iff (some a) none = ground arith

instance abbrev pub Option_eq : Eq (Option String)
Option_eq = record { beq = option_beq; beq_iff = option_beq_iff }

-- re.Match: `groups()`, of which some may have matched nothing, and `group()`.
pub record Match : Type 0 where
  pub match_groups : List (Option String)
  pub match_group : String

-- What `re` does on a pattern and a name; an error is `re.error`.
pub record Regex : Type 0 where
  pub search : String → String → Result (Option Match)
  pub sub : String → String → String → Result String

-- _safe_match
unfoldable pub safe_match : Regex → String → String → Option String
safe_match re group_name match_re = elim (re.search match_re group_name) [
  | err e ↦ some group_name
  | ok match ↦ elim match [
    | none ↦ some group_name
    | some m ↦ elim m.match_groups [ [] ↦ some m.match_group | first ∷ rest ↦ first ]
  ]
]

-- _safe_sub
unfoldable pub safe_sub : Regex → String → String → String → String
safe_sub re group_name match_re replace = elim (re.sub match_re replace group_name) [
  | ok name ↦ name
  | err e ↦ group_name
]

-- The four subclasses of GroupMigrationStrategy with what they keep.
pub data Strategy : Type 0 where
  matching_names : Strategy
  match_by_external_id : Strategy
  regex_sub : (workspace_group_regex workspace_group_replace : String) → Strategy
  regex_match : (workspace_group_regex account_group_regex : String) → Strategy

-- What GroupManager keeps of the configuration: `None` and "" are both false, and so "".
pub record GroupConfig : Type 0 where
  pub include_group_names : List String
  pub renamed_group_prefix : String
  pub workspace_group_regex : String
  pub workspace_group_replace : String
  pub account_group_regex : String
  pub external_id_match : Bool

-- The prefix that GroupManager.__init__ keeps.
unfoldable pub renamed_prefix : GroupConfig → String
renamed_prefix c =
    if is_empty c.renamed_group_prefix then "ucx-renamed-" else c.renamed_group_prefix

-- _get_strategy
unfoldable pub get_strategy : GroupConfig → Strategy
get_strategy c =
    if not (is_empty c.workspace_group_regex) && not (is_empty c.workspace_group_replace)
    then regex_sub c.workspace_group_regex c.workspace_group_replace
    else if not (is_empty c.workspace_group_regex) && not (is_empty c.account_group_regex)
    then regex_match c.workspace_group_regex c.account_group_regex
    else if c.external_id_match
    then match_by_external_id
    else matching_names

module _ {C : Type 0} where
  -- get_filtered_groups
  unfoldable pub get_filtered_groups : List String → Dict String (Group C) → Dict String (Group C)
  get_filtered_groups [] groups = groups
  get_filtered_groups (n ∷ names) groups = filter (λ p. mem p.0 (n ∷ names)) groups

  module _ (dumps : List C → String) (prefix : String) where
    abbrev pub dumped : List C → Option String
    dumped [] = none
    dumped (c ∷ cs) = some (dumps (c ∷ cs))

    -- The MigratedGroup that each strategy yields.
    unfoldable pub migrated_group : Group C → String → Group C → MigratedGroup
    migrated_group group name account = record {
      id_in_workspace = group.id;
      name_in_workspace = group.display_name;
      name_in_account = name;
      temporary_name = prefix ++ group.display_name;
      members = dumped group.members;
      entitlements = dumped group.entitlements;
      external_id = account.external_id;
      roles = dumped group.roles;
    }

    -- An entry for the account group, if there is one.
    unfoldable pub with_account :
        Group C → (Group C → String) → Option (Group C) → Option MigratedGroup
    with_account group name none = none
    with_account group name (some account) = some (migrated_group group (name account) account)

    module _ (re : Regex) (include_group_names : List String)
        (workspace_groups account_groups : Dict String (Group C)) where
      unfoldable pub match_name : Group C → Option MigratedGroup
      unfolding with_account get
      match_name group =
          with_account group (λ _. group.display_name) (get group.display_name account_groups)

      -- account_groups_by_id
      unfoldable pub accounts_by_id : Dict (Option String) (Group C)
      unfolding of_pairs values
      accounts_by_id =
          of_pairs (map (λ (group : Group C). (group.external_id, group)) (values account_groups))

      unfoldable pub match_external_id : Group C → Option MigratedGroup
      unfolding with_account get accounts_by_id
      match_external_id group =
          with_account group (λ account. account.display_name)
            (get group.external_id accounts_by_id)

      unfoldable pub match_sub : String → String → Group C → Option MigratedGroup
      unfolding with_account get safe_sub
      match_sub regex replace group =
          let name = safe_sub re group.display_name regex replace in
          with_account group (λ _. name) (get name account_groups)

      -- The groups under what the regular expression finds in their names.
      unfoldable pub by_match : String → Dict String (Group C) → Dict (Option String) (Group C)
      unfolding of_pairs safe_match
      by_match regex groups =
          of_pairs (map (λ (p : String × Group C). (safe_match re p.0 regex, p.1)) groups)

      unfoldable pub match_regex : String → Option String × Group C → Option MigratedGroup
      unfolding with_account get by_match
      match_regex regex p =
          with_account p.1 (λ account. account.display_name)
            (get p.0 (by_match regex account_groups))

      -- generate_migrated_groups of the four strategies
      unfoldable pub generate_migrated_groups : Strategy → List MigratedGroup
      unfolding get_filtered_groups values
      generate_migrated_groups matching_names =
          filter_map match_name (values (get_filtered_groups include_group_names workspace_groups))
      generate_migrated_groups match_by_external_id =
          filter_map match_external_id
            (values (get_filtered_groups include_group_names workspace_groups))
      generate_migrated_groups (regex_sub regex replace) =
          filter_map (match_sub regex replace)
            (values (get_filtered_groups include_group_names workspace_groups))
      generate_migrated_groups (regex_match workspace_regex account_regex) =
          filter_map (match_regex account_regex)
            (by_match workspace_regex (get_filtered_groups include_group_names workspace_groups))
